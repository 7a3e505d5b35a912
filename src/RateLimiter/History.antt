-- ===== src/RateLimiter/History.antt =====
-- rate_limiter.cpp against a history of calls: the log of the requests that the limiter granted
-- one client since the client's record was made.
use ip_server.Base.{
  ◌^◌, ℕ, ◌+◌, ◌-◌, ◌≤◌, ◌<◌, ◌≡◌, refl, ◌∙◌, subst, List, [], ◌∷◌, Option, some, arith, length,
  ◌>>=◌,
}
use ip_server.Base.Text.{Str, Str-discrete as dec}
use ip_server.Base.Int.{ℤ, pos_part}
use ip_server.Store.Dict.{find}
use ip_server.RateLimiter.{RateLimiter, IpRecord, is_allowed, init}
use ip_server.RateLimiter.Invariant.{IsValid, lru_it, length-pop_old-le}
use ip_server.RateLimiter.Window.{recent, pop_old-recent}
use ip_server.RateLimiter.Decision.{is_allowed-Outcome}
use ip_server.RateLimiter.Tracking.{
  Call, Ordered, last_reading, log_after, Tracks, Tracks-step, Outcome-window, Outcome-limit,
}
use ip_server.Store.Linked.{Linked-empty}
use native.Mathlib.Nat.{le_trans}

-- The calls in turn, with the log of one client.
unfoldable pub observe : Str → List Call → RateLimiter → List ℕ → Option (RateLimiter × List ℕ)
observe who [] s log = some (s, log)
observe who (c ∷ cs) s log = do
  (t, granted) ← is_allowed c.ip c.now c.later s
  observe who cs t (log_after who s c granted log)

pub init-IsValid :
    (max_requests : ℤ) (window max_ip_records : ℕ)
    → pos_part max_requests < 2 ^ 31
    → IsValid (init max_requests window max_ip_records)
unfolding init find
init-IsValid max_requests window max_ip_records h = record {
  links = Linked-empty dec lru_it;
  bounded = omega arith;
  filled = λ ip r f. cc;
  int_range = h;
}

pub init-Tracks :
    (max_requests : ℤ) (window max_ip_records : ℕ) (who : Str) (since : ℕ)
    → Tracks who (init max_requests window max_ip_records) since []
unfolding init find
init-Tracks max_requests window max_ip_records who since = record {
  sorted = tt;
  past = tt;
  suffix = λ r f at a. absurd (cc f);
}

observe_keeps :
    (who : Str) (cs : List Call) (s : RateLimiter) (log : List ℕ) (since : ℕ)
    → IsValid s
    → Tracks who s since log
    → Ordered since cs
    → (t : RateLimiter) × (end : List ℕ) × (observe who cs s log ≡ some (t, end))
      × IsValid t
      × Tracks who t (last_reading since cs) end
      × (t.window ≡ s.window)
      × (t.max_requests ≡ s.max_requests)
unfolding observe
observe_keeps who [] s log since h tr o = (s, log, refl, h, tr, refl, refl)
observe_keeps who (c ∷ cs) s log since h tr (le, le', o) =
    let (t, b, e, valid, out) = is_allowed-Outcome s h c.ip c.now c.later in
    let tr' = Tracks-step s h c.ip c.now c.later who since log tr le le' out in
    let (u, end, run, done, last, w, m) =
      observe_keeps who cs t (log_after who s c b log) c.later valid tr' o in
    (
      u,
      end,
      rw (e, observe) run,
      done,
      last,
      w ∙ Outcome-window s h c.ip c.now c.later out,
      m ∙ Outcome-limit s h c.ip c.now c.later out,
    )

pub recent-le-limit :
    (who : Str) (t : RateLimiter) (log : List ℕ) {since : ℕ}
    → IsValid t
    → Tracks who t since log
    → (r : IpRecord) → find dec who t.ip_records ≡ some r
    → (at : ℕ) → since ≤ at
    → length (recent t.window at log) ≤ pos_part t.max_requests
recent-le-limit who t log valid tr r f at a =
    rw (← pop_old-recent t.window at log tr.sorted, ← tr.suffix r f at a)
      (le_trans (length-pop_old-le t.window at r.timestamps) (valid.filled who r f))

-- From a new limiter, any sequence of calls of `is_allowed` by any clients, with clock readings
-- that do not fall, runs without undefined behaviour. It never holds more records than
-- `max_ip_records` (one if that is 0). And for every client that has a record, of the requests
-- granted since the record was made at most `max_requests` lie in the window before any time from
-- the last reading on.
pub sliding_window :
    (max_requests : ℤ) (window max_ip_records : ℕ) (who : Str) (cs : List Call) (since : ℕ)
    → pos_part max_requests < 2 ^ 31
    → Ordered since cs
    → (t : RateLimiter) × (log : List ℕ) × (observe who cs
          (init max_requests window max_ip_records)
          []
        ≡ some (t, log))
      × (length t.ip_records ≤ t.max_ip_records + (1 - t.max_ip_records))
      × ((r : IpRecord) (at : ℕ)
          → find dec who t.ip_records ≡ some r
          → last_reading since cs ≤ at
          → length (recent window at log) ≤ pos_part max_requests)
unfolding init
sliding_window max_requests window max_ip_records who cs since range o =
    let start = init-IsValid max_requests window max_ip_records range in
    let (t, log, run, valid, tr, w, m) =
      observe_keeps who cs (init max_requests window max_ip_records) [] since start
        (init-Tracks max_requests window max_ip_records who since) o in
    (
      t,
      log,
      run,
      valid.bounded,
      λ r at f a.
          subst (λ x. length (recent window at log) ≤ pos_part x) m
            (subst (λ x. length (recent x at log) ≤ pos_part t.max_requests) w
              (recent-le-limit who t log valid tr r f at a)),
    )
