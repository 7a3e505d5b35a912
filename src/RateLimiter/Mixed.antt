-- ===== src/RateLimiter/Mixed.antt =====
-- rate_limiter.cpp: requests, questions for the remaining number and clean-up rounds, in any order,
-- against the log of the requests that the limiter granted one client.
use ip_server.Base.{
  ◌<◌, ℕ, ◌+◌, ◌-◌, ◌^◌, ◌≤◌, ◌≡◌, refl, sym, ap, subst, ◌∙◌, inl, inr, List, [], ◌∷◌, Option, some,
  none, arith, length, ◌>>=◌, if◌then◌else◌, Bool-cases, Option-cases, eq_of_some,
}
use ip_server.Base.Text.{Str, Str-discrete as dec}
use ip_server.Base.Int.{ℤ, pos_part}
use ip_server.Store.Dict.{find, find-assign_cases}
use ip_server.RateLimiter.{
  assign, RateLimiter, IpRecord, is_allowed, get_remaining, cleanup, clean_all, remove_idle,
  is_idle, pop_old, cleanup_old_timestamps, init,
}
use ip_server.RateLimiter.Invariant.{IsValid}
use ip_server.RateLimiter.Window.{recent, pop_old_later, All-le_trans}
use ip_server.RateLimiter.Decision.{is_allowed-Outcome}
use ip_server.RateLimiter.Tracking.{
  Call, log_after, Tracks, Tracks-step, Outcome-window, Outcome-limit,
}
use ip_server.RateLimiter.Remaining.{get_remaining-IsValid}
use ip_server.RateLimiter.Sweep.{cleanup_lem}
use ip_server.RateLimiter.History.{init-IsValid, init-Tracks, recent-le-limit}

-- A call of one of the three methods. The readings of a round are up to `last`.
pub data Operation : Type 0 where
  allowed : Call → Operation
  remaining : Str → ℕ → Operation
  round : (clock : ℕ → ℕ) (last : ℕ) → Operation

-- The readings follow one another, from `since` on; those of a round may come in any order.
abbrev pub InOrder : ℕ → List Operation → Type 0
InOrder since [] = Unit {0}
InOrder since (allowed c ∷ ops) = (since ≤ c.now) × (c.now ≤ c.later) × InOrder c.later ops
InOrder since (remaining ip now ∷ ops) = (since ≤ now) × InOrder now ops
InOrder since (round clock last ∷ ops) =
    (since ≤ last) × ((i : ℕ) → clock i ≤ last) × InOrder last ops

abbrev pub end_of : ℕ → List Operation → ℕ
end_of since [] = since
end_of since (allowed c ∷ ops) = end_of c.later ops
end_of since (remaining ip now ∷ ops) = end_of now ops
end_of since (round clock last ∷ ops) = end_of last ops

-- The operations in turn, with the log of one client.
unfoldable pub operate : Str → List Operation → RateLimiter → List ℕ → Option (RateLimiter × List ℕ)
operate who [] s log = some (s, log)
operate who (allowed c ∷ ops) s log = do
  (t, granted) ← is_allowed c.ip c.now c.later s
  operate who ops t (log_after who s c granted log)
operate who (remaining ip now ∷ ops) s log = operate who ops (get_remaining ip now s).0 log
operate who (round clock last ∷ ops) s log = do t ← cleanup clock s; operate who ops t log

-- A record of `t` is one of `s`, cleaned up to `last` at most.
abbrev Cleaned : (s t : RateLimiter) → ℕ → Type 0
Cleaned s t last =
    (who : Str) (r' : IpRecord)
    → find dec who t.ip_records ≡ some r'
    → (r : IpRecord) × (find dec who s.ip_records ≡ some r)
      × ((at : ℕ)
          → last ≤ at
          → pop_old s.window at r'.timestamps ≡ pop_old s.window at r.timestamps)

Tracks-Cleaned :
    (who : Str) (s t : RateLimiter) (since last : ℕ) (log : List ℕ)
    → Tracks who s since log
    → since ≤ last
    → t.window ≡ s.window
    → Cleaned s t last
    → Tracks who t last log
Tracks-Cleaned who s t since last log tr le w c = record {
  sorted = tr.sorted;
  past = All-le_trans log since last le tr.past;
  suffix = λ r' f at a.
      let (r, g, e) = c who r' f in rw w (e at a ∙ tr.suffix r g at (omega (arith, le, a)));
}

same_window : (ip : Str) (now : ℕ) (s : RateLimiter) → (get_remaining ip now s).0.window ≡ s.window
unfolding get_remaining
same_window ip now s = elim (Option-cases (find dec ip s.ip_records)) [
  | inl e ↦ rw (e, get_remaining) refl
  | inr (r, e) ↦ rw (e, get_remaining) refl
]

same_limit :
    (ip : Str) (now : ℕ) (s : RateLimiter)
    → (get_remaining ip now s).0.max_requests ≡ s.max_requests
unfolding get_remaining
same_limit ip now s = elim (Option-cases (find dec ip s.ip_records)) [
  | inl e ↦ rw (e, get_remaining) refl
  | inr (r, e) ↦ rw (e, get_remaining) refl
]

remaining-Cleaned :
    (ip : Str) (now : ℕ) (s : RateLimiter) → Cleaned s (get_remaining ip now s).0 now
unfolding get_remaining cleanup_old_timestamps
remaining-Cleaned ip now s who r' f = elim (Option-cases (find dec ip s.ip_records)) [
  | inl e ↦
      let same : (get_remaining ip now s).0 ≡ s = rw (e, get_remaining) refl in
      (r', subst (λ (z : RateLimiter). find dec who z.ip_records ≡ some r') same f, λ at a. refl)
  | inr (r, e) ↦
      let clean = cleanup_old_timestamps s.window now r in
      let same : (get_remaining ip now s).0.ip_records ≡ assign dec ip clean s.ip_records =
        rw (e, get_remaining) refl in
      let f' : find dec who (assign dec ip clean s.ip_records) ≡ some r' =
        subst (λ m. find dec who m ≡ some r') same f in
      elim (find-assign_cases dec who ip clean r' s.ip_records f') [
        | inl (p, q) ↦ (
          r,
          subst (λ x. find dec x s.ip_records ≡ some r) (sym p) e,
          λ at a.
              ap (λ (z : IpRecord). pop_old s.window at z.timestamps) q
              ∙ pop_old_later s.window now at r.timestamps a,
        )
        | inr (_, k) ↦ (r', k, λ at a. refl)
      ]
]

round_keeps :
    (clock : ℕ → ℕ) (s t : RateLimiter)
    → cleanup clock s ≡ some t
    → (t.window ≡ s.window) × (t.max_requests ≡ s.max_requests)
unfolding cleanup
round_keeps clock s t e =
    elim (Option-cases (remove_idle (clean_all s.window clock 0 s.ip_records) s.lru_list)) [
      | inl n ↦ absurd (cc)
      | inr ((m, l), i) ↦
          let q : cleanup clock s ≡ some (record s { ip_records = m; lru_list = l }) =
            rw (i, cleanup) refl in
          let k = eq_of_some (sym q ∙ e) in
          (
            sym (ap (λ (x : RateLimiter). x.window) k),
            sym (ap (λ (x : RateLimiter). x.max_requests) k),
          )
    ]

round-Cleaned :
    (clock : ℕ → ℕ) (last : ℕ) (s t : RateLimiter)
    → ((i : ℕ) → clock i ≤ last)
    → ((ip : Str) → find dec ip s.ip_records ≡ none → find dec ip t.ip_records ≡ none)
    → ((ip : Str) (r : IpRecord)
        → find dec ip s.ip_records ≡ some r
        → (j : ℕ) × (find dec ip t.ip_records ≡ (
            if is_idle (cleanup_old_timestamps s.window (clock j) r)
            then none
            else some (cleanup_old_timestamps s.window (clock j) r))))
    → Cleaned s t last
unfolding cleanup_old_timestamps
round-Cleaned clock last s t upto gone kept who r' f =
    elim (Option-cases (find dec who s.ip_records)) [
      | inl e ↦ absurd (cc (gone who e, f))
      | inr (r, e) ↦
          let (j, q) = kept who r e in
          let x = cleanup_old_timestamps s.window (clock j) r in
          elim (Bool-cases (is_idle x)) [
            | inl i ↦
                absurd (
                  cc (subst (λ b. find dec who t.ip_records ≡ (if b then none else some x)) i q, f))
            | inr i ↦ (
              r,
              e,
              λ at a.
                  ap (λ (z : IpRecord). pop_old s.window at z.timestamps)
                    (eq_of_some (
                      sym f
                      ∙ subst (λ b. find dec who t.ip_records ≡ (if b then none else some x)) i q))
                  ∙ pop_old_later s.window (clock j) at r.timestamps (omega (arith, upto j, a)),
            )
          ]
    ]

operate_keeps :
    (who : Str) (ops : List Operation) (s : RateLimiter) (log : List ℕ) (since : ℕ)
    → IsValid s
    → Tracks who s since log
    → InOrder since ops
    → (t : RateLimiter) × (end : List ℕ) × (operate who ops s log ≡ some (t, end))
      × IsValid t
      × Tracks who t (end_of since ops) end
      × (t.window ≡ s.window)
      × (t.max_requests ≡ s.max_requests)
unfolding operate
operate_keeps who [] s log since h tr o = (s, log, refl, h, tr, refl, refl)
operate_keeps who (allowed c ∷ ops) s log since h tr (le, le', o) =
    let (t, b, e, valid, out) = is_allowed-Outcome s h c.ip c.now c.later in
    let tr' = Tracks-step s h c.ip c.now c.later who since log tr le le' out in
    let (u, end, run, done, last, w, m) =
      operate_keeps who ops t (log_after who s c b log) c.later valid tr' o in
    (
      u,
      end,
      rw (e, operate) run,
      done,
      last,
      w ∙ Outcome-window s h c.ip c.now c.later out,
      m ∙ Outcome-limit s h c.ip c.now c.later out,
    )
operate_keeps who (remaining ip now ∷ ops) s log since h tr (le, o) =
    let t = (get_remaining ip now s).0 in
    let tr' =
      Tracks-Cleaned who s t since now log tr le (same_window ip now s)
        (remaining-Cleaned ip now s) in
    let (u, end, run, done, last, w, m) =
      operate_keeps who ops t log now (get_remaining-IsValid s h ip now) tr' o in
    (u, end, run, done, last, w ∙ same_window ip now s, m ∙ same_limit ip now s)
operate_keeps who (round clock upto ∷ ops) s log since h tr (le, early, o) =
    let (t, e, valid, gone, kept) = cleanup_lem s clock h in
    let (w', m') = round_keeps clock s t e in
    let tr' =
      Tracks-Cleaned who s t since upto log tr le w'
        (round-Cleaned clock upto s t early gone kept) in
    let (u, end, run, done, last, w, m) = operate_keeps who ops t log upto valid tr' o in
    (u, end, rw (e, operate) run, done, last, w ∙ w', m ∙ m')

-- From a new limiter, any sequence of requests of any clients, questions for the remaining number
-- and clean-up rounds, with clock readings that do not fall from one operation to the next, runs
-- without undefined behaviour. It never leaves more records than `max_ip_records` (one if that is
-- 0). And for every client that has a record, of the requests granted since the record was made
-- at most `max_requests` lie in the window before any time from the last reading on.
pub window_kept :
    (max_requests : ℤ) (window max_ip_records : ℕ) (who : Str) (ops : List Operation) (since : ℕ)
    → pos_part max_requests < 2 ^ 31
    → InOrder since ops
    → (t : RateLimiter) × (log : List ℕ) × (operate who ops
          (init max_requests window max_ip_records)
          []
        ≡ some (t, log))
      × (length t.ip_records ≤ t.max_ip_records + (1 - t.max_ip_records))
      × ((r : IpRecord) (at : ℕ)
          → find dec who t.ip_records ≡ some r
          → end_of since ops ≤ at
          → length (recent window at log) ≤ pos_part max_requests)
unfolding init
window_kept max_requests window max_ip_records who ops since range o =
    let start = init-IsValid max_requests window max_ip_records range in
    let (t, log, run, valid, tr, w, m) =
      operate_keeps who ops (init max_requests window max_ip_records) [] since start
        (init-Tracks max_requests window max_ip_records who since) o in
    (
      t,
      log,
      run,
      valid.bounded,
      λ r at f a.
          subst (λ x. length (recent window at log) ≤ pos_part x) m
            (subst (λ x. length (recent x at log) ≤ pos_part t.max_requests) w
              (recent-le-limit who t log valid tr r f at a)),
    )
