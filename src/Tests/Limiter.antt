-- ===== src/Tests/Limiter.antt =====
-- src/rate_limiter.cpp at a limiter of two requests in 60 ticks and at most two clients.
use ip_server.Base.{
  eq_of_some, sym, ◌∙◌, subst, ℕ, ◌≤◌, ◌<◌, ◌≡◌, refl, ◌↔◌, Bool, true, false, List, [], ◌∷◌, some,
  none, arith, length, ◌+◌, ◌-◌, if◌then◌else◌,
}
use ip_server.Base.Text.{Str, codes, Str-discrete as dec}
use ip_server.Base.Int.{pos, pos_part}
use ip_server.Store.Dict.{find, emplace, assign, erase}
use ip_server.RateLimiter.{
  RateLimiter, IpRecord, init, is_allowed, get_remaining, cleanup, cleanup_old_timestamps, is_idle,
  add_record, pop_old, admit_new, admit_known, evict_lru, clean_all, remove_idle,
}
use ip_server.Store.NodeList.{splice_front, push_front, back, pop_back, erase_node, last_node}
use ip_server.RateLimiter.Invariant.{IsValid}
use ip_server.RateLimiter.Window.{Sorted, recent}
use ip_server.RateLimiter.Admission.{add_record-IsValid}
use ip_server.RateLimiter.Decision.{is_allowed_total, is_allowed_decision}
use ip_server.RateLimiter.Tracking.{Call}
use ip_server.RateLimiter.History.{observe, init-IsValid}
use ip_server.RateLimiter.Mixed.{Operation, allowed, remaining, round, operate, window_kept}
use ip_server.RateLimiter.Remaining.{allowed_iff_remaining}
use ip_server.RateLimiter.Sweep.{cleanup_lem}

program : Unit {0}
unfolding init is_allowed admit_new admit_known add_record evict_lru cleanup_old_timestamps pop_old
    get_remaining cleanup clean_all remove_idle is_idle observe dec find emplace assign erase
    splice_front push_front back pop_back erase_node last_node
program = tt

abbrev alice : Str
alice = codes "10.0.0.1"

abbrev bob : Str
bob = codes "10.0.0.2"

abbrev carol : Str
carol = codes "10.0.0.3"

abbrev fresh : RateLimiter
fresh = init (pos 2) 60 2

-- Alice asked at time 5.
abbrev one : RateLimiter
one = add_record alice 5 fresh

one-IsValid : IsValid one
unfolding init find
one-IsValid =
    add_record-IsValid alice 5 fresh (init-IsValid (pos 2) 60 2 (omega arith)) refl (omega arith)
      (omega arith)

abbrev first : IpRecord
first = record { timestamps = 5 ∷ []; lru_it = 0 }

find-one : find dec alice one.ip_records ≡ some first
unfolding program
find-one = refl

one-Sorted : (r : IpRecord) → find dec alice one.ip_records ≡ some r → Sorted r.timestamps
one-Sorted r f =
    subst (λ (x : IpRecord). Sorted x.timestamps) (eq_of_some (sym find-one ∙ f)) (tt, tt)

-- Two requests pass, a third in the window does not, a fourth after it does.
abbrev answers : List Call → RateLimiter → List Bool
answers [] s = []
answers (c ∷ cs) s = elim (is_allowed c.ip c.now c.later s) [
  | none ↦ []
  | some (t, b) ↦ b ∷ answers cs t
]

abbrev call : Str → ℕ → Call
call ip now = record { ip = ip; now = now; later = now }

abbrev calls : List Call
calls = call alice 5 ∷ call alice 7 ∷ call bob 8 ∷ call alice 60 ∷ call alice 66 ∷ []

answers_run : answers calls fresh ≡ true ∷ true ∷ true ∷ false ∷ true ∷ []
unfolding program
answers_run = refl

-- A third client takes the place of the one that asked least recently.
evict_run :
    answers (call alice 5 ∷ call bob 6 ∷ call carol 7 ∷ call alice 8 ∷ []) fresh
    ≡ true ∷ true ∷ true ∷ true ∷ []
unfolding program
evict_run = refl

is_allowed_total_example :
    (t : RateLimiter) × (b : Bool) × (is_allowed alice 7 7 one ≡ some (t, b)) × IsValid t
is_allowed_total_example = is_allowed_total one one-IsValid alice 7 7

run_at_7 :
    is_allowed alice 7 7 one
    ≡ some (
      record one {
        ip_records = (alice, record first { timestamps = 5 ∷ 7 ∷ [] }) ∷ [];
        lru_list = record { nodes = (0, alice) ∷ []; next = 1 };
      },
      true,
    )
unfolding program
run_at_7 = refl

is_allowed_decision_example : (true ≡ true) ↔ (
    (0 < 2)
    × ((r : IpRecord)
        → find dec alice one.ip_records ≡ some r
        → length (recent 60 7 r.timestamps) < 2))
unfolding init add_record
is_allowed_decision_example = is_allowed_decision one one-IsValid alice 7 7 run_at_7 one-Sorted

-- Two requests, a question, a round whose readings are not in order, and a request after it.
abbrev operations : List Operation
operations =
    allowed (record { ip = alice; now = 5; later = 5 })
    ∷ remaining alice 6
    ∷ allowed (record { ip = alice; now = 7; later = 7 })
    ∷ round (λ i. 66 - i) 66
    ∷ allowed (record { ip = alice; now = 67; later = 67 })
    ∷ []

window_kept_example :
    (t : RateLimiter) × (log : List ℕ) × (operate alice operations fresh [] ≡ some (t, log))
    × (length t.ip_records ≤ t.max_ip_records + (1 - t.max_ip_records))
    × ((r : IpRecord) (at : ℕ)
        → find dec alice t.ip_records ≡ some r
        → 67 ≤ at
        → length (recent 60 at log) ≤ 2)
window_kept_example = window_kept (pos 2) 60 2 alice operations 0 (omega arith) (
  omega arith,
  omega arith,
  (
    omega arith,
    (omega arith, omega arith, (omega arith, (λ i. omega arith), (omega arith, omega arith, tt))),
  ),
)

allowed_iff_remaining_example : (true ≡ true) ↔ (0 < pos_part (get_remaining alice 7 one).1)
allowed_iff_remaining_example = allowed_iff_remaining one one-IsValid alice 7 7 run_at_7 one-Sorted

cleanup_lem_example :
    (t : RateLimiter) × (cleanup (λ _. 70) one ≡ some t)
    × IsValid t
    × ((ip : Str) → find dec ip one.ip_records ≡ none → find dec ip t.ip_records ≡ none)
    × ((ip : Str) (r : IpRecord)
        → find dec ip one.ip_records ≡ some r
        → (j : ℕ) × (find dec ip t.ip_records ≡ (
            if is_idle (cleanup_old_timestamps 60 70 r)
            then none
            else some (cleanup_old_timestamps 60 70 r))))
unfolding init add_record
cleanup_lem_example = cleanup_lem one (λ _. 70) one-IsValid
