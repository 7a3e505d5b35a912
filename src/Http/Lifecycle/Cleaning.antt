-- ===== src/Http/Lifecycle/Cleaning.antt =====
-- http_server.cpp, `cleanup_thread_func`: the thread ends after `request_stop`.
use ip_server.Base.{ℕ, zero, suc, ◌+◌, ◌≤◌, ◌≡◌, refl, ◌⊎◌, inl, inr, true, arith}
use ip_server.Http.Lifecycle.{
  Cleaner, absent, checking, sleeping, woken, cleaning, ended, Life, Clean, sees_stop, sleeps,
  wakes, begins, cleans, skips,
}

-- The thread was never started, or has ended, after at most so many rounds.
abbrev pub HasEnded : ℕ → Life → Type 0
HasEnded most s = ((s.cleaner ≡ absent) ⊎ (s.cleaner ≡ ended)) × (s.rounds ≤ most)

abbrev pub Ends : ℕ → ℕ → Life → Type 0
Ends zero most s = HasEnded most s
Ends (suc k) most s =
    HasEnded most s ⊎ (((t : Life) × Clean s t) × ((t : Life) → Clean s t → Ends k most t))

abbrev steps_left : Cleaner → ℕ
steps_left absent = 0
steps_left ended = 0
steps_left checking = 1
steps_left woken = 2
steps_left cleaning = 2
steps_left sleeping = 3

-- The rounds that can still be made.
abbrev rounds_left : Cleaner → ℕ
rounds_left cleaning = 1
rounds_left absent = 0
rounds_left ended = 0
rounds_left checking = 0
rounds_left woken = 0
rounds_left sleeping = 0

Clean-left :
    {s t : Life}
    → Clean s t
    → s.stop_requested ≡ true
    → (suc (steps_left t.cleaner) ≤ steps_left s.cleaner)
      × (t.rounds + rounds_left t.cleaner ≤ s.rounds + rounds_left s.cleaner)
      × (t.stop_requested ≡ true)
Clean-left (sees_stop c r) h = rw c (omega arith, omega arith, h)
Clean-left (sleeps c r) h = absurd (cc (r, h))
Clean-left (wakes c) h = rw c (omega arith, omega arith, h)
Clean-left (begins c r) h = absurd (cc (r, h))
Clean-left (cleans c) h = rw c (omega arith, omega arith, h)
Clean-left (skips c r) h = rw c (omega arith, omega arith, h)

next_step :
    (c : Cleaner) (s : Life)
    → s.cleaner ≡ c
    → s.stop_requested ≡ true
    → ((s.cleaner ≡ absent) ⊎ (s.cleaner ≡ ended)) ⊎ ((t : Life) × Clean s t)
next_step absent s e h = inl (inl e)
next_step ended s e h = inl (inr e)
next_step checking s e h = inr (_, sees_stop e h)
next_step sleeping s e h = inr (_, wakes e)
next_step woken s e h = inr (_, skips e h)
next_step cleaning s e h = inr (_, cleans e)

Ends-within :
    (k most : ℕ) (s : Life)
    → steps_left s.cleaner ≤ k
    → s.rounds + rounds_left s.cleaner ≤ most
    → s.stop_requested ≡ true
    → Ends k most s
Ends-within zero most s l m h = elim (next_step s.cleaner s refl h) [
  | inl e ↦ (e, omega (arith, m))
  | inr (t, x) ↦ absurd (omega (arith, l, (Clean-left x h).0))
]
Ends-within (suc k) most s l m h = elim (next_step s.cleaner s refl h) [
  | inl e ↦ inl (e, omega (arith, m))
  | inr n ↦ inr (
    n,
    λ t x.
        let (a, b, c) = Clean-left x h in
        Ends-within k most t (omega (arith, l, a)) (omega (arith, m, b)) c,
  )
]

bounds : (c : Cleaner) → (steps_left c ≤ 3) × (rounds_left c ≤ 1)
bounds absent = omega arith
bounds ended = omega arith
bounds checking = omega arith
bounds sleeping = omega arith
bounds woken = omega arith
bounds cleaning = omega arith

-- After `request_stop`, the clean-up thread ends within three of its steps, and makes one more
-- round at most.
pub cleaner-Ends : (s : Life) → s.stop_requested ≡ true → Ends 3 (suc s.rounds) s
cleaner-Ends s h =
    let (a, b) = bounds s.cleaner in Ends-within 3 (suc s.rounds) s a (omega (arith, b)) h
