-- ===== src/Http/Lifecycle/Shutdown.antt =====
-- http_server.cpp, `start` and `cleanup_thread_func`: a request to stop is followed.
use ip_server.Base.{
  ℕ, zero, suc, ◌+◌, ◌≤◌, ◌≡◌, refl, subst, ◌⊎◌, inl, inr, Bool, true, Bool-cases, arith,
}
use ip_server.Http.Lifecycle.{
  Phase, grace, waiting, joining, finishing, returned, Listener, starting, listening, done, Life,
  stop, close, Step, bind_fails, binds, accept_fails, closed, fails_early, grace_over, loop_ends,
  joins, returns,
}

-- `start` has returned.
abbrev pub HasReturned : Life → Type 0
HasReturned s = (b : Bool) × (s.phase ≡ returned b)

-- Some step can be made, and whichever of them are made, `start` returns after at most as many.
abbrev pub Returns : ℕ → Life → Type 0
Returns zero s = HasReturned s
Returns (suc k) s =
    HasReturned s ⊎ (((t : Life) × Step s t) × ((t : Life) → Step s t → Returns k t))

-- A join waits for a server that has been told to stop, or has ended.
abbrev Heard : Phase → Life → Type 0
Heard joining s = (s.listener ≡ done) ⊎ (s.closing ≡ true)
Heard grace s = Unit {0}
Heard waiting s = Unit {0}
Heard (finishing b) s = Unit {0}
Heard (returned b) s = Unit {0}

-- The server thread has come up or failed, and a stop was not lost.
abbrev pub IsUp : Life → Type 0
IsUp s = ((s.listener ≡ listening) ⊎ (s.listener ≡ done)) × Heard s.phase s

abbrev phase_left : Phase → ℕ
phase_left grace = 4
phase_left waiting = 3
phase_left joining = 2
phase_left (finishing b) = 1
phase_left (returned b) = 0

abbrev listener_left : Listener → ℕ
listener_left done = 0
listener_left starting = 1
listener_left listening = 1

-- The steps that are left at most.
abbrev pub left : Life → ℕ
left s = phase_left s.phase + listener_left s.listener

Heard-done : (p : Phase) (s : Life) → s.listener ≡ done → Heard p s
Heard-done grace s e = tt
Heard-done waiting s e = tt
Heard-done joining s e = inl e
Heard-done (finishing b) s e = tt
Heard-done (returned b) s e = tt

closed-Heard :
    (l : Listener) (c : Bool) → (l ≡ listening) ⊎ (l ≡ done) → (l ≡ done) ⊎ (close l c ≡ true)
unfolding close
closed-Heard starting c (inl h) = absurd (cc h)
closed-Heard starting c (inr h) = absurd (cc h)
closed-Heard listening c h = inr refl
closed-Heard done c h = inl refl

not_starting : (l : Listener) → (l ≡ listening) ⊎ (l ≡ done) → ¬ (l ≡ starting)
not_starting l (inl h) e = cc (h, e)
not_starting l (inr h) e = cc (h, e)

Step-IsUp : {s t : Life} → Step s t → IsUp s → IsUp t
unfolding stop
Step-IsUp {s} (bind_fails l) (u, h) = absurd (not_starting s.listener u l)
Step-IsUp {s} (binds l) (u, h) = absurd (not_starting s.listener u l)
Step-IsUp {s} (accept_fails l) (u, h) = (inr refl, Heard-done s.phase _ refl)
Step-IsUp {s} (closed l c) (u, h) = (inr refl, Heard-done s.phase _ refl)
Step-IsUp (fails_early p r) (u, h) = (u, tt)
Step-IsUp (grace_over p r) (u, h) = (u, tt)
Step-IsUp {s} (loop_ends p w) (u, h) = (u, closed-Heard s.listener s.closing u)
Step-IsUp (joins p l) (u, h) = (u, tt)
Step-IsUp (returns b p) (u, h) = (u, tt)

Step-left : {s t : Life} → Step s t → IsUp s → suc (left t) ≤ left s
unfolding stop
Step-left {s} (bind_fails l) (u, h) = absurd (not_starting s.listener u l)
Step-left {s} (binds l) (u, h) = absurd (not_starting s.listener u l)
Step-left (accept_fails l) (u, h) = rw l (omega arith)
Step-left (closed l c) (u, h) = rw l (omega arith)
Step-left (fails_early p r) (u, h) = rw p (omega arith)
Step-left (grace_over p r) (u, h) = rw p (omega arith)
Step-left (loop_ends p w) (u, h) = rw p (omega arith)
Step-left (joins p l) (u, h) = rw p (omega arith)
Step-left (returns b p) (u, h) = rw p (omega arith)

Step-shutdown : {s t : Life} → Step s t → s.shutdown ≡ true → t.shutdown ≡ true
unfolding stop
Step-shutdown (bind_fails l) h = h
Step-shutdown (binds l) h = h
Step-shutdown (accept_fails l) h = h
Step-shutdown (closed l c) h = h
Step-shutdown (fails_early p r) h = h
Step-shutdown (grace_over p r) h = h
Step-shutdown (loop_ends p w) h = h
Step-shutdown (joins p l) h = h
Step-shutdown (returns b p) h = h

-- A step of a state that has not returned.
enabled-Step :
    (p : Phase) (s : Life)
    → s.phase ≡ p
    → IsUp s
    → s.shutdown ≡ true
    → HasReturned s ⊎ ((t : Life) × Step s t)
enabled-Step grace s e u h = elim (Bool-cases s.running) [
  | inl r ↦ inr (_, grace_over e r)
  | inr r ↦ inr (_, fails_early e r)
]
enabled-Step waiting s e u h = inr (_, loop_ends e (inl h))
enabled-Step joining s e (inr l, g) h = inr (_, joins e l)
enabled-Step joining s e (inl l, g) h = elim (subst (λ q. Heard q s) e g) [
  | inl d ↦ inr (_, joins e d)
  | inr c ↦ inr (_, closed l c)
]
enabled-Step (finishing b) s e u h = inr (_, returns b e)
enabled-Step (returned b) s e u h = inl (b, e)

-- Once a shutdown is requested from a server thread that has come up or failed, `start` returns
-- after at most five steps of the main and the server thread, in whatever order they are made.
pub shutdown-Returns : (k : ℕ) (s : Life) → left s ≤ k → IsUp s → s.shutdown ≡ true → Returns k s
shutdown-Returns zero s l u h = elim (enabled-Step s.phase s refl u h) [
  | inl r ↦ r
  | inr (t, x) ↦ absurd (omega (arith, l, Step-left x u))
]
shutdown-Returns (suc k) s l u h = elim (enabled-Step s.phase s refl u h) [
  | inl r ↦ inl r
  | inr n ↦ inr (
    n,
    λ t x.
        shutdown-Returns k t (omega (arith, l, Step-left x u)) (Step-IsUp x u) (Step-shutdown x h),
  )
]
