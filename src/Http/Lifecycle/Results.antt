-- ===== src/Http/Lifecycle/Results.antt =====
-- http_server.cpp, `start`: what its result says.
use ip_server.Base.{◌≡◌, refl, subst, ◌∙◌, ◌⊎◌, inl, inr, Bool, true, false}
use ip_server.Http.Lifecycle.{
  Phase, grace, waiting, joining, finishing, returned, done, Life, stop, close, Step, bind_fails,
  binds, accept_fails, closed, fails_early, grace_over, loop_ends, joins, returns, Clean, sees_stop,
  sleeps, wakes, begins, cleans, skips, Outside, signals, stops, Reach, here, steps, cleaner_steps,
  outside, init,
}

-- A result true is that of a server that was shut down on request, false one of a `listen` that failed.
abbrev pub IsResult : Bool → Life → Type 0
IsResult true s = (s.shutdown ≡ true) × (s.running ≡ true) × (s.listener ≡ done)
IsResult false s = (s.running ≡ false) × (s.listener ≡ done)

abbrev Told : Phase → Life → Type 0
Told grace s = Unit {0}
Told waiting s = Unit {0}
Told joining s = (s.shutdown ≡ true) ⊎ (s.running ≡ false)
Told (finishing b) s = IsResult b s
Told (returned b) s = IsResult b s

-- The flag falls only with the end of the server thread.
abbrev pub Sound : Life → Type 0
Sound s = (s.running ≡ false → s.listener ≡ done) × Told s.phase s

Told-at : (p : Phase) (s : Life) → s.phase ≡ p → Told s.phase s → Told p s
Told-at p s e h = subst (λ q. Told q s) e h

IsResult-same :
    (b : Bool) (s t : Life)
    → t.shutdown ≡ s.shutdown
    → t.running ≡ s.running
    → t.listener ≡ s.listener
    → IsResult b s
    → IsResult b t
IsResult-same true s t k m l (x, y, z) = (k ∙ x, m ∙ y, l ∙ z)
IsResult-same false s t k m l (y, z) = (m ∙ y, l ∙ z)

Told-same :
    (p : Phase) (s t : Life)
    → t.shutdown ≡ s.shutdown
    → t.running ≡ s.running
    → t.listener ≡ s.listener
    → Told p s
    → Told p t
Told-same grace s t k m l h = tt
Told-same waiting s t k m l h = tt
Told-same joining s t k m l (inl h) = inl (k ∙ h)
Told-same joining s t k m l (inr h) = inr (m ∙ h)
Told-same (finishing b) s t k m l h = IsResult-same b s t k m l h
Told-same (returned b) s t k m l h = IsResult-same b s t k m l h

-- While the server thread is busy, the main thread is not past the join.
busy :
    (p : Phase) (s t : Life)
    → ¬ (s.listener ≡ done)
    → t.shutdown ≡ s.shutdown
    → (s.running ≡ false → t.running ≡ false)
    → Told p s
    → Told p t
busy grace s t n k m h = tt
busy waiting s t n k m h = tt
busy joining s t n k m (inl h) = inl (k ∙ h)
busy joining s t n k m (inr h) = inr (m h)
busy (finishing true) s t n k m h = absurd (n h.2)
busy (finishing false) s t n k m h = absurd (n h.1)
busy (returned true) s t n k m h = absurd (n h.2)
busy (returned false) s t n k m h = absurd (n h.1)

result : (b : Bool) (s : Life) → s.running ≡ b → s.listener ≡ done → Told joining s → IsResult b s
result true s e l (inl h) = (h, e, l)
result true s e l (inr h) = absurd (cc (e, h))
result false s e l h = (e, l)

Step-Sound : {s t : Life} → Step s t → Sound s → Sound t
unfolding stop close
Step-Sound {s} (bind_fails l) (d, h) =
    ((λ e. refl), busy s.phase s _ (λ e. cc (e, l)) refl (λ e. refl) h)
Step-Sound {s} (binds l) (d, h) =
    ((λ e. absurd (cc (d e, l))), busy s.phase s _ (λ e. cc (e, l)) refl (λ e. e) h)
Step-Sound {s} (accept_fails l) (d, h) =
    ((λ e. refl), busy s.phase s _ (λ e. cc (e, l)) refl (λ e. refl) h)
Step-Sound {s} (closed l c) (d, h) =
    ((λ e. refl), busy s.phase s _ (λ e. cc (e, l)) refl (λ e. absurd (cc (d e, l))) h)
Step-Sound {s} (fails_early p r) (d, h) = (d, (r, d r))
Step-Sound {s} (grace_over p r) (d, h) = (d, tt)
Step-Sound {s} (loop_ends p w) (d, h) = (d, w)
Step-Sound {s} (joins p l) (d, h) = (d, result s.running _ refl l (Told-at joining s p h))
Step-Sound {s} (returns b p) (d, h) =
    (d, IsResult-same b s _ refl refl refl (Told-at (finishing b) s p h))

-- What is outside, and the clean-up thread, keep what a phase says.
signalled : (p : Phase) (s : Life) → Told p s → Told p (record s { shutdown = true })
signalled grace s h = tt
signalled waiting s h = tt
signalled joining s h = inl refl
signalled (finishing true) s h = (refl, h.1, h.2)
signalled (finishing false) s h = h
signalled (returned true) s h = (refl, h.1, h.2)
signalled (returned false) s h = h

Outside-Sound : {s t : Life} → Outside s t → Sound s → Sound t
unfolding stop
Outside-Sound {s} signals (d, h) = (d, signalled s.phase s h)
Outside-Sound {s} stops (d, h) = (d, Told-same s.phase s _ refl refl refl h)

Clean-Sound : {s t : Life} → Clean s t → Sound s → Sound t
Clean-Sound {s} (sees_stop c r) (d, h) = (d, Told-same s.phase s _ refl refl refl h)
Clean-Sound {s} (sleeps c r) (d, h) = (d, Told-same s.phase s _ refl refl refl h)
Clean-Sound {s} (wakes c) (d, h) = (d, Told-same s.phase s _ refl refl refl h)
Clean-Sound {s} (begins c r) (d, h) = (d, Told-same s.phase s _ refl refl refl h)
Clean-Sound {s} (cleans c) (d, h) = (d, Told-same s.phase s _ refl refl refl h)
Clean-Sound {s} (skips c r) (d, h) = (d, Told-same s.phase s _ refl refl refl h)

Reach-Sound : {s t : Life} → Reach s t → Sound s → Sound t
Reach-Sound here h = h
Reach-Sound (steps r x) h = Step-Sound x (Reach-Sound r h)
Reach-Sound (cleaner_steps r x) h = Clean-Sound x (Reach-Sound r h)
Reach-Sound (outside r x) h = Outside-Sound x (Reach-Sound r h)

init-Sound : (limits shutdown : Bool) → Sound (init limits shutdown)
unfolding init
init-Sound limits shutdown = ((λ e. absurd (cc e)), tt)

-- However the threads and what is outside take turns: when `start` has returned true, a shutdown
-- was requested and `listen` had returned true; when it has returned false, `listen` had returned
-- false. The server thread has ended in both cases.
pub start_result :
    (limits shutdown : Bool) {t : Life} (b : Bool)
    → Reach (init limits shutdown) t
    → t.phase ≡ returned b
    → IsResult b t
start_result limits shutdown {t} b r e =
    Told-at (returned b) t e (Reach-Sound r (init-Sound limits shutdown)).1
