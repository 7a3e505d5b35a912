-- ===== src/RateLimiter/Window.antt =====
-- rate_limiter.cpp, `cleanup_old_timestamps`: what leaves the deque, in terms of the window.
use ip_server.Base.{
  ℕ, ◌-◌, ◌≤◌, ◌≡◌, refl, sym, ap, ◌∙◌, List, [], ◌∷◌, ◌++◌, arith, leb, keep, All, All-append,
}
use ip_server.RateLimiter.{pop_old}

-- Times that do not fall.
abbrev pub Sorted : List ℕ → Type 0
Sorted [] = Unit {0}
Sorted (t ∷ ts) = All (λ u. t ≤ u) ts × Sorted ts

-- The times that lie at most a window before `now`.
abbrev pub recent : ℕ → ℕ → List ℕ → List ℕ
recent window now = keep λ t. leb (now - t) window

recent_within :
    (w now t : ℕ) (ts : List ℕ) → now - t ≤ w → All (λ u. t ≤ u) ts → recent w now ts ≡ ts
recent_within w now t [] h a = refl
recent_within w now t (u ∷ us) h a = ground (arith, recent_within w now t us h a.1)

-- On a deque in order of time, exactly the entries older than the window leave.
pub pop_old-recent : (w now : ℕ) (ts : List ℕ) → Sorted ts → pop_old w now ts ≡ recent w now ts
unfolding pop_old
pop_old-recent w now [] s = refl
pop_old-recent w now (t ∷ ts) s =
    ground (arith, pop_old-recent w now ts s.1, recent_within w now t ts)

-- A second cleaning, later, takes out what it would have taken out alone.
pub pop_old_later :
    (w now later : ℕ) (ts : List ℕ)
    → now ≤ later
    → pop_old w later (pop_old w now ts) ≡ pop_old w later ts
unfolding pop_old
pop_old_later w now later [] h = refl
pop_old_later w now later (t ∷ ts) h = ground (arith, pop_old_later w now later ts h)

-- Cleaning a deque, by what it leaves of a first part.
abbrev pop_rest : ℕ → ℕ → List ℕ → List ℕ → List ℕ
pop_rest w now [] zs = pop_old w now zs
pop_rest w now (t ∷ ts) zs = t ∷ ts ++ zs

pop_old-append_rest :
    (w now : ℕ) (xs zs : List ℕ) → pop_old w now (xs ++ zs) ≡ pop_rest w now (pop_old w now xs) zs
unfolding pop_old
pop_old-append_rest w now [] zs = refl
pop_old-append_rest w now (t ∷ ts) zs = ground (arith, pop_old-append_rest w now ts zs)

-- What cleaning leaves of an extended deque depends only on what it leaves of the deque.
pub pop_old-append :
    (w now : ℕ) (xs ys zs : List ℕ)
    → pop_old w now xs ≡ pop_old w now ys
    → pop_old w now (xs ++ zs) ≡ pop_old w now (ys ++ zs)
pop_old-append w now xs ys zs e =
    pop_old-append_rest w now xs zs
    ∙ ap (λ l. pop_rest w now l zs) e
    ∙ sym (pop_old-append_rest w now ys zs)

pub Sorted-snoc : (ts : List ℕ) (t : ℕ) → Sorted ts → All (λ u. u ≤ t) ts → Sorted (ts ++ t ∷ [])
Sorted-snoc [] t s a = (tt, tt)
Sorted-snoc (u ∷ us) t s a =
    (All-append (λ v. u ≤ v) us (t ∷ []) s.0 (a.0, tt), Sorted-snoc us t s.1 a.1)

pub All-le_trans : (ts : List ℕ) (a b : ℕ) → a ≤ b → All (λ u. u ≤ a) ts → All (λ u. u ≤ b) ts
All-le_trans [] a b h x = tt
All-le_trans (t ∷ ts) a b h x = (omega arith, All-le_trans ts a b h x.1)
