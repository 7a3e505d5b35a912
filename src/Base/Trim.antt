-- ===== src/Base/Trim.antt =====
-- Trimming with `find_first_not_of`, `find_last_not_of` and `substr`, as the program does it for
-- keys and addresses.
use Prim.Native.Nat.{ℕ, suc, ◌+◌, ◌-◌}
use mathlib.Core.Path.{◌≡◌, refl, ap, sym, ◌∙◌}
use mathlib.Core.Logic.{◌⊎◌, inl, inr}
use mathlib.Core.Bool.{true, false, ◌&&◌}
use mathlib.Core.List.{[], ◌∷◌}
use mathlib.Core.Option.{Option, none, some}
use native.Mathlib.Omega.{arith}
use ip_server.Base.Tests.{if◌then◌else◌, Bool-cases, Option-cases, ◌>>=◌}
use ip_server.Base.Lists.{take, drop}
use ip_server.Base.Text.{empty, Str, contains, substr, find_first_not_of, find_last_not_of}

-- What lies between the first and the last character outside `cs`; `none` if there is none.
unfoldable pub trim : Str → Str → Option Str
trim cs s =
    find_first_not_of s cs
    >>= (λ start. find_last_not_of s cs >>= λ end. some (substr s start (end - start + 1)))

-- A reference: the leading blanks go, then the trailing ones.
abbrev pub strip_front : Str → Str → Str
strip_front cs [] = []
strip_front cs (a ∷ s) = if contains a cs then strip_front cs s else a ∷ s

abbrev pub strip_back : Str → Str → Str
strip_back cs [] = []
strip_back cs (a ∷ s) =
    let rest = strip_back cs s in if empty rest && contains a cs then [] else a ∷ rest

abbrev pub strip : Str → Str → Str
strip cs s = strip_back cs (strip_front cs s)

-- A text without characters stands for nothing.
abbrev pub non_empty : Str → Option Str
non_empty s = if empty s then none else some s

module _ (cs : Str) where
  -- The last character that is kept is the end of the text without trailing blanks.
  strip_back_lem :
      (s : Str)
      → ((find_last_not_of s cs ≡ none) × (strip_back cs s ≡ []))
        ⊎ ((e : ℕ) × (find_last_not_of s cs ≡ some e)
            × (take (suc e) s ≡ strip_back cs s)
            × (empty (strip_back cs s) ≡ false))
  strip_back_lem [] = inl (refl, refl)
  strip_back_lem (a ∷ s) = elim (strip_back_lem s) [
    | inl (n, b) ↦ elim (Bool-cases (contains a cs)) [
      | inl h ↦ inl (rw (n, h) refl, rw (b, h) refl)
      | inr h ↦ inr (0, rw (n, h) refl, rw (b, h) refl, rw (b, h) refl)
    ]
    | inr (e, f, t, m) ↦ inr (suc e, rw f refl, rw m (ap (λ r. a ∷ r) t), rw m refl)
  ]

  trim_blank : (a : ℕ) (s : Str) → contains a cs ≡ true → trim cs (a ∷ s) ≡ trim cs s
  unfolding trim
  trim_blank a s h = rw h (elim (Option-cases (find_first_not_of s cs)) [
    | inl f ↦ rw f refl
    | inr (i, f) ↦ rw f (elim (Option-cases (find_last_not_of s cs)) [
      | inl l ↦ rw (l, h) refl
      | inr (e, l) ↦ rw l (ap (λ n. some (take n (drop i s))) (omega arith))
    ])
  ])

  trim_kept :
      (a : ℕ) (s : Str)
      → contains a cs ≡ false
      → trim cs (a ∷ s) ≡ non_empty (strip_back cs (a ∷ s))
  unfolding trim
  trim_kept a s h = elim (strip_back_lem s) [
    | inl (n, b) ↦ rw (h, n, b, h) refl
    | inr (e, f, t, m) ↦
        let n : suc e - 0 + 1 ≡ suc (suc e) = omega arith in
        rw (h, f, m) (ap (λ n. some (take n (a ∷ s))) n ∙ ap (λ r. some (a ∷ r)) t)
  ]

  -- Trimming a text is stripping it of blanks on both sides, when something is left.
  pub trim_lem : (s : Str) → trim cs s ≡ non_empty (strip cs s)
  unfolding trim
  trim_lem [] = refl
  trim_lem (a ∷ s) = elim (Bool-cases (contains a cs)) [
    | inl h ↦ trim_blank a s h ∙ rw h (trim_lem s)
    | inr h ↦
        trim_kept a s h
        ∙ ap (λ b. non_empty (strip_back cs (if b then strip_front cs s else a ∷ s))) (sym h)
  ]
