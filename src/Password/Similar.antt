-- ===== src/Password/Similar.antt =====
-- password_generator.cpp: which characters a password may have, by the options.
use ip_server.Base.{
  both, ℕ_discrete, ==_apart, ℕ, ◌≡◌, refl, sym, ap, subst, ◌∙◌, Bool, true, false, not, ◌&&◌, ◌||◌,
  [], ◌∷◌, ◌++◌, Option, none, some, all, keep, ◌==◌, if◌then◌else◌, All, length, arith, inr, ◌≤◌,
}
use ip_server.Base.Int.{pos_part}
use ip_server.Base.Text.{Str, codes, contains}
use ip_server.Password.{
  PasswordConfig, PasswordResult, CharacterSets, add_chars, add_set, filtered, remove_all,
  build_character_sets, generate, uppercase_chars, lowercase_chars, digit_chars, symbol_chars,
}
use ip_server.Password.Accepts.{IsAcceptable, validate_config_iff}
use ip_server.Password.Generate.{generate_lem}
use ip_server.Password.Sets.{Within}

-- The characters that README.md calls easily confused.
abbrev pub similar : Str
similar = codes "IOilo01"

-- A character of a kind that is on, and not a similar one if these are excluded.
abbrev pub may_have : PasswordConfig → ℕ → Bool
may_have c a =
    (c.uppercase && contains a uppercase_chars
      || c.lowercase && contains a lowercase_chars
      || c.digits && contains a digit_chars
      || c.symbols && contains a symbol_chars)
    && not (c.exclude_similar && contains a similar)

contains-append : (a : ℕ) (xs ys : Str) → contains a (xs ++ ys) ≡ (contains a xs || contains a ys)
contains-append a [] ys = refl
contains-append a (x ∷ xs) ys = ground (arith, contains-append a xs ys)

contains-keep :
    (a c : ℕ) (xs : Str)
    → contains a (keep (λ b. not (b == c)) xs) ≡ (contains a xs && not (a == c))
contains-keep a c [] = refl
contains-keep a c (x ∷ xs) = ground (arith, contains-keep a c xs)

contains-remove_all :
    (a : ℕ) (confusing xs : Str)
    → contains a (remove_all confusing xs) ≡ (contains a xs && not (contains a confusing))
unfolding remove_all
contains-remove_all a [] xs = ground arith
contains-remove_all a (c ∷ confusing) xs =
    ground
      (arith, contains-remove_all a confusing (keep (λ b. not (b == c)) xs), contains-keep a c xs)

-- A test that holds on a whole set holds for its characters.
all-contains :
    (p : ℕ → Bool) (a : ℕ) (xs : Str) → all p xs ≡ true → contains a xs ≡ true → p a ≡ true
all-contains p a [] h k = absurd (cc k)
all-contains p a (x ∷ xs) h k =
    let (here, there) = both (p x) (all p xs) h in
    elim (ℕ_discrete x a) [
      | yes q ↦ subst (λ y. p y ≡ true) q here
      | no n ↦
          all-contains p a xs there (subst (λ b. (b || contains a xs) ≡ true) (==_apart x a n) k)
    ]

-- In a set the confusing characters are the similar ones.
abbrev agrees : Str → ℕ → Bool
agrees confusing a = if contains a confusing then contains a similar else not (contains a similar)

same_rest :
    (b c s : Bool) → (b ≡ true → (if c then s else not s) ≡ true) → (b && not c) ≡ (b && not s)
same_rest false c s h = refl
same_rest true c s h = ground (arith, h refl)

contains-filtered :
    (e : Bool) (a : ℕ) (confusing chars : Str)
    → all (agrees confusing) chars ≡ true
    → contains a (filtered e (some confusing) chars)
      ≡ (contains a chars && not (e && contains a similar))
unfolding filtered
contains-filtered false a confusing chars h = ground arith
contains-filtered true a confusing chars h =
    contains-remove_all a confusing chars
    ∙ same_rest (contains a chars) (contains a confusing) (contains a similar)
        (all-contains (agrees confusing) a chars h)

contains-plain :
    (e : Bool) (a : ℕ) (chars : Str)
    → all (agrees []) chars ≡ true
    → contains a (filtered e none chars) ≡ (contains a chars && not (e && contains a similar))
unfolding filtered
contains-plain false a chars h = ground arith
contains-plain true a chars h =
    plain_bool (contains a chars)
    ∙ same_rest (contains a chars) false (contains a similar) (all-contains (agrees []) a chars h)
  where
    plain_bool : (b : Bool) → b ≡ (b && true)
    plain_bool b = ground arith

contains-add_set :
    (e on b : Bool) (a : ℕ) (chars : Str) (confusing : Option Str) (s : CharacterSets)
    → contains a (filtered e confusing chars) ≡ (contains a chars && not (e && contains a similar))
    → contains a s.pool ≡ b
    → contains a (add_set e chars confusing on s).pool
      ≡ (b || ((on && contains a chars) && not (e && contains a similar)))
unfolding add_set add_chars
contains-add_set e false b a chars confusing s h k = k ∙ or_false b
  where
    or_false : (b : Bool) → b ≡ (b || false)
    or_false b = ground arith
contains-add_set e true b a chars confusing s h k =
    contains-append a s.pool (filtered e confusing chars)
    ∙ ap (λ x. contains a s.pool || x) h
    ∙ ap (λ x. x || contains a chars && not (e && contains a similar)) k

gathered :
    (u l d y n : Bool)
    → ((((false || u && n) || l && n) || d && n) || y && n) ≡ ((u || l || d || y) && n)
gathered u l d y n = ground arith

-- The pool has the characters that a password may have, and no others.
build_character_sets-may_have :
    (c : PasswordConfig) (a : ℕ) → contains a (build_character_sets c).pool ≡ may_have c a
unfolding build_character_sets
build_character_sets-may_have c a =
    let e = c.exclude_similar in
    contains-add_set e c.symbols _ a symbol_chars none _ (contains-plain e a symbol_chars refl) (
      contains-add_set e c.digits _ a digit_chars (some (codes "01")) _
        (contains-filtered e a (codes "01") digit_chars refl)
        (contains-add_set e c.lowercase _ a lowercase_chars (some (codes "ilo")) _
          (contains-filtered e a (codes "ilo") lowercase_chars refl)
          (contains-add_set e c.uppercase false a uppercase_chars (some (codes "IO")) _
            (contains-filtered e a (codes "IO") uppercase_chars refl) refl)))
    ∙ gathered (c.uppercase && contains a uppercase_chars)
        (c.lowercase && contains a lowercase_chars) (c.digits && contains a digit_chars)
        (c.symbols && contains a symbol_chars) (not (e && contains a similar))

Within-All :
    (c : PasswordConfig) (xs : Str)
    → Within (build_character_sets c).pool xs
    → All (λ a. may_have c a ≡ true) xs
Within-All c [] h = tt
Within-All c (x ∷ xs) (h, hs) = (sym (build_character_sets-may_have c x) ∙ h, Within-All c xs hs)

module _ (draw : ℕ → ℕ → ℕ) (in_range : (i n : ℕ) → draw i n ≤ n) (shuffle : Str → Str)
    (permutes : (s : Str)
      → (length (shuffle s) ≡ length s)
        × ((pool : Str) → Within pool s → Within pool (shuffle s))) where
  -- With numbers drawn in their ranges and a shuffle that permutes, an acceptable configuration
  -- gives a password of its length, every character of which is of a kind that is on, and none of
  -- which is one of I, O, i, l, o, 0, 1 when similar characters are excluded. The characters that
  -- it may have are those of the pool.
  pub generate-may_have :
      {Double : Type 0} (calculate_entropy : ℕ → ℕ → Double) (below : Double → ℕ → Bool)
      (c : PasswordConfig)
      → IsAcceptable c
      → (r : PasswordResult Double) × (generate draw shuffle calculate_entropy below c
          ≡ some (inr r))
        × (length r.password ≡ pos_part c.length)
        × All (λ a. may_have c a ≡ true) r.password
        × ((a : ℕ) → contains a (build_character_sets c).pool ≡ may_have c a)
  generate-may_have calculate_entropy below c h =
      let (r, e, l, w) =
        (generate_lem draw in_range shuffle permutes calculate_entropy below c).0
          ((validate_config_iff c).1 h) in
      (r, e, l, Within-All c r.password w, build_character_sets-may_have c)
