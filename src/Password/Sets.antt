-- ===== src/Password/Sets.antt =====
-- password_generator.cpp, `build_character_sets`: the pool and the sets within it.
use ip_server.Base.{
  ℕ, ◌≡◌, refl, inl, inr, Bool, true, false, ◌||◌, List, [], ◌∷◌, ◌++◌, Option, none, some,
  Bool-cases, All, All-append, arith,
}
use ip_server.Base.Text.{Str, codes, empty, contains}
use ip_server.Password.{
  PasswordConfig, CharacterSets, add_chars, add_set, filtered, remove_all, build_character_sets,
  uppercase_chars, lowercase_chars, digit_chars, symbol_chars,
}

-- Every character of the one is in the other.
abbrev pub Within : Str → Str → Type 0
Within pool xs = All (λ c. contains c pool ≡ true) xs

-- Every required set has a character, and only characters of the pool.
abbrev pub IsCovered : Str → List Str → Type 0
IsCovered pool sets = All (λ xs. (empty xs ≡ false) × Within pool xs) sets

contains-append : (c : ℕ) (xs ys : Str) → contains c xs ≡ true → contains c (xs ++ ys) ≡ true
contains-append c [] ys h = cc
contains-append c (x ∷ xs) ys h = ground (arith, h, contains-append c xs ys)

contains-behind : (c : ℕ) (xs ys : Str) → contains c ys ≡ true → contains c (xs ++ ys) ≡ true
contains-behind c [] ys h = h
contains-behind c (x ∷ xs) ys h = ground (arith, contains-behind c xs ys h)

Within-append : (xs ys zs : Str) → Within xs zs → Within (xs ++ ys) zs
Within-append xs ys [] h = tt
Within-append xs ys (z ∷ zs) (h, hs) = (contains-append z xs ys h, Within-append xs ys zs hs)

Within-behind : (xs ys zs : Str) → Within ys zs → Within (xs ++ ys) zs
Within-behind xs ys [] h = tt
Within-behind xs ys (z ∷ zs) (h, hs) = (contains-behind z xs ys h, Within-behind xs ys zs hs)

Within-self : (xs : Str) → Within xs xs
Within-self [] = tt
Within-self (x ∷ xs) = (ground arith, Within-behind (x ∷ []) xs xs (Within-self xs))

IsCovered-append :
    (pool ys : Str) (sets : List Str) → IsCovered pool sets → IsCovered (pool ++ ys) sets
IsCovered-append pool ys [] h = tt
IsCovered-append pool ys (xs ∷ sets) ((e, w), h) =
    ((e, Within-append pool ys xs w), IsCovered-append pool ys sets h)

add_chars-IsCovered :
    (chars : Str) (s : CharacterSets)
    → IsCovered s.pool s.required_chars
    → IsCovered (add_chars chars s).pool (add_chars chars s).required_chars
unfolding add_chars
add_chars-IsCovered [] s h = IsCovered-append s.pool [] s.required_chars h
add_chars-IsCovered (c ∷ chars) s h =
    All-append (λ xs. (empty xs ≡ false) × Within (s.pool ++ c ∷ chars) xs) s.required_chars
      ((c ∷ chars) ∷ []) (IsCovered-append s.pool (c ∷ chars) s.required_chars h)
      ((refl, Within-behind s.pool (c ∷ chars) (c ∷ chars) (Within-self (c ∷ chars))), tt)

add_set-IsCovered :
    (exclude : Bool) (chars : Str) (confusing : Option Str) (enabled : Bool) (s : CharacterSets)
    → IsCovered s.pool s.required_chars
    → IsCovered
        (add_set exclude chars confusing enabled s).pool
        (add_set exclude chars confusing enabled s).required_chars
unfolding add_set
add_set-IsCovered exclude chars confusing false s h = h
add_set-IsCovered exclude chars confusing true s h =
    add_chars-IsCovered (filtered exclude confusing chars) s h

pub build_character_sets-IsCovered :
    (c : PasswordConfig)
    → IsCovered (build_character_sets c).pool (build_character_sets c).required_chars
unfolding build_character_sets
build_character_sets-IsCovered c =
    let e = c.exclude_similar in
    add_set-IsCovered e symbol_chars none c.symbols _ (
      add_set-IsCovered e digit_chars (some (codes "01")) c.digits _ (
        add_set-IsCovered e lowercase_chars (some (codes "ilo")) c.lowercase _
          (add_set-IsCovered e uppercase_chars (some (codes "IO")) c.uppercase _ tt)))

-- A pool that is not empty stays so, and a set with characters makes it so.
empty-append : (xs ys : Str) → empty xs ≡ false → empty (xs ++ ys) ≡ false
empty-append [] ys h = cc
empty-append (x ∷ xs) ys h = refl

empty-behind : (xs ys : Str) → empty ys ≡ false → empty (xs ++ ys) ≡ false
empty-behind [] ys h = h
empty-behind (x ∷ xs) ys h = refl

add_set_keeps :
    (exclude : Bool) (chars : Str) (confusing : Option Str) (enabled : Bool) (s : CharacterSets)
    → empty s.pool ≡ false
    → empty (add_set exclude chars confusing enabled s).pool ≡ false
unfolding add_set add_chars
add_set_keeps exclude chars confusing false s h = h
add_set_keeps exclude chars confusing true s h =
    empty-append s.pool (filtered exclude confusing chars) h

add_set_fills :
    (exclude : Bool) (chars : Str) (confusing : Option Str) (enabled : Bool) (s : CharacterSets)
    → empty (filtered exclude confusing chars) ≡ false
    → enabled ≡ true
    → empty (add_set exclude chars confusing enabled s).pool ≡ false
unfolding add_set add_chars
add_set_fills exclude chars confusing false s h e = absurd (cc e)
add_set_fills exclude chars confusing true s h e =
    empty-behind s.pool (filtered exclude confusing chars) h

some_left :
    (e : Bool) (chars confusing : Str)
    → empty chars ≡ false
    → empty (remove_all confusing chars) ≡ false
    → empty (filtered e (some confusing) chars) ≡ false
unfolding filtered
some_left true chars confusing h k = k
some_left false chars confusing h k = h

pub build_character_sets_pool :
    (c : PasswordConfig)
    → (c.uppercase || c.lowercase || c.digits || c.symbols) ≡ true
    → empty (build_character_sets c).pool ≡ false
unfolding build_character_sets filtered remove_all
build_character_sets_pool c h =
    let e = c.exclude_similar in
    elim (Bool-cases c.symbols) [
      | inl on ↦ add_set_fills e symbol_chars none c.symbols _ refl on
      | inr s ↦ add_set_keeps e symbol_chars none c.symbols _ (elim (Bool-cases c.digits) [
        | inl on ↦
            add_set_fills e digit_chars (some (codes "01")) c.digits _
              (some_left e digit_chars (codes "01") refl refl) on
        | inr d ↦
            add_set_keeps e digit_chars (some (codes "01")) c.digits _
              (elim (Bool-cases c.lowercase) [
                | inl on ↦
                    add_set_fills e lowercase_chars (some (codes "ilo")) c.lowercase _
                      (some_left e lowercase_chars (codes "ilo") refl refl) on
                | inr l ↦ add_set_keeps e lowercase_chars (some (codes "ilo")) c.lowercase _ (
                    add_set_fills e uppercase_chars (some (codes "IO")) c.uppercase _
                      (some_left e uppercase_chars (codes "IO") refl refl) (upper_on s d l))
              ])
      ])
    ]
  where
    upper_on : c.symbols ≡ false → c.digits ≡ false → c.lowercase ≡ false → c.uppercase ≡ true
    upper_on s d l = ground (arith, h)
