-- ===== src/Password.antt =====
-- src/password_generator.cpp. The random generator is a parameter: `draw i n` is the i-th number
-- drawn, from 0 to n. So are `std::shuffle` and the entropy of a length and a pool size, a
-- floating-point number that is compared with bounds. A character out of range is undefined behaviour, `none`.
pub mod Sets
pub mod Accepts
pub mod Generate
pub mod Batch
pub mod Similar
use ip_server.Base.{
  ℕ, zero, suc, ◌-◌, Bool, true, false, not, ◌&&◌, ◌||◌, List, [], ◌∷◌, ◌++◌, Option, none, some,
  if◌then◌else◌, ◌>>=◌, length, keep, get_elem?, set, ◌==◌, ◌⊎◌, inl, inr,
}
use ip_server.Base.Int.{ℤ, pos, ltb_ℤ, leb_ℤ, pos_part}
use ip_server.Base.Text.{Str, codes, empty}

pub record PasswordConfig : Type 0 where
  pub length : ℤ
  pub uppercase : Bool
  pub lowercase : Bool
  pub digits : Bool
  pub symbols : Bool
  pub exclude_similar : Bool

pub record CharacterSets : Type 0 where
  pub pool : Str
  pub required_chars : List Str

abbrev pub uppercase_chars : Str
uppercase_chars = codes "ABCDEFGHIJKLMNOPQRSTUVWXYZ"

abbrev pub lowercase_chars : Str
lowercase_chars = codes "abcdefghijklmnopqrstuvwxyz"

abbrev pub digit_chars : Str
digit_chars = codes "0123456789"

abbrev pub symbol_chars : Str
symbol_chars = codes "!@#$%^&*()_+-=[]{}|;:,.<>?"

-- The erase-remove of each confusing character.
unfoldable pub remove_all : Str → Str → Str
remove_all [] chars = chars
remove_all (c ∷ confusing) chars = remove_all confusing (keep (λ a. not (a == c)) chars)

-- The characters that a call of `addSet` filters.
unfoldable pub filtered : Bool → Option Str → Str → Str
filtered exclude none chars = chars
filtered exclude (some confusing) chars = if exclude then remove_all confusing chars else chars

unfoldable pub add_chars : Str → CharacterSets → CharacterSets
add_chars chars s = record {
  pool = s.pool ++ chars;
  required_chars = if empty chars then s.required_chars else s.required_chars ++ chars ∷ [];
}

unfoldable pub add_set : Bool → Str → Option Str → Bool → CharacterSets → CharacterSets
add_set exclude chars confusing enabled s =
    if not enabled then s else add_chars (filtered exclude confusing chars) s

unfoldable pub build_character_sets : PasswordConfig → CharacterSets
build_character_sets c =
    let add = add_set c.exclude_similar in
    add symbol_chars none c.symbols (
      add digit_chars (some (codes "01")) c.digits (
        add lowercase_chars (some (codes "ilo")) c.lowercase (
          add uppercase_chars (some (codes "IO")) c.uppercase
            (record { pool = []; required_chars = [] }))))

-- The error message, or none.
unfoldable pub validate_config : PasswordConfig → Option Str
validate_config c =
    if ltb_ℤ c.length (pos 8)
    then some (codes "Password length must be at least 8 characters")
    else if ltb_ℤ (pos 128) c.length
    then some (codes "Password length must not exceed 128 characters")
    else if not c.uppercase && not c.lowercase && not c.digits && not c.symbols
    then some (codes "At least one character type must be enabled")
    else none

-- `below n` tells whether the entropy is less than `n`.
unfoldable pub get_strength_rating : (ℕ → Bool) → Str
get_strength_rating below =
    if below 28
    then codes "very_weak"
    else if below 36
    then codes "weak"
    else if below 60
    then codes "fair"
    else if below 80
    then codes "strong"
    else codes "very_strong"

pub record PasswordResult (Double : Type 0) : Type 0 where
  pub password : Str
  pub length : ℕ
  pub entropy : Double
  pub strength : Str

module _ (draw : ℕ → ℕ → ℕ) where
  -- The first loop, from the i-th draw on: `n` characters of the pool.
  unfoldable pub pick : Str → ℕ → ℕ → Option Str
  pick pool i zero = some []
  pick pool i (suc n) = do
    c ← get_elem? pool (draw i (length pool - 1))
    rest ← pick pool (suc i) n
    some (c ∷ rest)

  -- The loop over the required sets, two draws for each.
  unfoldable pub place : List Str → ℕ → Str → Option Str
  place [] i password = some password
  place ([] ∷ sets) i password = place sets i password
  place ((c ∷ cs) ∷ sets) i password =
      let place_at = draw i (length password - 1) in
      (get_elem? (c ∷ cs) (draw (suc i) (length (c ∷ cs) - 1)) >>= λ d.
      place sets (suc (suc i)) (set password place_at d))

  -- An exception, or the result.
  unfoldable pub generate :
      {Double : Type 0}
      → (Str → Str)
      → (ℕ → ℕ → Double)
      → (Double → ℕ → Bool)
      → PasswordConfig
      → Option (Str ⊎ PasswordResult Double)
  generate shuffle calculate_entropy below c = elim (validate_config c) [
    | some message ↦ some (inl message)
    | none ↦
        let sets = build_character_sets c in
        let n = pos_part c.length in
        if empty sets.pool then some (inl (codes "Character pool is empty")) else (do
          drawn ← pick sets.pool 0 n
          placed ← place sets.required_chars n drawn
          let password = shuffle placed
          let entropy = calculate_entropy (length password) (length sets.pool)
          some (
              inr (record {
                password = password;
                length = length password;
                entropy = entropy;
                strength = get_strength_rating (below entropy);
              })))
  ]

-- The batch; the j-th password has its own draws and shuffle.
module _ {Double : Type 0} (draws : ℕ → ℕ → ℕ → ℕ) (shuffles : ℕ → Str → Str)
    (calculate_entropy : ℕ → ℕ → Double) (below : Double → ℕ → Bool) (c : PasswordConfig) where
  -- The loop, from the j-th password on: it stops at an exception.
  unfoldable pub generate_each : ℕ → ℕ → Option (Str ⊎ List (PasswordResult Double))
  generate_each j zero = some (inr [])
  generate_each j (suc n) = do
    first ← generate (draws j) (shuffles j) calculate_entropy below c
    elim first [
      | inl message ↦ some (inl message)
      | inr result ↦ do
        rest ← generate_each (suc j) n
        some (elim rest [ inl message ↦ inl message | inr results ↦ inr (result ∷ results) ])
    ]

  unfoldable pub generate_batch : ℤ → Option (Str ⊎ List (PasswordResult Double))
  generate_batch count =
      if leb_ℤ count (pos 0)
      then some (inl (codes "Count must be positive"))
      else generate_each 0 (pos_part count)
