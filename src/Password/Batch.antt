-- ===== src/Password/Batch.antt =====
-- password_generator.cpp, `generate_batch`.
use ip_server.Base.{
  inl, ℕ, zero, suc, ◌≤◌, ◌<◌, ◌≡◌, refl, ap, inr, Bool, false, List, [], ◌∷◌, none, some, All,
  arith, length, inl,
}
use ip_server.Base.Int.{pos, leb_ℤ, pos_part}
use ip_server.Base.Text.{Str}
use ip_server.Password.{
  PasswordConfig, PasswordResult, build_character_sets, validate_config, generate_each,
  generate_batch,
}
use ip_server.Password.Sets.{Within}
use ip_server.Password.Generate.{generate_lem}

module _ {Double : Type 0} (draws : ℕ → ℕ → ℕ → ℕ) (in_range : (j i n : ℕ) → draws j i n ≤ n)
    (shuffles : ℕ → Str → Str)
    (permutes : (j : ℕ) (s : Str)
      → (length (shuffles j s) ≡ length s)
        × ((pool : Str) → Within pool s → Within pool (shuffles j s)))
    (calculate_entropy : ℕ → ℕ → Double) (below : Double → ℕ → Bool) (c : PasswordConfig)
    (valid : validate_config c ≡ none) where
  -- A password of the configured length, of characters of the pool.
  abbrev pub IsGood : PasswordResult Double → Type 0
  IsGood r =
      (length r.password ≡ pos_part c.length) × Within (build_character_sets c).pool r.password

  generate_each_lem :
      (j n : ℕ)
      → (rs : List (PasswordResult Double)) × (generate_each draws shuffles calculate_entropy below
            c j n
          ≡ some (inr rs))
        × (length rs ≡ n)
        × All IsGood rs
  unfolding generate_each
  generate_each_lem j zero = ([], refl, refl, tt)
  generate_each_lem j (suc n) =
      let (r, e, l, w) =
        (generate_lem (draws j) (in_range j) (shuffles j) (permutes j) calculate_entropy below c).0
          valid in
      let (rs, f, k, g) = generate_each_lem (suc j) n in
      (r ∷ rs, rw (e, f) refl, ap suc k, ((l, w), g))

  -- Under the same conditions as for one password, a batch of a positive count has as many
  -- passwords, each of the configured length and of characters of the pool.
  pub generate_batch_lem :
      (n : ℕ)
      → 0 < n
      → (rs : List (PasswordResult Double)) × (generate_batch draws shuffles calculate_entropy below
            c
            (pos n)
          ≡ some (inr rs))
        × (length rs ≡ n)
        × All IsGood rs
  unfolding generate_batch
  generate_batch_lem n h =
      let (rs, e, k, g) = generate_each_lem 0 n in
      let test : leb_ℤ (pos n) (pos 0) ≡ false = ground (arith, h) in (rs, rw test e, k, g)

-- A batch of a positive count fails as its first password does.
module _ {Double : Type 0} (draws : ℕ → ℕ → ℕ → ℕ) (in_range : (j i n : ℕ) → draws j i n ≤ n)
    (shuffles : ℕ → Str → Str)
    (permutes : (j : ℕ) (s : Str)
      → (length (shuffles j s) ≡ length s)
        × ((pool : Str) → Within pool s → Within pool (shuffles j s)))
    (calculate_entropy : ℕ → ℕ → Double) (below : Double → ℕ → Bool) (c : PasswordConfig) where
  pub generate_batch_invalid :
      (n : ℕ) (e : Str)
      → 0 < n
      → validate_config c ≡ some e
      → generate_batch draws shuffles calculate_entropy below c (pos n) ≡ some (inl e)
  unfolding generate_batch generate_each
  generate_batch_invalid zero e h v = elim h [ ]
  generate_batch_invalid (suc n) e h v =
      let q =
        (generate_lem (draws 0) (in_range 0) (shuffles 0) (permutes 0) calculate_entropy below c).1
          e v in
      let test : leb_ℤ (pos (suc n)) (pos 0) ≡ false = ground arith in rw (test, q) refl
