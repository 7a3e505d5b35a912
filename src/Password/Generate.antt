-- ===== src/Password/Generate.antt =====
-- password_generator.cpp, `generate`: a valid configuration gives a password of its pool.
use ip_server.Base.{
  ℕ, zero, suc, ◌-◌, ◌≤◌, ◌<◌, ◌≡◌, refl, ap, subst, ◌∙◌, inl, inr, Bool, true, false, not, ◌&&◌,
  ◌||◌, List, [], ◌∷◌, none, some, if◌then◌else◌, arith, length, get_elem?, get_elem?_of_lt, set,
  length-set, eq_of_some,
}
use ip_server.Base.Int.{pos, ltb_ℤ, pos_part}
use ip_server.Base.Text.{Str, codes, empty, contains}
use ip_server.Password.{
  PasswordConfig, PasswordResult, build_character_sets, validate_config, pick, place, generate,
  get_strength_rating,
}
use ip_server.Password.Sets.{
  Within, IsCovered, build_character_sets-IsCovered, build_character_sets_pool,
}

get_elem?-contains : (xs : Str) (i c : ℕ) → get_elem? xs i ≡ some c → contains c xs ≡ true
get_elem?-contains [] i c h = cc
get_elem?-contains (x ∷ xs) zero c h = ground (arith, eq_of_some h)
get_elem?-contains (x ∷ xs) (suc i) c h = ground (arith, get_elem?-contains xs i c h)

Within-set :
    (pool xs : Str) (i c : ℕ) → Within pool xs → contains c pool ≡ true → Within pool (set xs i c)
Within-set pool [] i c h k = tt
Within-set pool (x ∷ xs) zero c (h, hs) k = (k, hs)
Within-set pool (x ∷ xs) (suc i) c (h, hs) k = (h, Within-set pool xs i c hs k)

Within-get :
    (pool xs : Str) (i c : ℕ) → Within pool xs → get_elem? xs i ≡ some c → contains c pool ≡ true
Within-get pool [] i c h e = cc
Within-get pool (x ∷ xs) zero c (h, hs) e = subst (λ y. contains y pool ≡ true) (eq_of_some e) h
Within-get pool (x ∷ xs) (suc i) c (h, hs) e = Within-get pool xs i c hs e

positive : (xs : Str) → empty xs ≡ false → 0 < length xs
positive [] h = absurd (cc h)
positive (x ∷ xs) h = omega arith

last_test :
    (a b d : Bool) (x y z : Str)
    → (if a then some x else if b then some y else if d then some z else none) ≡ none
    → d ≡ false
last_test true b d x y z h = absurd (cc h)
last_test false true d x y z h = absurd (cc h)
last_test false false true x y z h = absurd (cc h)
last_test false false false x y z h = refl

some_on : (u l d s : Bool) → (not u && not l && not d && not s) ≡ false → (u || l || d || s) ≡ true
some_on true l d s h = refl
some_on false true d s h = refl
some_on false false true s h = refl
some_on false false false true h = refl
some_on false false false false h = absurd (cc h)

module _ (draw : ℕ → ℕ → ℕ) (in_range : (i n : ℕ) → draw i n ≤ n) where
  -- A character drawn from a set that has one.
  drawn :
      (xs : Str) (i : ℕ)
      → empty xs ≡ false
      → (c : ℕ) × (get_elem? xs (draw i (length xs - 1)) ≡ some c)
  drawn xs i h =
      get_elem?_of_lt xs (draw i (length xs - 1))
        (omega (arith, in_range i (length xs - 1), positive xs h))

  pick_lem :
      (pool : Str) (i n : ℕ)
      → empty pool ≡ false
      → (s : Str) × (pick draw pool i n ≡ some s) × (length s ≡ n) × Within pool s
  unfolding pick
  pick_lem pool i zero h = ([], refl, refl, tt)
  pick_lem pool i (suc n) h =
      let (c, e) = drawn pool i h in
      let (s, q, l, w) = pick_lem pool (suc i) n h in
      (c ∷ s, rw (e, q) refl, ap suc l, (get_elem?-contains pool (draw i (length pool - 1)) c e, w))

  place_lem :
      (pool : Str) (sets : List Str) (i : ℕ) (p : Str)
      → IsCovered pool sets
      → Within pool p
      → (q : Str) × (place draw sets i p ≡ some q) × (length q ≡ length p) × Within pool q
  unfolding place
  place_lem pool [] i p h w = (p, refl, refl, w)
  place_lem pool ([] ∷ sets) i p ((n, v), h) w = absurd (cc n)
  place_lem pool ((x ∷ xs) ∷ sets) i p ((n, v), h) w =
      let (c, e) = drawn (x ∷ xs) (suc i) refl in
      let at_place = draw i (length p - 1) in
      let k = Within-get pool (x ∷ xs) (draw (suc i) (length (x ∷ xs) - 1)) c v e in
      let (q, r, l, z) =
        place_lem pool sets (suc (suc i)) (set p at_place c) h (Within-set pool p at_place c w k) in
      (q, rw e r, l ∙ length-set p at_place c, z)

  module _ (shuffle : Str → Str)
      (permutes : (s : Str)
        → (length (shuffle s) ≡ length s)
          × ((pool : Str) → Within pool s → Within pool (shuffle s))) where
    enabled_some :
        (c : PasswordConfig)
        → validate_config c ≡ none
        → (c.uppercase || c.lowercase || c.digits || c.symbols) ≡ true
    unfolding validate_config
    enabled_some c h = some_on c.uppercase c.lowercase c.digits c.symbols (
        last_test (ltb_ℤ c.length (pos 8)) (ltb_ℤ (pos 128) c.length)
          (not c.uppercase && not c.lowercase && not c.digits && not c.symbols)
          (codes "Password length must be at least 8 characters")
          (codes "Password length must not exceed 128 characters")
          (codes "At least one character type must be enabled") h)

    -- With numbers drawn in their ranges and a shuffle that permutes, a configuration that passes
    -- the validation gives a password of the configured length, with characters of the pool only,
    -- and no exception; any other gives the exception of the validation.
    pub generate_lem :
        {Double : Type 0} (calculate_entropy : ℕ → ℕ → Double) (below : Double → ℕ → Bool)
        (c : PasswordConfig)
        → (validate_config c ≡ none
            → (r : PasswordResult Double) × (generate draw shuffle calculate_entropy below c
                ≡ some (inr r))
              × (length r.password ≡ pos_part c.length)
              × Within (build_character_sets c).pool r.password)
          × ((m : Str)
              → validate_config c ≡ some m
              → generate draw shuffle calculate_entropy below c ≡ some (inl m))
    unfolding generate
    generate_lem calculate_entropy below c = (
      (λ v.
          let sets = build_character_sets c in
          let full = build_character_sets_pool c (enabled_some c v) in
          let (s, e, l, w) = pick_lem sets.pool 0 (pos_part c.length) full in
          let (q, f, k, z) =
            place_lem sets.pool sets.required_chars (pos_part c.length) s
              (build_character_sets-IsCovered c) w in
          let entropy = calculate_entropy (length (shuffle q)) (length sets.pool) in
          let r : PasswordResult _ = record {
            password = shuffle q;
            length = length (shuffle q);
            entropy = entropy;
            strength = get_strength_rating (below entropy);
          } in
          (
            r,
            rw (generate, v, full, e, f) refl,
            (permutes q).0 ∙ k ∙ l,
            (permutes q).1 sets.pool z,
          )),
      λ m v. rw (generate, v) refl,
    )
