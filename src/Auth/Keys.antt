-- ===== src/Auth/Keys.antt =====
-- auth.cpp, `APIAuth`: which keys are valid.
use ip_server.Base.{
  subst, ℕ, suc, ◌+◌, ◌≤◌, ◌≡◌, refl, ap, sym, ◌∙◌, inl, inr, Bool, true, false, not, ◌&&◌, ◌||◌,
  List, [], ◌∷◌, none, some, arith, length, Bool-cases, Option-cases,
}
use ip_server.Base.Text.{Str, str_eq, str_eq_iff, empty}
use ip_server.Auth.{
  ApiAuth, member, insert, key_of_line, key_count, sha256_hash, add_key, is_valid, load_lines,
  load_keys_from_file,
}

-- No hash comes twice.
abbrev pub Distinct : List Str → Type 0
Distinct [] = Unit {0}
Distinct (x ∷ xs) = (member x xs ≡ false) × Distinct xs

member-insert : (h x : Str) (xs : List Str) → member h (insert x xs) ≡ (str_eq x h || member h xs)
unfolding insert member
member-insert h x xs = elim (Bool-cases (member x xs)) [
  | inr m ↦ rw m refl
  | inl m ↦ rw m (elim (Bool-cases (str_eq x h)) [
    | inl e ↦ rw e (subst (λ z. member z xs ≡ true) ((str_eq_iff x h).0 e) m)
    | inr e ↦ rw e refl
  ])
]

insert-Distinct : (x : Str) (xs : List Str) → Distinct xs → Distinct (insert x xs)
unfolding insert
insert-Distinct x xs d = elim (Bool-cases (member x xs)) [ inl m ↦ rw m d | inr m ↦ rw m (m, d) ]

length-insert : (x : Str) (xs : List Str) → length (insert x xs) ≤ suc (length xs)
unfolding insert
length-insert x xs = ground arith

or_false : (b : Bool) → (b || false) ≡ b
or_false true = refl
or_false false = refl

or_comm : (a b : Bool) → (a || b) ≡ (b || a)
or_comm true true = refl
or_comm true false = refl
or_comm false b = sym (or_false b)

or_swap : (a b c : Bool) → ((a || b) || c) ≡ (b || (a || c))
or_swap true true c = refl
or_swap true false c = refl
or_swap false b c = refl

-- The keys on the lines of a file.
abbrev pub keys_of : List Str → List Str
keys_of [] = []
keys_of (line ∷ lines) =
    let rest = keys_of lines in elim (key_of_line line) [ none ↦ rest | some k ↦ k ∷ rest ]

keys_of-none :
    (line : Str) (lines : List Str)
    → key_of_line line ≡ none
    → keys_of (line ∷ lines) ≡ keys_of lines
keys_of-none line lines n = rw (n, keys_of) refl

keys_of-some :
    (line k : Str) (lines : List Str)
    → key_of_line line ≡ some k
    → keys_of (line ∷ lines) ≡ k ∷ keys_of lines
keys_of-some line k lines n = rw (n, keys_of) refl

module _ (sha256 : Str → List ℕ) where
  -- One of the keys has the same digest.
  abbrev pub same_digest : Str → List Str → Bool
  same_digest key [] = false
  same_digest key (k ∷ ks) =
      str_eq (sha256_hash sha256 k) (sha256_hash sha256 key) || same_digest key ks

  -- After a key is added, the valid keys are those from before and, unless the new key is empty,
  -- those with its digest; no hash comes twice, and there is at most one more.
  pub add_key_lem :
      (key other : Str) (a : ApiAuth)
      → Distinct a.api_key_hashes
      → (is_valid sha256 other (add_key sha256 key a) ≡ (
          is_valid sha256 other a
          || (not (empty key)
              && not (empty other)
              && str_eq (sha256_hash sha256 key) (sha256_hash sha256 other))))
        × Distinct (add_key sha256 key a).api_key_hashes
        × (key_count (add_key sha256 key a) ≤ suc (key_count a))
  unfolding add_key is_valid key_count
  add_key_lem [] other a d = (sym (or_false (is_valid sha256 other a)), d, omega arith)
  add_key_lem (c ∷ key) [] a d = (
    refl,
    insert-Distinct (sha256_hash sha256 (c ∷ key)) a.api_key_hashes d,
    length-insert (sha256_hash sha256 (c ∷ key)) a.api_key_hashes,
  )
  add_key_lem (c ∷ key) (c' ∷ other) a d = (
    member-insert (sha256_hash sha256 (c' ∷ other)) (sha256_hash sha256 (c ∷ key)) a.api_key_hashes
        ∙ or_comm (str_eq (sha256_hash sha256 (c ∷ key)) (sha256_hash sha256 (c' ∷ other)))
            (member (sha256_hash sha256 (c' ∷ other)) a.api_key_hashes),
    insert-Distinct (sha256_hash sha256 (c ∷ key)) a.api_key_hashes d,
    length-insert (sha256_hash sha256 (c ∷ key)) a.api_key_hashes,
  )

  load_lines_lem :
      (key : Str) (lines hashes : List Str)
      → Distinct hashes
      → (member (sha256_hash sha256 key) (load_lines sha256 lines hashes)
          ≡ (member (sha256_hash sha256 key) hashes || same_digest key (keys_of lines)))
        × Distinct (load_lines sha256 lines hashes)
        × (length (load_lines sha256 lines hashes) ≤ length hashes + length (keys_of lines))
  unfolding load_lines
  load_lines_lem key [] hashes d =
      (sym (or_false (member (sha256_hash sha256 key) hashes)), d, omega arith)
  load_lines_lem key (line ∷ lines) hashes d = elim (Option-cases (key_of_line line)) [
    | inl n ↦ rw (n, keys_of-none line lines n) (load_lines_lem key lines hashes d)
    | inr (k, n) ↦
        let h = sha256_hash sha256 k in
        let r = load_lines_lem key lines (insert h hashes) (insert-Distinct h hashes d) in
        rw (n, keys_of-some line k lines n)
          (
            r.0
                ∙ ap (λ b. b || same_digest key (keys_of lines))
                    (member-insert (sha256_hash sha256 key) h hashes)
                ∙ or_swap (str_eq h (sha256_hash sha256 key))
                    (member (sha256_hash sha256 key) hashes) (same_digest key (keys_of lines)),
            r.1,
            omega (arith, r.2, length-insert h hashes),
          )
  ]

  -- After a file is loaded, whatever was there before, exactly the keys that are not empty and
  -- have the digest of a key on one of its lines are valid; no hash comes twice, and there are at
  -- most as many as keys. A file that does not open changes nothing.
  pub load_keys_from_file_lem :
      (key : Str) (lines : List Str) (a : ApiAuth)
      → let b = (load_keys_from_file sha256 (some lines) a).0 in
        (is_valid sha256 key b ≡ (not (empty key) && same_digest key (keys_of lines)))
        × Distinct b.api_key_hashes
        × (key_count b ≤ length (keys_of lines))
        × (load_keys_from_file sha256 none a ≡ (a, false))
  unfolding load_keys_from_file is_valid key_count member
  load_keys_from_file_lem [] lines a =
      let r = load_lines_lem [] lines [] tt in (refl, r.1, omega (arith, r.2), refl)
  load_keys_from_file_lem (c ∷ key) lines a =
      let r = load_lines_lem (c ∷ key) lines [] tt in (r.0, r.1, omega (arith, r.2), refl)
