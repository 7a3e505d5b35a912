-- ===== src/MacDatabase/Answers.antt =====
-- mac_database.cpp, `OUIDatabase::lookup`: the members of the result.
use ip_server.Base.{
  sym, arith, true, zero, suc, ◌++◌, subst, eq_of_some, suc, get_elem?, Bool, ℕ, ◌≡◌, refl, ◌∙◌,
  false, List, [], ◌∷◌, Option, none, some, All,
}
use ip_server.Base.Text.{codes, Str, str_eq}
use ip_server.Json.{member-set_same, Json, IsLawful, member-set_apart}
use ip_server.MacDatabase.{
  done, step_failed, oui_columns, row, answer_result, bind_failed, error_result, set_found, Answer,
  set_columns,
}

-- The key is none of these.
abbrev pub Outside : Str → List Str → Type 0
Outside k ks = All (λ l. str_eq l k ≡ false) ks

-- No key comes twice.
abbrev pub Apart : List Str → Type 0
Apart [] = Unit {0}
Apart (k ∷ ks) = Outside k ks × Apart ks

module _ (J : Json) where
  -- The members of a result that is no error.
  abbrev pub Reports : Str → Str → Bool → J.Object → Type 0
  Reports mac oui found r =
      (J.member (codes "error") r ≡ none)
      × (J.member (codes "found") r ≡ some (J.of_bool found))
      × (J.member (codes "oui") r ≡ some (J.of_str oui))
      × (J.member (codes "mac") r ≡ some (J.of_str mac))

  abbrev pub Fails : Str → J.Object → Type 0
  Fails message r =
      (J.member (codes "error") r ≡ some (J.of_str message)) × (J.member (codes "found") r ≡ none)

  -- Each text in the columns is the member of its column's name.
  abbrev pub Columns : List Str → List (Option Str) → J.Object → Type 0
  Columns ks cols r =
      (i : ℕ) (k text : Str)
      → get_elem? ks i ≡ some k
      → get_elem? cols i ≡ some (some text)
      → J.member k r ≡ some (J.of_str text)

  -- What a result says of the answer to the query.
  abbrev pub Answered : Str → Str → Answer → J.Object → Type 0
  Answered mac oui (bind_failed e) r = Fails (codes "Failed to bind parameter: " ++ e) r
  Answered mac oui (row cols) r = Reports mac oui true r × Columns oui_columns cols r
  Answered mac oui done r = Reports mac oui false r
  Answered mac oui (step_failed e) r = Fails (codes "Query failed: " ++ e) r

module _ {J : Json} (L : IsLawful J) where
  member-set_columns-Outside :
      (k : Str) (ks : List Str) (cols : List (Option Str)) (j : J.Object)
      → Outside k ks
      → J.member k (set_columns J ks cols j) ≡ J.member k j
  unfolding set_columns
  member-set_columns-Outside k [] cols j h = refl
  member-set_columns-Outside k (l ∷ ks) [] j h = refl
  member-set_columns-Outside k (l ∷ ks) (none ∷ cols) j (_, h) =
      member-set_columns-Outside k ks cols j h
  member-set_columns-Outside k (l ∷ ks) (some text ∷ cols) j (a, h) =
      member-set_columns-Outside k ks cols (J.set_member l (J.of_str text) j) h
      ∙ member-set_apart L l k (J.of_str text) j a

  Outside-at :
      (x : Str) (ks : List Str) (i : ℕ) (k : Str)
      → Outside x ks
      → get_elem? ks i ≡ some k
      → str_eq k x ≡ false
  Outside-at x [] i k h e = cc
  Outside-at x (l ∷ ks) zero k (a, _) e = subst (λ z. str_eq z x ≡ false) (eq_of_some e) a
  Outside-at x (l ∷ ks) (suc i) k (_, h) e = Outside-at x ks i k h e

  set_columns-Columns :
      (ks : List Str) (cols : List (Option Str)) (j : J.Object)
      → Apart ks
      → Columns J ks cols (set_columns J ks cols j)
  unfolding set_columns
  set_columns-Columns [] cols j h i k text a b = cc
  set_columns-Columns (l ∷ ks) [] j h i k text a b = cc
  set_columns-Columns (l ∷ ks) (none ∷ cols) j h zero k text a b = cc
  set_columns-Columns (l ∷ ks) (some t ∷ cols) j (o, h) zero k text a b =
      let at_key =
        member-set_columns-Outside l ks cols (J.set_member l (J.of_str t) j) o
        ∙ L.member-set_self l (J.of_str t) j in
      cc
  set_columns-Columns (l ∷ ks) (none ∷ cols) j (_, h) (suc i) k text a b =
      set_columns-Columns ks cols j h i k text a b
  set_columns-Columns (l ∷ ks) (some t ∷ cols) j (_, h) (suc i) k text a b =
      set_columns-Columns ks cols (J.set_member l (J.of_str t) j) h i k text a b

  set_found-Reports : (mac oui : Str) (b : Bool) → Reports J mac oui b (set_found J mac oui b)
  unfolding set_found
  set_found-Reports mac oui b =
      let apart = member-set_apart L in
      let f = J.of_bool b in
      let o = J.of_str oui in
      let m = J.of_str mac in
      let j1 = J.set_member (codes "mac") m J.no_members in
      let j2 = J.set_member (codes "oui") o j1 in
      (
        apart (codes "found") (codes "error") f j2 refl
            ∙ apart (codes "oui") (codes "error") o j1 refl
            ∙ apart (codes "mac") (codes "error") m J.no_members refl
            ∙ L.member-no_members (codes "error"),
        L.member-set_self (codes "found") f j2,
        apart (codes "found") (codes "oui") f j2 refl ∙ L.member-set_self (codes "oui") o j1,
        apart (codes "found") (codes "mac") f j2 refl
            ∙ apart (codes "oui") (codes "mac") o j1 refl
            ∙ L.member-set_self (codes "mac") m J.no_members,
      )

  pub error_result-Fails : (m : Str) → Fails J m (error_result J m)
  unfolding error_result
  error_result-Fails m = (
    L.member-set_self (codes "error") (J.of_str m) J.no_members,
    member-set_apart L (codes "error") (codes "found") (J.of_str m) J.no_members refl
        ∙ L.member-no_members (codes "found"),
  )

  columns-Apart : Apart oui_columns
  unfolding oui_columns
  columns-Apart = ground arith

  set_columns-Reports :
      (mac oui : Str) (cols : List (Option Str))
      → Reports J mac oui true (set_columns J oui_columns cols (set_found J mac oui true))
  unfolding oui_columns
  set_columns-Reports mac oui cols =
      let h = set_found-Reports mac oui true in
      (
        same (codes "error") (ground arith) ∙ h.0,
        same (codes "found") (ground arith) ∙ h.1,
        same (codes "oui") (ground arith) ∙ h.2,
        same (codes "mac") (ground arith) ∙ h.3,
      )
    where
      same :
          (k : Str)
          → Outside k oui_columns
          → J.member k (set_columns J oui_columns cols (set_found J mac oui true))
            ≡ J.member k (set_found J mac oui true)
      same k o = member-set_columns-Outside k oui_columns cols (set_found J mac oui true) o

  pub answer_result-Answered :
      (mac oui : Str) (a : Answer) → Answered J mac oui a (answer_result J mac oui a)
  unfolding answer_result
  answer_result-Answered mac oui (bind_failed e) =
      error_result-Fails (codes "Failed to bind parameter: " ++ e)
  answer_result-Answered mac oui (row cols) = (
    set_columns-Reports mac oui cols,
    set_columns-Columns oui_columns cols (set_found J mac oui true) columns-Apart,
  )
  answer_result-Answered mac oui done = set_found-Reports mac oui false
  answer_result-Answered mac oui (step_failed e) = error_result-Fails (codes "Query failed: " ++ e)

  set_found-same :
      (a b oui k : Str) (found : Bool)
      → str_eq (codes "mac") k ≡ false
      → J.member k (set_found J a oui found) ≡ J.member k (set_found J b oui found)
  unfolding set_found
  set_found-same a b oui k found h = member-set_same L (codes "found") k (J.of_bool found) _ _ (
      member-set_same L (codes "oui") k (J.of_str oui) _ _ (
        member-set_apart L (codes "mac") k (J.of_str a) J.no_members h
        ∙ sym (member-set_apart L (codes "mac") k (J.of_str b) J.no_members h)))

  set_columns-same :
      (k : Str) (ks : List Str) (cols : List (Option Str)) (i j : J.Object)
      → J.member k i ≡ J.member k j
      → J.member k (set_columns J ks cols i) ≡ J.member k (set_columns J ks cols j)
  unfolding set_columns
  set_columns-same k [] cols i j h = h
  set_columns-same k (l ∷ ks) [] i j h = h
  set_columns-same k (l ∷ ks) (none ∷ cols) i j h = set_columns-same k ks cols i j h
  set_columns-same k (l ∷ ks) (some text ∷ cols) i j h =
      set_columns-same k ks cols (J.set_member l (J.of_str text) i)
        (J.set_member l (J.of_str text) j) (member-set_same L l k (J.of_str text) i j h)

  pub answer_result-same :
      (a b oui k : Str) (r : Answer)
      → str_eq (codes "mac") k ≡ false
      → J.member k (answer_result J a oui r) ≡ J.member k (answer_result J b oui r)
  unfolding answer_result
  answer_result-same a b oui k (bind_failed e) h = refl
  answer_result-same a b oui k (row cols) h =
      set_columns-same k oui_columns cols (set_found J a oui true) (set_found J b oui true)
        (set_found-same a b oui k true h)
  answer_result-same a b oui k done h = set_found-same a b oui k false h
  answer_result-same a b oui k (step_failed e) h = refl
