-- ===== src/MaxMind/Results.antt =====
-- src/database: the members of the results of the two databases.
use ip_server.Base.{
  ◌≡◌, refl, sym, ap, subst, ◌∙◌, Bool, true, false, List, [], ◌∷◌, ◌++◌, Option, none, some,
}
use ip_server.Base.Text.{Str, codes, str_eq}
use ip_server.Json.{Json, IsLawful, member-set_apart}
use ip_server.MaxMind.{
  Found, no_address, failed, no_entry, entry, open_database, move_from, value_or_false,
  error_object, found_object, found_result, perform_lookup, set_if, asn_members, fill, asn_lookup,
}

module _ (J : Json) where
  -- What a result says of what the library found, with the values of an entry where it has them.
  abbrev pub Says :
      {Entry : Type 0} (text number : Entry → Option J.Value) (text_key number_key : Str)
      → Found Entry
      → J.Object
      → Type 0
  Says text number text_key number_key no_address r =
      J.member (codes "error") r ≡ some (J.of_str (codes "Invalid IP address"))
  Says text number text_key number_key (failed e) r =
      J.member (codes "error") r ≡ some (J.of_str (codes "MaxMind DB lookup error: " ++ e))
  Says text number text_key number_key no_entry r =
      (J.member (codes "error") r ≡ none) × (value_or_false J (codes "found") r ≡ false)
  Says text number text_key number_key (entry e) r =
      (J.member (codes "error") r ≡ none)
      × (value_or_false J (codes "found") r ≡ true)
      × (J.member text_key r ≡ text e)
      × (J.member number_key r ≡ number e)

module _ {J : Json} (L : IsLawful J) where
  pub found_object-members :
      (b : Bool) (ip k : Str)
      → str_eq (codes "found") k ≡ false
      → str_eq (codes "ip") k ≡ false
      → J.member k (found_object J b ip) ≡ none
  unfolding found_object
  found_object-members b ip k f i =
      member-set_apart L (codes "found") k (J.of_bool b) _ f
      ∙ member-set_apart L (codes "ip") k (J.of_str ip) J.no_members i
      ∙ L.member-no_members k

  pub found_object-found :
      (b : Bool) (ip : Str) → J.member (codes "found") (found_object J b ip) ≡ some (J.of_bool b)
  unfolding found_object
  found_object-found b ip = L.member-set_self (codes "found") (J.of_bool b) _

  pub error_object-error :
      (m ip : Str) → J.member (codes "error") (error_object J m ip) ≡ some (J.of_str m)
  unfolding error_object
  error_object-error m ip =
      member-set_apart L (codes "ip") (codes "error") (J.of_str ip) _ refl
      ∙ L.member-set_self (codes "error") (J.of_str m) J.no_members

  -- A conditional member says nothing of another, and is there if it has a value.
  pub set_if_apart :
      (k l : Str) (v : Option J.Value) (j : J.Object)
      → str_eq k l ≡ false
      → J.member l (set_if J k v j) ≡ J.member l j
  unfolding set_if
  set_if_apart k l none j h = refl
  set_if_apart k l (some v) j h = member-set_apart L k l v j h

  pub set_if_self :
      (k : Str) (v : Option J.Value) (j : J.Object)
      → J.member k j ≡ none
      → J.member k (set_if J k v j) ≡ v
  unfolding set_if
  set_if_self k none j h = h
  set_if_self k (some v) j h = L.member-set_self k v j

  pub value_or_false-found :
      (b : Bool) (r : J.Object)
      → J.member (codes "found") r ≡ some (J.of_bool b)
      → value_or_false J (codes "found") r ≡ b
  unfolding value_or_false
  value_or_false-found b r h = rw (value_or_false, h, L.as_bool-of_bool b) refl

  module _ {Entry : Type 0} (text_at number_at : Entry → List Str → Option J.Value) where
    module _ (add : Entry → J.Object → J.Object) (r : J.Object) where
      pub fill-error :
          (e : Option Entry) (v : J.Value)
          → J.member (codes "error") r ≡ some v
          → fill J text_at number_at add (r, e) ≡ r
      unfolding fill
      fill-error e v h = rw (fill, h) refl

      pub fill-missing :
          (e : Option Entry)
          → J.member (codes "error") r ≡ none
          → value_or_false J (codes "found") r ≡ false
          → fill J text_at number_at add (r, e) ≡ r
      unfolding fill
      fill-missing e h f = rw (fill, h, f) refl

      pub fill-entry :
          (e : Entry)
          → J.member (codes "error") r ≡ none
          → value_or_false J (codes "found") r ≡ true
          → fill J text_at number_at add (r, some e) ≡ add e r
      unfolding fill
      fill-entry e h f = rw (fill, h, f) refl

    abbrev organization : Entry → Option J.Value
    organization e = text_at e (codes "autonomous_system_organization" ∷ [])

    abbrev as_number : Entry → Option J.Value
    as_number e = number_at e (codes "autonomous_system_number" ∷ [])

    abbrev pub AsnSays : Found Entry → J.Object → Type 0
    AsnSays = Says J organization as_number (codes "as_organization") (codes "as_number")

    asn_members-Says :
        (ip : Str) (e : Entry)
        → AsnSays (entry e) (asn_members J text_at number_at e (found_object J true ip))
    unfolding asn_members
    asn_members-Says ip e =
        let r = found_object J true ip in
        let o = organization e in
        let n = as_number e in
        let r1 = set_if J (codes "as_organization") o r in
        let both =
          λ (k : Str) (a : str_eq (codes "as_number") k ≡ false)
              (b : str_eq (codes "as_organization") k ≡ false).
            set_if_apart (codes "as_number") k n r1 a
            ∙ set_if_apart (codes "as_organization") k o r b in
        (
          both (codes "error") refl refl ∙ found_object-members true ip (codes "error") refl refl,
          value_or_false-found true _ (both (codes "found") refl refl ∙ found_object-found true ip),
          set_if_apart (codes "as_number") (codes "as_organization") n r1 refl
              ∙ set_if_self (codes "as_organization") o r
                  (found_object-members true ip (codes "as_organization") refl refl),
          set_if_self (codes "as_number") n r1 (
              set_if_apart (codes "as_organization") (codes "as_number") o r refl
              ∙ found_object-members true ip (codes "as_number") refl refl),
        )

    asn_fill :
        (ip : Str) (f : Found Entry)
        → AsnSays f
            (fill J text_at number_at (asn_members J text_at number_at) (found_result J ip f))
    unfolding found_result
    asn_fill ip no_address =
        let h = error_object-error (codes "Invalid IP address") ip in
        subst (AsnSays no_address) (sym (fill-error (asn_members J text_at number_at) _ none _ h)) h
    asn_fill ip (failed e) =
        let h = error_object-error (codes "MaxMind DB lookup error: " ++ e) ip in
        subst (AsnSays (failed e)) (sym (fill-error (asn_members J text_at number_at) _ none _ h)) h
    asn_fill ip no_entry =
        let h = found_object-members false ip (codes "error") refl refl in
        let f = value_or_false-found false _ (found_object-found false ip) in
        subst (AsnSays no_entry) (sym (fill-missing (asn_members J text_at number_at) _ none h f))
          (h, f)
    asn_fill ip (entry e) =
        let h = found_object-members true ip (codes "error") refl refl in
        let f = value_or_false-found true _ (found_object-found true ip) in
        subst (AsnSays (entry e)) (sym (fill-entry (asn_members J text_at number_at) _ e h f))
          (asn_members-Says ip e)

    -- An ASN lookup in an open database is defined. Its result has the error of the library if
    -- there is one, `found` false if there is no entry, and `found` true and the two values of
    -- the entry, where it has them, otherwise. A database that was moved from gives an error.
    pub asn_lookup_lem :
        {Db : Type 0} (find : Db → Str → Found Entry) (db : Db) (ip : Str)
        → ((r : J.Object) × (asn_lookup J text_at number_at find (open_database db) ip ≡ some r)
            × AsnSays (find db ip) r)
          × ((r : J.Object) × (asn_lookup J text_at number_at find
                  (move_from (open_database db)).1
                  ip
                ≡ some r)
              × (J.member (codes "error") r ≡ some (J.of_str (codes "Database not open"))))
    unfolding asn_lookup perform_lookup open_database move_from
    asn_lookup_lem find db ip =
        let h = error_object-error (codes "Database not open") ip in
        (
          (
            fill J text_at number_at (asn_members J text_at number_at)
                (found_result J ip (find db ip)),
            refl,
            asn_fill ip (find db ip),
          ),
          (
            error_object J (codes "Database not open") ip,
            ap some (fill-error (asn_members J text_at number_at) _ none _ h),
            h,
          ),
        )
