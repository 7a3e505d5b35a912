-- ===== src/MaxMind/City.antt =====
-- src/database/city_database.cpp: the members of a result.
use ip_server.Base.{
  both, not, ◌≡◌, refl, sym, ap, subst, ◌∙◌, true, false, List, [], ◌∷◌, ◌++◌, Option, none, some,
}
use ip_server.Base.Text.{Str, codes, str_eq}
use ip_server.Json.{Json, IsLawful}
use ip_server.MaxMind.{
  Found, no_address, failed, no_entry, entry, open_database, move_from, value_or_false,
  error_object, found_object, found_result, perform_lookup, city_members, fill, city_lookup,
}
use ip_server.MaxMind.Results.{
  found_object-members, found_object-found, error_object-error, value_or_false-found, fill-error,
  fill-missing, fill-entry,
}
use ip_server.MaxMind.Fields.{
  not-true, All-all, keys-Without, keys-AreApart, set_fields, HasAll, set_fields_apart,
  set_fields-HasAll,
}

module _ {J : Json} (L : IsLawful J) where
  module _ {Entry : Type 0} (text_at number_at : Entry → List Str → Option J.Value) where
    -- The fields of a city entry, in the order in which they are set.
    abbrev pub city_fields : Entry → List (Str × Option J.Value)
    city_fields e =
        (codes "country", text_at e (codes "country" ∷ codes "names" ∷ codes "en" ∷ []))
        ∷ (codes "country_code", text_at e (codes "country" ∷ codes "iso_code" ∷ []))
        ∷ (codes "city", text_at e (codes "city" ∷ codes "names" ∷ codes "en" ∷ []))
        ∷ (codes "continent", text_at e (codes "continent" ∷ codes "names" ∷ codes "en" ∷ []))
        ∷ (codes "latitude", number_at e (codes "location" ∷ codes "latitude" ∷ []))
        ∷ (codes "longitude", number_at e (codes "location" ∷ codes "longitude" ∷ []))
        ∷ (codes "timezone", text_at e (codes "location" ∷ codes "time_zone" ∷ []))
        ∷ []

    -- What a result says of what the library found.
    abbrev pub CitySays : Found Entry → J.Object → Type 0
    CitySays no_address r =
        J.member (codes "error") r ≡ some (J.of_str (codes "Invalid IP address"))
    CitySays (failed e) r =
        J.member (codes "error") r ≡ some (J.of_str (codes "MaxMind DB lookup error: " ++ e))
    CitySays no_entry r =
        (J.member (codes "error") r ≡ none) × (value_or_false J (codes "found") r ≡ false)
    CitySays (entry e) r =
        (J.member (codes "error") r ≡ none)
        × (value_or_false J (codes "found") r ≡ true)
        × HasAll J (city_fields e) r

    abbrev filled : Str → Entry → J.Object
    filled ip e = set_fields J (city_fields e) (found_object J true ip)

    city_members-filled :
        (ip : Str) (e : Entry)
        → city_members J text_at number_at e (found_object J true ip) ≡ filled ip e
    unfolding city_members
    city_members-filled ip e = refl

    filled-Says : (ip : Str) (e : Entry) → CitySays (entry e) (filled ip e)
    filled-Says ip e =
        let fields = city_fields e in
        let r = found_object J true ip in
        (
          set_fields_apart L (codes "error") fields r (keys-Without J (codes "error") fields refl)
              ∙ found_object-members L true ip (codes "error") refl refl,
          value_or_false-found L true _ (
              set_fields_apart L (codes "found") fields r
                (keys-Without J (codes "found") fields refl)
              ∙ found_object-found L true ip),
          set_fields-HasAll L fields r (keys-AreApart J fields refl) (
              All-all _ (λ (f : Str × Option J.Value). J.member f.0 r ≡ none)
                (λ f h.
                  let (a, b) = both (not (str_eq (codes "found") f.0)) _ h in
                  found_object-members L true ip f.0 (not-true _ a) (not-true _ b))
                fields refl),
        )

    city_fill :
        (ip : Str) (f : Found Entry)
        → CitySays f
            (fill J text_at number_at (city_members J text_at number_at) (found_result J ip f))
    unfolding found_result
    city_fill ip no_address =
        let h = error_object-error L (codes "Invalid IP address") ip in
        subst (CitySays no_address)
          (sym (fill-error L text_at number_at (city_members J text_at number_at) _ none _ h)) h
    city_fill ip (failed e) =
        let h = error_object-error L (codes "MaxMind DB lookup error: " ++ e) ip in
        subst (CitySays (failed e))
          (sym (fill-error L text_at number_at (city_members J text_at number_at) _ none _ h)) h
    city_fill ip no_entry =
        let h = found_object-members L false ip (codes "error") refl refl in
        let f = value_or_false-found L false _ (found_object-found L false ip) in
        subst (CitySays no_entry)
          (sym (fill-missing L text_at number_at (city_members J text_at number_at) _ none h f))
          (h, f)
    city_fill ip (entry e) =
        let h = found_object-members L true ip (codes "error") refl refl in
        let f = value_or_false-found L true _ (found_object-found L true ip) in
        subst (CitySays (entry e))
          (sym (
            fill-entry L text_at number_at (city_members J text_at number_at) _ e h f
            ∙ city_members-filled ip e))
          (filled-Says ip e)

    -- A city lookup in an open database is defined. Its result has the error of the library if
    -- there is one, `found` false if there is no entry, and `found` true and otherwise each of the
    -- seven values of the entry under its key, where the entry has it. A database that was moved
    -- from gives an error.
    pub city_lookup_lem :
        {Db : Type 0} (find : Db → Str → Found Entry) (db : Db) (ip : Str)
        → ((r : J.Object) × (city_lookup J text_at number_at find (open_database db) ip ≡ some r)
            × CitySays (find db ip) r)
          × ((r : J.Object) × (city_lookup J text_at number_at find
                  (move_from (open_database db)).1
                  ip
                ≡ some r)
              × (J.member (codes "error") r ≡ some (J.of_str (codes "Database not open"))))
    unfolding city_lookup perform_lookup open_database move_from
    city_lookup_lem find db ip =
        let h = error_object-error L (codes "Database not open") ip in
        (
          (_, refl, city_fill ip (find db ip)),
          (
            error_object J (codes "Database not open") ip,
            ap some (fill-error L text_at number_at (city_members J text_at number_at) _ none _ h),
            h,
          ),
        )
