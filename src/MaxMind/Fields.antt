-- ===== src/MaxMind/Fields.antt =====
-- src/database/the members of a result that are set one after another.
use ip_server.Base.{
  both, all, not, ◌&&◌, ◌≡◌, refl, ◌∙◌, Bool, true, false, List, [], ◌∷◌, Option, none, All,
}
use ip_server.Base.Text.{Str, str_eq}
use ip_server.Json.{Json, IsLawful}
use ip_server.MaxMind.{set_if}
use ip_server.MaxMind.Results.{set_if_apart, set_if_self}

pub not-true : (b : Bool) → not b ≡ true → b ≡ false
not-true true h = absurd (cc h)
not-true false h = refl

pub All-all :
    {A : Type 0} (p : A → Bool) (P : A → Type 0)
    → ((x : A) → p x ≡ true → P x)
    → (xs : List A) → all p xs ≡ true
    → All P xs
All-all p P f [] h = tt
All-all p P f (x ∷ xs) h = let (a, b) = both (p x) _ h in (f x a, All-all p P f xs b)

module _ (J : Json) where
  abbrev pub set_fields : List (Str × Option J.Value) → J.Object → J.Object
  set_fields [] r = r
  set_fields ((k, v) ∷ fields) r = set_fields fields (set_if J k v r)

  -- No field has the key.
  abbrev pub Without : Str → List (Str × Option J.Value) → Type 0
  Without k fields = All (λ f. str_eq f.0 k ≡ false) fields

  -- No two fields have the same key.
  abbrev pub AreApart : List (Str × Option J.Value) → Type 0
  AreApart [] = Unit
  AreApart ((k, v) ∷ fields) =
      Without k fields × All (λ f. str_eq k f.0 ≡ false) fields × AreApart fields

  -- Each field is a member where it has a value, and no member otherwise.
  abbrev pub HasAll : List (Str × Option J.Value) → J.Object → Type 0
  HasAll fields r = All (λ f. J.member f.0 r ≡ f.1) fields

  -- The tests of both on the keys.
  pub keys-Without :
      (k : Str) (fields : List (Str × Option J.Value))
      → all (λ f. not (str_eq f.0 k)) fields ≡ true
      → Without k fields
  keys-Without k fields h =
      All-all _ (λ (f : Str × Option J.Value). str_eq f.0 k ≡ false) (λ f. not-true (str_eq f.0 k))
        fields h

  abbrev pub keys_apart : List (Str × Option J.Value) → Bool
  keys_apart [] = true
  keys_apart ((k, v) ∷ fields) =
      all (λ f. not (str_eq f.0 k)) fields
      && all (λ f. not (str_eq k f.0)) fields
      && keys_apart fields

  pub keys-AreApart :
      (fields : List (Str × Option J.Value)) → keys_apart fields ≡ true → AreApart fields
  keys-AreApart [] h = tt
  keys-AreApart ((k, v) ∷ fields) h =
      let (ab, c) =
        both (all (λ f. not (str_eq f.0 k)) fields && all (λ f. not (str_eq k f.0)) fields)
          (keys_apart fields) h in
      let (a, b) = both (all (λ f. not (str_eq f.0 k)) fields) _ ab in
      (
        keys-Without k fields a,
        All-all _ (λ (f : Str × Option J.Value). str_eq k f.0 ≡ false)
            (λ f. not-true (str_eq k f.0)) fields b,
        keys-AreApart fields c,
      )

module _ {J : Json} (L : IsLawful J) where
  pub set_fields_apart :
      (k : Str) (fields : List (Str × Option J.Value)) (r : J.Object)
      → Without J k fields
      → J.member k (set_fields J fields r) ≡ J.member k r
  set_fields_apart k [] r h = refl
  set_fields_apart k ((l, v) ∷ fields) r (h, hs) =
      set_fields_apart k fields (set_if J l v r) hs ∙ set_if_apart L l k v r h

  still_absent :
      (k : Str) (v : Option J.Value) (fields : List (Str × Option J.Value)) (r : J.Object)
      → All (λ f. str_eq k f.0 ≡ false) fields
      → All (λ f. J.member f.0 r ≡ none) fields
      → All (λ f. J.member f.0 (set_if J k v r) ≡ none) fields
  still_absent k v [] r a h = tt
  still_absent k v ((l, w) ∷ fields) r (a, as') (h, hs) =
      (set_if_apart L k l v r a ∙ h, still_absent k v fields r as' hs)

  pub set_fields-HasAll :
      (fields : List (Str × Option J.Value)) (r : J.Object)
      → AreApart J fields
      → All (λ f. J.member f.0 r ≡ none) fields
      → HasAll J fields (set_fields J fields r)
  set_fields-HasAll [] r a h = tt
  set_fields-HasAll ((k, v) ∷ fields) r (w, o, a) (h, hs) = (
    set_fields_apart k fields (set_if J k v r) w ∙ set_if_self L k v r h,
    set_fields-HasAll fields (set_if J k v r) a (still_absent k v fields r o hs),
  )
