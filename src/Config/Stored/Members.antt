-- ===== src/Config/Stored/Members.antt =====
-- config.cpp: the members of the object that `save_to_file` builds.
use ip_server.Base.{
  ◌≡◌, refl, ap, ◌∙◌, inl, inr, false, List, [], ◌∷◌, Option, none, some, if◌then◌else◌, Bool-cases,
  subst,
}
use ip_server.Base.Text.{Str, codes, str_eq, str_eq_iff, empty}
use ip_server.Json.{Json, IsLawful, member-set_apart}
use ip_server.Config.{ServerConfig}
use ip_server.Config.Stored.{set_all, set_key, first_fields, last_fields, to_json}

-- A value, or else another.
abbrev pub or_else {ℓ} : {V : Type ℓ} → Option V → Option V → Option V
or_else none d = d
or_else (some v) d = some v

-- The last value that a list of assignments gives to a key.
abbrev pub field {ℓ} : {V : Type ℓ} → Str → List (Str × V) → Option V
field k [] = none
field k ((l, v) ∷ fields) = or_else (field k fields) (if str_eq l k then some v else none)

or_else_assoc {ℓ} :
    {V : Type ℓ} (a b c : Option V) → or_else a (or_else b c) ≡ or_else (or_else a b) c
or_else_assoc none b c = refl
or_else_assoc (some v) b c = refl

module _ {J : Json} (L : IsLawful J) where
  member-set_or_else :
      (k l : Str) (v : J.Value) (o : J.Object)
      → J.member k (J.set_member l v o)
        ≡ or_else (if str_eq l k then some v else none) (J.member k o)
  member-set_or_else k l v o = elim (Bool-cases (str_eq l k)) [
    | inl q ↦ rw q (
        subst (λ z. J.member z (J.set_member l v o) ≡ some v) ((str_eq_iff l k).0 q)
          (L.member-set_self l v o))
    | inr q ↦ rw q (member-set_apart L l k v o q)
  ]

  pub member-set_all :
      (k : Str) (fields : List (Str × J.Value)) (o : J.Object)
      → J.member k (set_all J fields o) ≡ or_else (field k fields) (J.member k o)
  unfolding set_all
  member-set_all k [] o = refl
  member-set_all k ((l, v) ∷ fields) o =
      member-set_all k fields (J.set_member l v o)
      ∙ ap (or_else (field k fields)) (member-set_or_else k l v o)
      ∙ or_else_assoc (field k fields) (if str_eq l k then some v else none) (J.member k o)

  member-set_key :
      (k key : Str) (o : J.Object)
      → str_eq (codes "default_api_key") k ≡ false
      → J.member k (set_key J key o) ≡ J.member k o
  unfolding set_key
  member-set_key k [] o h = refl
  member-set_key k (c ∷ key) o h =
      member-set_apart L (codes "default_api_key") k (J.of_str (c ∷ key)) o h

  -- A member of the first part, and one of the last.
  pub to_json_first :
      (c : ServerConfig) (k : Str) (v : J.Value)
      → field k (last_fields J c) ≡ none
      → str_eq (codes "default_api_key") k ≡ false
      → field k (first_fields J c) ≡ some v
      → J.member k (to_json J c) ≡ some v
  unfolding to_json
  to_json_first c k v last key first =
      member-set_all k (last_fields J c)
        (set_key J c.default_api_key (set_all J (first_fields J c) J.no_members))
      ∙ ap
          (λ x.
            or_else x (
              J.member k (set_key J c.default_api_key (set_all J (first_fields J c) J.no_members))))
          last
      ∙ member-set_key k c.default_api_key (set_all J (first_fields J c) J.no_members) key
      ∙ member-set_all k (first_fields J c) J.no_members
      ∙ ap (λ x. or_else x (J.member k J.no_members)) first

  pub to_json_last :
      (c : ServerConfig) (k : Str) (v : J.Value)
      → field k (last_fields J c) ≡ some v
      → J.member k (to_json J c) ≡ some v
  unfolding to_json
  to_json_last c k v last =
      member-set_all k (last_fields J c)
        (set_key J c.default_api_key (set_all J (first_fields J c) J.no_members))
      ∙ ap
          (λ x.
            or_else x (
              J.member k (set_key J c.default_api_key (set_all J (first_fields J c) J.no_members))))
          last

  -- The default key is there unless it is empty.
  pub to_json-key :
      (c : ServerConfig)
      → J.member (codes "default_api_key") (to_json J c)
        ≡ (if empty c.default_api_key then none else some (J.of_str c.default_api_key))
  unfolding to_json set_key last_fields first_fields
  to_json-key c =
      let o = set_all J (first_fields J c) J.no_members in
      member-set_all (codes "default_api_key") (last_fields J c) (set_key J c.default_api_key o)
      ∙ elim (Bool-cases (empty c.default_api_key)) [
        | inl e ↦
            rw (set_key, e)
              (member-set_all (codes "default_api_key") (first_fields J c) J.no_members
                ∙ L.member-no_members (codes "default_api_key"))
        | inr e ↦
            rw (set_key, e)
              (L.member-set_self (codes "default_api_key") (J.of_str c.default_api_key) o)
      ]
