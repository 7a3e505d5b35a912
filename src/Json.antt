-- ===== src/Json.antt =====
-- What the program uses of the JSON library: values, members of an object, and the conversions
-- of strings, Booleans and integers; and the laws of these that the proofs rely on.
use ip_server.Base.{
  inr, sym, ◌∙◌, subst, inl, Bool-cases, arith, false, Bool, Option, none, some, ◌≡◌, ◌≢◌, List,
}
use ip_server.Base.Int.{ℤ}
use ip_server.Base.Text.{Str}
use ip_server.Base.Text.{str_eq, str_eq_iff}

pub record Json : Type 1 where
  pub Value : Type 0
  pub Object : Type 0
  pub of_object : Object → Value
  pub of_str : Str → Value
  pub of_bool : Bool → Value
  pub of_int : ℤ → Value
  pub of_list : List Value → Value
  -- `is_string()`, `is_boolean()`, `is_number_integer()` and `is_array()`, with what is there.
  pub as_str : Value → Option Str
  pub as_bool : Value → Option Bool
  pub as_int : Value → Option ℤ
  pub as_list : Value → Option (List Value)
  pub as_object : Value → Option Object
  -- A value that is not initialised becomes an object with the first assignment to a member.
  pub no_members : Object
  -- `contains(key)` with `operator[]`, and the assignment to `j[key]`.
  pub member : Str → Object → Option Value
  pub set_member : Str → Value → Object → Object
  -- `j.update(other)`.
  pub update : Object → Object → Object

pub record IsLawful (J : Json) : Type 0 where
  pub member-no_members : (k : Str) → J.member k J.no_members ≡ none
  pub member-set_self :
      (k : Str) (v : J.Value) (j : J.Object) → J.member k (J.set_member k v j) ≡ some v
  pub member-set_ne :
      (k l : Str) (v : J.Value) (j : J.Object)
      → k ≢ l
      → J.member l (J.set_member k v j) ≡ J.member l j
  pub member-update_none :
      (k : Str) (j o : J.Object) → J.member k o ≡ none → J.member k (J.update j o) ≡ J.member k j
  pub member-update_some :
      (k : Str) (j o : J.Object) (v : J.Value)
      → J.member k o ≡ some v
      → J.member k (J.update j o) ≡ some v
  pub as_str-of_str : (s : Str) → J.as_str (J.of_str s) ≡ some s
  pub as_bool-of_bool : (b : Bool) → J.as_bool (J.of_bool b) ≡ some b
  pub as_int-of_int : (n : ℤ) → J.as_int (J.of_int n) ≡ some n

module _ {J : Json} (L : IsLawful J) where
  -- Two keys that a test tells apart.
  pub member-set_apart :
      (k l : Str) (v : J.Value) (j : J.Object)
      → str_eq k l ≡ false
      → J.member l (J.set_member k v j) ≡ J.member l j
  member-set_apart k l v j h = L.member-set_ne k l v j (λ e. ground (arith, h, str_eq_iff k l, e))

  -- The same assignment to two objects that agree on a member.
  pub member-set_same :
      (k l : Str) (v : J.Value) (i j : J.Object)
      → J.member l i ≡ J.member l j
      → J.member l (J.set_member k v i) ≡ J.member l (J.set_member k v j)
  member-set_same k l v i j h = elim (Bool-cases (str_eq k l)) [
    | inl e ↦
        subst (λ z. J.member z (J.set_member k v i) ≡ J.member z (J.set_member k v j))
          ((str_eq_iff k l).0 e) (L.member-set_self k v i ∙ sym (L.member-set_self k v j))
    | inr e ↦ member-set_apart k l v i e ∙ h ∙ sym (member-set_apart k l v j e)
  ]
