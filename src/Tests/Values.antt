-- ===== src/Tests/Values.antt =====
-- JSON values for the tests: objects are functions, and arrays are not looked into.
use ip_server.Base.{refl, inl, inr, Bool, Option, none, some, if◌then◌else◌, Bool-cases}
use ip_server.Base.Int.{ℤ}
use ip_server.Base.Text.{Str, str_eq, str_eq_iff}
use ip_server.Json.{Json, IsLawful}

pub data Plain : Type 0 where
  text : Str → Plain
  truth : Bool → Plain
  number : ℤ → Plain
  other : Plain

abbrev pub plain : Json
plain = record {
  Value = Plain;
  Object = Str → Option Plain;
  of_object = λ o. other;
  of_str = text;
  of_bool = truth;
  of_int = number;
  of_list = λ vs. other;
  as_str = λ v. elim v [ text s ↦ some s | _ ↦ none ];
  as_bool = λ v. elim v [ truth b ↦ some b | _ ↦ none ];
  as_int = λ v. elim v [ number n ↦ some n | _ ↦ none ];
  as_list = λ v. none;
  as_object = λ v. none;
  no_members = λ k. none;
  member = λ k o. o k;
  set_member = λ k v o l. if str_eq k l then some v else o l;
  update = λ o p k. elim (p k) [ none ↦ o k | some v ↦ some v ];
}

pub plain-IsLawful : IsLawful plain
plain-IsLawful = record {
  member-no_members = λ k. refl;
  member-set_self = λ k v j. rw ((str_eq_iff k k).1 refl) refl;
  member-set_ne = λ k l v j h. elim (Bool-cases (str_eq k l)) [
    | inl e ↦ absurd (h ((str_eq_iff k l).0 e))
    | inr e ↦ rw e refl
  ];
  member-update_none = λ k j o e. rw e refl;
  member-update_some = λ k j o v e. rw e refl;
  as_str-of_str = λ s. refl;
  as_bool-of_bool = λ b. refl;
  as_int-of_int = λ n. refl;
}
