-- ===== src/Tests/Trees.antt =====
-- JSON values with objects that can be looked into, for the tests: an object is the list of its
-- assignments, the last one first.
use ip_server.Base.{◌≡◌, refl, inl, inr, Bool, Option, none, some, if◌then◌else◌, Bool-cases}
use ip_server.Base.Int.{ℤ}
use ip_server.Base.Text.{Str, str_eq, str_eq_iff}
use ip_server.Json.{Json, IsLawful}

mutual
  pub data Tree : Type 0 where
    text : Str → Tree
    truth : Bool → Tree
    number : ℤ → Tree
    array : Tree
    object : Fields → Tree

  pub data Fields : Type 0 where
    end : Fields
    field : Str → Tree → Fields → Fields

abbrev pub member : Str → Fields → Option Tree
member k end = none
member k (field l v o) = if str_eq l k then some v else member k o

abbrev pub update : Fields → Fields → Fields
update o end = o
update o (field k v p) = field k v (update o p)

abbrev pub trees : Json
trees = record {
  Value = Tree;
  Object = Fields;
  of_object = object;
  of_str = text;
  of_bool = truth;
  of_int = number;
  of_list = λ vs. array;
  as_str = λ v. elim v [ text s ↦ some s | _ ↦ none ];
  as_bool = λ v. elim v [ truth b ↦ some b | _ ↦ none ];
  as_int = λ v. elim v [ number n ↦ some n | _ ↦ none ];
  as_list = λ v. none;
  as_object = λ v. elim v [ object o ↦ some o | _ ↦ none ];
  no_members = end;
  member = member;
  set_member = field;
  update = update;
}

update_none : (k : Str) (o p : Fields) → member k p ≡ none → member k (update o p) ≡ member k o
update_none k o end e = refl
update_none k o (field l v p) e = elim (Bool-cases (str_eq l k)) [
  | inl q ↦ let f : member k (field l v p) ≡ some v = rw q refl in absurd (cc (e, f))
  | inr q ↦ rw q (update_none k o p (rw q at e))
]

update_some :
    (k : Str) (o p : Fields) (v : Tree) → member k p ≡ some v → member k (update o p) ≡ some v
update_some k o end v e = absurd (cc e)
update_some k o (field l w p) v e = elim (Bool-cases (str_eq l k)) [
  | inl q ↦ rw q (rw q at e)
  | inr q ↦ rw q (update_some k o p v (rw q at e))
]

pub trees-IsLawful : IsLawful trees
trees-IsLawful = record {
  member-no_members = λ k. refl;
  member-set_self = λ k v j. rw ((str_eq_iff k k).1 refl) refl;
  member-set_ne = λ k l v j h. elim (Bool-cases (str_eq k l)) [
    | inl e ↦ absurd (h ((str_eq_iff k l).0 e))
    | inr e ↦ rw e refl
  ];
  member-update_none = λ k j o e. update_none k j o e;
  member-update_some = λ k j o v e. update_some k j o v e;
  as_str-of_str = λ s. refl;
  as_bool-of_bool = λ b. refl;
  as_int-of_int = λ n. refl;
}
