-- ===== src/Tests/Handles.antt =====
-- src/mac_database.cpp and src/database/maxmind_database.cpp at a few variables.
use ip_server.Base.{
  both, ◌&&◌, ℕ, ◌≡◌, ◌≢◌, ◌⊎◌, List, [], ◌∷◌, Option, some, none, refl, get_elem?, Bool, true,
  false, subst,
}
use ip_server.Store.Counted.{count, take_one, one_if}
use ip_server.Store.Lifetimes.{
  Class, Action, declare, declare_moved, assign_moved, destruct, act, act_all, Uses, AllUse,
  object_of,
}
use ip_server.MacDatabase.{OuiDatabase, opened, move_database}
use ip_server.MacDatabase.Handles.{
  Ledger, Opening, opens, fails_with_handle, oui_class, finalize, close_connection, construct,
  destroy, move_assign, open_connection, prepare, release,
}
use ip_server.MacDatabase.Handles.Owner.{nothing_open, oui_handles_lem}
use ip_server.MaxMind.{MaxMindDatabase, open_database, move_from}
use ip_server.MaxMind.Handles.{
  Files, maxmind_class, close_file, construct_file, destroy_file, move_assign_file,
}
use ip_server.MaxMind.Handles.Owner.{no_files, maxmind_files_lem}

module _ {Object World Call : Type 0} (C : Class Object World Call) where
  abbrev has_object : List (Option Object) → ℕ → Bool
  has_object os i = elim (object_of os i) [ none ↦ false | some _ ↦ true ]

  abbrev ready : Action Call → List (Option Object) → Bool
  ready (declare call) os = true
  ready (declare_moved i) os = has_object os i
  ready (assign_moved i j) os = has_object os i && has_object os j
  ready (destruct i) os = has_object os i

  -- The test of `AllUse`.
  abbrev all_ready : List (Action Call) → List (Option Object) → World → Bool
  all_ready [] os w = true
  all_ready (a ∷ acts) os w =
      ready a os && (elim (act C a os w) [ none ↦ true | some (os', t) ↦ all_ready acts os' t ])

  has_object-at :
      (os : List (Option Object)) (i : ℕ)
      → has_object os i ≡ true
      → (x : Object) × (get_elem? os i ≡ some (some x))
  unfolding object_of
  has_object-at os i h = at (get_elem? os i) refl
    where
      at :
          (o : Option (Option Object))
          → get_elem? os i ≡ o
          → (x : Object) × (get_elem? os i ≡ some (some x))
      at none e =
          let q : has_object os i ≡ false = rw (e, has_object, object_of) refl in absurd (cc (q, h))
      at (some none) e =
          let q : has_object os i ≡ false = rw (e, has_object, object_of) refl in absurd (cc (q, h))
      at (some (some x)) e = (x, e)

  ready-Uses : (a : Action Call) (os : List (Option Object)) → ready a os ≡ true → Uses C a os
  ready-Uses (declare call) os h = tt
  ready-Uses (declare_moved i) os h = has_object-at os i h
  ready-Uses (assign_moved i j) os h =
      let (l, r) = both (has_object os i) (has_object os j) h in
      (has_object-at os i l, has_object-at os j r)
  ready-Uses (destruct i) os h = has_object-at os i h

  all_ready-AllUse :
      (acts : List (Action Call)) (os : List (Option Object)) (w : World)
      → all_ready acts os w ≡ true
      → AllUse C acts os w
  all_ready-AllUse [] os w h = tt
  all_ready-AllUse (a ∷ acts) os w h = (
    ready-Uses a os (both (ready a os) _ h).0,
    λ os' t e. all_ready-AllUse acts os' t (
        subst
          (λ (r : Option (List (Option Object) × World)).
            elim r as (λ _. Bool) [ none ↦ true | some (os'', t') ↦ all_ready acts os'' t' ] ≡ true)
          e (both (ready a os) _ h).1),
  )

-- One is moved into the other, which releases what it had; a third constructor throws.
abbrev oui_uses : List (Action Opening)
oui_uses =
    declare (opens true)
    ∷ declare (opens true)
    ∷ assign_moved 0 1
    ∷ declare fails_with_handle
    ∷ destruct 0
    ∷ destruct 1
    ∷ []

oui_uses-AllUse : AllUse oui_class oui_uses [] nothing_open
unfolding act object_of count take_one one_if opened move_database finalize close_connection
    construct destroy move_assign open_connection prepare release
oui_uses-AllUse = all_ready-AllUse oui_class oui_uses [] nothing_open refl

oui_handles_lem_example :
    (os : List (Option (OuiDatabase ℕ))) × (t : Ledger) × (act_all oui_class oui_uses []
        nothing_open
      ≡ some (os, t))
    × ((i : ℕ) (d : OuiDatabase ℕ)
        → get_elem? os i ≡ some (some d)
        → (d ≡ (move_database d).1)
          ⊎ ((c : ℕ) × (d ≡ opened c)
              × (count c t.connections ≡ 1)
              × (count c t.statements ≡ 1)
              × ((j : ℕ) → get_elem? os j ≡ some (some d) → i ≡ j)))
    × (((i : ℕ) (d : OuiDatabase ℕ) → get_elem? os i ≢ some (some d))
        → (t.connections ≡ []) × (t.statements ≡ []))
oui_handles_lem_example = oui_handles_lem oui_uses oui_uses-AllUse

-- A file is moved from variable to variable; the second open fails.
abbrev file_uses : List (Action Bool)
file_uses = declare true ∷ declare false ∷ declare_moved 0 ∷ assign_moved 2 2 ∷ destruct 0 ∷ []

file_uses-AllUse : AllUse maxmind_class file_uses [] no_files
unfolding act object_of count take_one one_if open_database move_from close_file construct_file
    destroy_file move_assign_file
file_uses-AllUse = all_ready-AllUse maxmind_class file_uses [] no_files refl

maxmind_files_lem_example :
    (os : List (Option (MaxMindDatabase ℕ))) × (t : Files) × (act_all maxmind_class file_uses []
        no_files
      ≡ some (os, t))
    × ((i : ℕ) (d : MaxMindDatabase ℕ)
        → get_elem? os i ≡ some (some d)
        → (d ≡ (move_from d).1)
          ⊎ ((f : ℕ) × (d ≡ open_database f)
              × (count f t.files ≡ 1)
              × ((j : ℕ) → get_elem? os j ≡ some (some d) → i ≡ j)))
    × (((i : ℕ) (d : MaxMindDatabase ℕ) → get_elem? os i ≢ some (some d)) → t.files ≡ [])
maxmind_files_lem_example = maxmind_files_lem file_uses file_uses-AllUse
