-- ===== src/MacDatabase/Handles/Owner.antt =====
-- mac_database.cpp: `OUIDatabase` owns its connection and its statement, whatever a program does
-- with its objects.
use ip_server.Base.{
  ◌≢◌, get_elem?, Option, List, [], sym, ◌∙◌, ◌⊎◌, ℕ, ◌+◌, ◌≡◌, refl, none, some, ◌==◌, arith, true,
  false, inl, inr,
}
use ip_server.Store.Counted.{one_if, count, one_if_self, count-zero}
use ip_server.Store.Lifetimes.{IsOwner, Action, act_all, AllUse}
use ip_server.Store.Lifetimes.Safety.{act_all_lem, IsAccounted, Fine, held-none, held-alone}
use ip_server.Store.Lifetimes.Totals.{All-at}
use ip_server.MacDatabase.{move_database, OuiDatabase, opened}
use ip_server.MacDatabase.Handles.{
  oui_class, finalize, move_assign, destroy, Ledger, Opening, opens, fails_with_handle, fails,
  construct, release,
}
use ip_server.MacDatabase.Handles.Balance.{IsBalanced, release_lem, open_lem, abandon_lem}

abbrev emptied : OuiDatabase ℕ
emptied = record { db = none; lookup_stmt = none; is_open = false }

-- A database is open on a connection, or was moved from.
abbrev IsWhole : OuiDatabase ℕ → Type 0
IsWhole d = (d ≡ emptied) ⊎ ((c : ℕ) × (d ≡ opened c))

abbrev owns : OuiDatabase ℕ → ℕ → ℕ
owns d c = elim d.db [ none ↦ 0 | some x ↦ one_if (c == x) ]

same : (f g : ℕ → ℕ) (w : Ledger) → ((c : ℕ) → f c ≡ g c) → IsBalanced f w → IsBalanced g w
same f g w e b = record {
  connected = λ c. b.connected c ∙ e c;
  prepared = λ c. b.prepared c ∙ e c;
  once = λ c. rw (← e c) (b.once c);
  fresh = λ c h. sym (e c) ∙ b.fresh c h;
}

construct_lem :
    (f : ℕ → ℕ) (o : Opening) (w : Ledger)
    → IsBalanced f w
    → ((t : Ledger) × (construct o w ≡ some (none, t)) × IsBalanced f t)
      ⊎ ((d : OuiDatabase ℕ) × (t : Ledger) × (construct o w ≡ some (some d, t))
          × IsWhole d
          × IsBalanced (λ c. f c + owns d c) t)
unfolding construct opened
construct_lem f fails w b = inl (w, refl, b)
construct_lem f fails_with_handle w b = let (t, e, b') = abandon_lem f w b in inl (t, rw e refl, b')
construct_lem f (opens false) w b = let (t, e, b') = abandon_lem f w b in inl (t, rw e refl, b')
construct_lem f (opens true) w b = inr (opened w.next, _, refl, inr (w.next, refl), open_lem f w b)

-- What the destructor and the assignment release: all that the database owns.
released :
    (f : ℕ → ℕ) (d : OuiDatabase ℕ) (w : Ledger)
    → IsWhole d
    → IsBalanced (λ c. f c + owns d c) w
    → (e : OuiDatabase ℕ) × (t : Ledger) × (release d w ≡ some (e, t))
      × (e.lookup_stmt ≡ none)
      × IsBalanced f t
unfolding release opened
released f d w (inl q) b = (emptied, w, rw q refl, refl, same _ f w (λ c. rw q (omega arith)) b)
released f d w (inr (c, q)) b =
    let (t, u, e, e', b') = release_lem f c w (same _ _ w (λ x. rw q refl) b) in
    (record emptied { db = some c; is_open = true }, u, rw q (rw e (rw e' refl)), refl, b')

destroy_lem :
    (f : ℕ → ℕ) (d : OuiDatabase ℕ) (w : Ledger)
    → IsWhole d
    → IsBalanced (λ c. f c + owns d c) w
    → (t : Ledger) × (destroy d w ≡ some t) × IsBalanced f t
unfolding destroy finalize
destroy_lem f d w p b = let (e, t, r, q, b') = released f d w p b in (t, rw r (rw q refl), b')

move_database_lem :
    (d : OuiDatabase ℕ)
    → IsWhole d
    → IsWhole (move_database d).0
      × IsWhole (move_database d).1
      × ((c : ℕ) → owns (move_database d).0 c + owns (move_database d).1 c ≡ owns d c)
unfolding move_database
move_database_lem d p = (p, inl refl, λ c. omega arith)

move_assign_lem :
    (f : ℕ → ℕ) (d other : OuiDatabase ℕ) (w : Ledger)
    → IsWhole d
    → IsWhole other
    → IsBalanced (λ c. f c + owns d c + owns other c) w
    → (p : OuiDatabase ℕ × OuiDatabase ℕ) × (t : Ledger) × (move_assign false d other w
        ≡ some (p, t))
      × IsWhole p.0
      × IsWhole p.1
      × IsBalanced (λ c. f c + owns p.0 c + owns p.1 c) t
unfolding move_assign move_database finalize
move_assign_lem f d other w p p' b =
    let (e, t, r, q, b') =
      released (λ c. f c + owns other c) d w p (same _ _ w (λ c. omega arith) b) in
    ((other, emptied), t, rw r (rw q refl), p', inl refl, same _ _ t (λ c. omega arith) b')

oui_owner : IsOwner oui_class
unfolding move_assign
oui_owner = record {
  holds = owns;
  IsProper = IsWhole;
  Balanced = IsBalanced;
  same_balance = same;
  make_lem = construct_lem;
  destroy_lem = destroy_lem;
  move_new_lem = move_database_lem;
  move_to_lem = move_assign_lem;
  move_to_self = λ d w. refl;
}

abbrev pub nothing_open : Ledger
nothing_open = record { next = 0; connections = []; statements = [] }

nothing_open-IsBalanced : IsBalanced (λ _. 0) nothing_open
unfolding count
nothing_open-IsBalanced = record {
  connected = λ c. refl;
  prepared = λ c. refl;
  once = λ c. omega arith;
  fresh = λ c h. refl;
}

module _ (os : List (Option (OuiDatabase ℕ))) (t : Ledger) (hb : IsAccounted oui_owner os t) where
  whole_alone :
      (i : ℕ) (d : OuiDatabase ℕ)
      → get_elem? os i ≡ some (some d)
      → (d ≡ (move_database d).1)
        ⊎ ((c : ℕ) × (d ≡ opened c)
            × (count c t.connections ≡ 1)
            × (count c t.statements ≡ 1)
            × ((j : ℕ) → get_elem? os j ≡ some (some d) → i ≡ j))
  unfolding opened move_database oui_owner
  whole_alone i d e = elim (All-at (Fine oui_owner) os i (some d) hb.0 e) [
    | inl q ↦ inl q
    | inr (c, q) ↦
        let own : owns d c ≡ 1 = rw q (one_if_self c) in
        let (all, alone) = held-alone oui_owner os c (hb.1.once c) i d e own in
        inr (c, q, hb.1.connected c ∙ all, hb.1.prepared c ∙ all, λ j k. alone j d k own)
  ]

  none_left :
      ((i : ℕ) (d : OuiDatabase ℕ) → get_elem? os i ≢ some (some d))
      → (t.connections ≡ []) × (t.statements ≡ [])
  unfolding oui_owner
  none_left gone = (
    count-zero t.connections (λ c. hb.1.connected c ∙ held-none oui_owner os c gone),
    count-zero t.statements (λ c. hb.1.prepared c ∙ held-none oui_owner os c gone),
  )

-- Whatever a program does with variables of the class, as long as it uses only live ones: no call
-- of SQLite is made on a handle that is not open. A database that is left was moved from, or it
-- has a connection that is open once, with one statement, and no other variable has it. When no
-- variable is left, no connection and no statement is open.
pub oui_handles_lem :
    (acts : List (Action Opening))
    → AllUse oui_class acts [] nothing_open
    → (os : List (Option (OuiDatabase ℕ))) × (t : Ledger) × (act_all oui_class acts [] nothing_open
        ≡ some (os, t))
      × ((i : ℕ) (d : OuiDatabase ℕ)
          → get_elem? os i ≡ some (some d)
          → (d ≡ (move_database d).1)
            ⊎ ((c : ℕ) × (d ≡ opened c)
                × (count c t.connections ≡ 1)
                × (count c t.statements ≡ 1)
                × ((j : ℕ) → get_elem? os j ≡ some (some d) → i ≡ j)))
      × (((i : ℕ) (d : OuiDatabase ℕ) → get_elem? os i ≢ some (some d))
          → (t.connections ≡ []) × (t.statements ≡ []))
unfolding opened move_database oui_owner
oui_handles_lem acts u =
    let (os, t, run, hb) =
      act_all_lem oui_owner acts [] nothing_open (tt, nothing_open-IsBalanced) u in
    (os, t, run, λ i d e. whole_alone os t hb i d e, none_left os t hb)
