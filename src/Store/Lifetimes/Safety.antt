-- ===== src/Store/Lifetimes/Safety.antt =====
-- A class that keeps the laws of an owner: no sequence of uses misuses the library, and what is
-- open afterwards is what the objects that are left hold.
use ip_server.Base.{
  ◌≤◌, ==_apart, ==_iff, get_elem?-set_ne, ℕ_discrete, All-append, inr, inl, ℕ, ◌+◌, ◌≡◌, ◌≢◌, refl,
  subst, ◌∙◌, List, [], ◌∷◌, ◌++◌, Option, none, some, get_elem?, set, arith, All,
}
use ip_server.Store.Lifetimes.{
  Class, IsOwner, Action, declare, declare_moved, assign_moved, destruct, object_of, act, act_all,
  Uses, AllUse,
}
use ip_server.Store.Lifetimes.Totals.{
  le-total, two-le-total, total-zero, total, total-snoc, total-set, set-same, All-set, All-at,
}

module _ {Object World Call : Type 0} {C : Class Object World Call} (O : IsOwner C) where
  abbrev pub held : ℕ → Option Object → ℕ
  held c none = 0
  held c (some x) = O.holds x c

  abbrev pub Fine : Option Object → Type 0
  Fine none = Unit
  Fine (some x) = O.IsProper x

  -- Every object is proper, and the world is in balance with what they hold.
  abbrev pub IsAccounted : List (Option Object) → World → Type 0
  IsAccounted os w = All Fine os × O.Balanced (λ c. total (held c) os) w

  at-object_of :
      (os : List (Option Object)) (i : ℕ) (x : Object)
      → get_elem? os i ≡ some (some x)
      → object_of os i ≡ some x
  unfolding object_of
  at-object_of os i x e = rw (e, object_of) refl

  assign_self :
      (i j : ℕ) (x : Object) {y : Object} (os : List (Option Object)) (w : World)
      → IsAccounted os w
      → i ≡ j
      → get_elem? os i ≡ some (some x)
      → get_elem? os j ≡ some (some y)
      → (os' : List (Option Object)) × (t : World) × (act C (assign_moved i j) os w ≡ some (os', t))
        × IsAccounted os' t
  unfolding act
  assign_self i j x os w hb q e k =
      let e' : get_elem? os j ≡ some (some x) = subst (λ n. get_elem? os n ≡ some (some x)) q e in
      let written = set-same os j (some x) e' in
      (
        os,
        w,
        rw q (
            rw (at-object_of os j x e')
              (rw ((==_iff j j).1 refl) (rw (O.move_to_self x w, written, written) refl))),
        hb,
      )

  assign_other :
      (i j : ℕ) (x y : Object) (os : List (Option Object)) (w : World)
      → IsAccounted os w
      → i ≢ j
      → get_elem? os i ≡ some (some x)
      → get_elem? os j ≡ some (some y)
      → (os' : List (Option Object)) × (t : World) × (act C (assign_moved i j) os w ≡ some (os', t))
        × IsAccounted os' t
  unfolding act
  assign_other i j x y os w (h, b) n e k =
      let at_j : (v : Option Object) → get_elem? (set os i v) j ≡ some (some y) =
        λ v. get_elem?-set_ne os i j v n ∙ k in
      let sums : (c : ℕ) (u v : Option Object)
          → total (held c) (set (set os i u) j v) + O.holds x c + O.holds y c
            ≡ total (held c) os + held c u + held c v =
        λ c u v. omega (
          arith,
          total-set (held c) os i (some x) u e,
          total-set (held c) (set os i u) j (some y) v (at_j u),
        ) in
      let (p, t, m, px, py, b') =
        O.move_to_lem (λ c. total (held c) (set (set os i none) j none)) x y w
          (All-at Fine os i (some x) h e) (All-at Fine os j (some y) h k)
          (O.same_balance _ _ w (λ c. omega (arith, sums c none none)) b) in
      (
        set (set os i (some p.0)) j (some p.1),
        t,
        rw (at-object_of os i x e) (rw (at-object_of os j y k) (rw (==_apart i j n) (rw m refl))),
        (
          All-set Fine (set os i (some p.0)) j (some p.1) (All-set Fine os i (some p.0) h px) py,
          O.same_balance _ _ t (λ c. omega (arith, sums c none none, sums c (some p.0) (some p.1)))
              b',
        ),
      )

  -- Every use succeeds and keeps the balance.
  act_lem :
      (a : Action Call) (os : List (Option Object)) (w : World)
      → IsAccounted os w
      → Uses C a os
      → (os' : List (Option Object)) × (t : World) × (act C a os w ≡ some (os', t))
        × IsAccounted os' t
  unfolding act
  act_lem (declare call) os w (h, b) u = elim (O.make_lem (λ c. total (held c) os) call w b) [
    | inl (t, e, b') ↦ (
      os ++ none ∷ [],
      t,
      rw e refl,
      (
        All-append Fine os (none ∷ []) h (tt, tt),
        O.same_balance _ _ t (λ c. omega (arith, total-snoc (held c) os none)) b',
      ),
    )
    | inr (x, t, e, p, b') ↦ (
      os ++ some x ∷ [],
      t,
      rw e refl,
      (
        All-append Fine os (some x ∷ []) h (p, tt),
        O.same_balance _ _ t (λ c. omega (arith, total-snoc (held c) os (some x))) b',
      ),
    )
  ]
  act_lem (declare_moved i) os w (h, b) (x, e) =
      let new = (C.move_new x).0 in
      let old = (C.move_new x).1 in
      let (p, p', k) = O.move_new_lem x (All-at Fine os i (some x) h e) in
      (
        set os i (some old) ++ some new ∷ [],
        w,
        rw (at-object_of os i x e) refl,
        (
          All-append Fine (set os i (some old)) (some new ∷ []) (All-set Fine os i (some old) h p')
              (p, tt),
          O.same_balance _ _ w
              (λ c. omega (
                arith,
                k c,
                total-set (held c) os i (some x) (some old) e,
                total-snoc (held c) (set os i (some old)) (some new),
              ))
              b,
        ),
      )
  act_lem (assign_moved i j) os w hb ((x, e), (y, k)) = elim (ℕ_discrete i j) [
    | yes q ↦ assign_self i j x os w hb q e k
    | no n ↦ assign_other i j x y os w hb n e k
  ]
  act_lem (destruct i) os w (h, b) (x, e) =
      let (t, d, b') =
        O.destroy_lem (λ c. total (held c) (set os i none)) x w (All-at Fine os i (some x) h e)
          (O.same_balance _ _ w (λ c. omega (arith, total-set (held c) os i (some x) none e)) b) in
      (set os i none, t, rw (at-object_of os i x e) (rw d refl), (All-set Fine os i none h tt, b'))

  -- Any sequence of uses succeeds and keeps the balance.
  pub act_all_lem :
      (acts : List (Action Call)) (os : List (Option Object)) (w : World)
      → IsAccounted os w
      → AllUse C acts os w
      → (os' : List (Option Object)) × (t : World) × (act_all C acts os w ≡ some (os', t))
        × IsAccounted os' t
  unfolding act_all
  act_all_lem [] os w hb u = (os, w, refl, hb)
  act_all_lem (a ∷ acts) os w hb (u, next) =
      let (os1, t1, e, hb1) = act_lem a os w hb u in
      let (os2, t2, run, hb2) = act_all_lem acts os1 t1 hb1 (next os1 t1 e) in
      (os2, t2, rw (e, act_all) run, hb2)

  module _ (os : List (Option Object)) (c : ℕ) where
    -- Without objects nothing is held.
    pub held-none : ((i : ℕ) (x : Object) → get_elem? os i ≢ some (some x)) → total (held c) os ≡ 0
    held-none gone = total-zero (held c) os empty
      where
        empty : (i : ℕ) (o : Option Object) → get_elem? os i ≡ some o → held c o ≡ 0
        empty i none e = refl
        empty i (some x) e = absurd (gone i x e)

    -- What is held once at most and held by an object is held by no other.
    pub held-alone :
        total (held c) os ≤ 1
        → (i : ℕ) (x : Object) → get_elem? os i ≡ some (some x)
        → O.holds x c ≡ 1
        → (total (held c) os ≡ 1)
          × ((j : ℕ) (y : Object) → get_elem? os j ≡ some (some y) → O.holds y c ≡ 1 → i ≡ j)
    held-alone once i x e own = (
      omega (arith, once, own, le-total (held c) os i (some x) e),
      λ j y k own'. elim (ℕ_discrete i j) [
        | yes q ↦ q
        | no n ↦
            absurd
              (omega (arith, once, own, own', two-le-total (held c) os i j (some x) (some y) n e k))
      ],
    )
