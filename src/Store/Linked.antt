-- ===== src/Store/Linked.antt =====
-- A hash map whose values hold iterators into a list of its keys: the shape shared by
-- `RateLimiter` (ip_records_ with lru_it_, lru_list_) and `CacheShard` (cache_map_ with list_it_,
-- cache_list_).
use ip_server.Base.{
  ℕ, suc, ◌≤◌, ◌≡◌, refl, sym, ap, ◌∙◌, ◌≢◌, subst, List, [], ◌∷◌, none, some, arith, ℕ_discrete,
  length,
}
use ip_server.Store.Dict.{
  find, erase, assign, Distinct, find-cons_self, find-cons_ne, find-erase_ne, find-erase_self,
  find-assign_self, find-assign_ne, erase-Distinct, assign-Distinct, length-erase, length-assign,
}
use ip_server.Store.NodeList.{
  NodeList, empty_list, deref, push_front, splice_front, erase_node, last_node, back, pop_back,
  last_node-find,
}

-- The list with one node moved to the front, and without one node.
abbrev pub moved : {K : Type 0} → ℕ → K → NodeList K → NodeList K
moved i k l = record l { nodes = (i, k) ∷ erase ℕ_discrete i l.nodes }

abbrev pub without : {K : Type 0} → ℕ → NodeList K → NodeList K
without i l = record l { nodes = erase ℕ_discrete i l.nodes }

-- Every iterator in the map points to the node that holds its key, every node is pointed to by
-- the entry of its key, no key and no node number occurs twice, and the two have one size.
pub record Linked {K V : Type 0} (dec : Discrete K) (it : V → ℕ) (m : List (K × V)) (l : NodeList K)
    : Type 0 where
  pub keys_distinct : Distinct dec m
  pub nodes_distinct : Distinct ℕ_discrete l.nodes
  pub points : (k : K) (v : V) → find dec k m ≡ some v → deref l (it v) ≡ some k
  pub owned : (i : ℕ) (k : K) → deref l i ≡ some k → (v : V) × (find dec k m ≡ some v) × (it v ≡ i)
  pub fresh : (i : ℕ) → l.next ≤ i → deref l i ≡ none
  pub same_size : length m ≡ length l.nodes

module _ {K V : Type 0} (dec : Discrete K) (it : V → ℕ) where
  pub Linked-empty : Linked {V = V} dec it [] empty_list
  unfolding find
  Linked-empty = record {
    keys_distinct = tt;
    nodes_distinct = tt;
    points = λ k v h. cc;
    owned = λ i k h. absurd (cc h);
    fresh = λ i h. refl;
    same_size = refl;
  }

  deref-moved :
      (i j : ℕ) (k : K) (l : NodeList K) → deref l i ≡ some k → deref (moved i k l) j ≡ deref l j
  unfolding find
  deref-moved i j k l h = elim (ℕ_discrete i j) [
    | yes e ↦ ground (arith, find-cons_self ℕ_discrete i k (erase ℕ_discrete i l.nodes))
    | no n ↦
        find-cons_ne ℕ_discrete i j k (erase ℕ_discrete i l.nodes) n
        ∙ find-erase_ne ℕ_discrete j i l.nodes (λ e. n (sym e))
  ]

  module _ (m : List (K × V)) (l : NodeList K) (h : Linked dec it m l) where
    -- A stored iterator never dangles: the splice is defined, and keeps the links.
    pub splice_front-Linked :
        (k : K) (v : V)
        → find dec k m ≡ some v
        → (splice_front (it v) l ≡ some (moved (it v) k l)) × Linked dec it m (moved (it v) k l)
    unfolding splice_front
    splice_front-Linked k v e =
        let here = h.points k v e in
        let same = λ (j : ℕ). deref-moved (it v) j k l here in
        (
          rw (here, splice_front),
          record {
            keys_distinct = h.keys_distinct;
            nodes_distinct = (
              find-erase_self ℕ_discrete (it v) l.nodes h.nodes_distinct,
              erase-Distinct ℕ_discrete (it v) l.nodes h.nodes_distinct,
            );
            points = λ j w f. same (it w) ∙ h.points j w f;
            owned = λ i j f. h.owned i j (sym (same i) ∙ f);
            fresh = λ i f. same i ∙ h.fresh i f;
            same_size = omega (arith, h.same_size, length-erase ℕ_discrete (it v) k l.nodes here);
          },
        )

    pub push_front-Linked :
        (k : K) (v : V)
        → find dec k m ≡ none
        → it v ≡ l.next
        → Linked dec it ((k, v) ∷ m) (push_front k l)
    unfolding push_front find
    push_front-Linked k v absent e = record {
      keys_distinct = (absent, h.keys_distinct);
      nodes_distinct = (h.fresh l.next (omega arith), h.nodes_distinct);
      points = λ j w f. ground (arith, h.points j w, h.fresh (it w));
      owned = λ i j f. elim (ℕ_discrete l.next i) [
        | yes p ↦ (v, ground arith, e ∙ p)
        | no n ↦
            let (x, stored, at) =
              h.owned i j (sym (find-cons_ne ℕ_discrete l.next i k l.nodes n) ∙ f) in
            (x, ground arith, at)
      ];
      fresh = λ i f. ground (arith, h.fresh i);
      same_size = ap suc h.same_size;
    }

    pub erase_node-Linked :
        (k : K) (v : V)
        → find dec k m ≡ some v
        → (erase_node (it v) l ≡ some (without (it v) l))
          × Linked dec it (erase dec k m) (without (it v) l)
    unfolding erase_node
    erase_node-Linked k v e =
        let here = h.points k v e in
        (
          rw (here, erase_node),
          record {
            keys_distinct = erase-Distinct dec k m h.keys_distinct;
            nodes_distinct = erase-Distinct ℕ_discrete (it v) l.nodes h.nodes_distinct;
            points = λ j w f.
                let other : j ≢ k = λ q. cc (
                  find-erase_self dec k m h.keys_distinct,
                  ap (λ x. find dec x (erase dec k m)) q,
                ) in
                let at = h.points j w (sym (find-erase_ne dec j k m other) ∙ f) in
                find-erase_ne ℕ_discrete (it w) (it v) l.nodes
                  (λ q. other (ground (arith, ap (deref l) q)))
                ∙ at;
            owned = λ i j f.
                let other : i ≢ it v = λ q. cc (
                  find-erase_self ℕ_discrete (it v) l.nodes h.nodes_distinct,
                  ap (λ x. find ℕ_discrete x (erase ℕ_discrete (it v) l.nodes)) q,
                ) in
                let (x, stored, at) =
                  h.owned i j (sym (find-erase_ne ℕ_discrete i (it v) l.nodes other) ∙ f) in
                (
                  x,
                  find-erase_ne dec j k m (λ q. other (ground (arith, ap (λ y. find dec y m) q)))
                      ∙ stored,
                  at,
                );
            fresh = λ i f. elim (ℕ_discrete i (it v)) [
              | yes q ↦
                  ap (λ x. find ℕ_discrete x (erase ℕ_discrete (it v) l.nodes)) q
                  ∙ find-erase_self ℕ_discrete (it v) l.nodes h.nodes_distinct
              | no n ↦ find-erase_ne ℕ_discrete i (it v) l.nodes n ∙ h.fresh i f
            ];
            same_size = omega (
              arith,
              h.same_size,
              length-erase dec k v m e,
              length-erase ℕ_discrete (it v) k l.nodes here,
            );
          },
        )

    pub assign-Linked :
        (k : K) (v w : V) → find dec k m ≡ some w → it v ≡ it w → Linked dec it (assign dec k v m) l
    assign-Linked k v w e s = record {
      keys_distinct = assign-Distinct dec k v m h.keys_distinct;
      nodes_distinct = h.nodes_distinct;
      points = λ j x f. elim (dec j k) [
        | yes q ↦ ground (
          arith,
          find-assign_self dec k v w m e,
          ap (λ y. find dec y (assign dec k v m)) q,
          h.points k w e,
        )
        | no n ↦ h.points j x (sym (find-assign_ne dec j k v m n) ∙ f)
      ];
      owned = λ i j f.
          let (x, stored, at) = h.owned i j f in
          elim (dec j k) [
            | yes q ↦ (
              v,
              ap (λ y. find dec y (assign dec k v m)) q ∙ find-assign_self dec k v w m e,
              ground (arith, ap (λ y. find dec y m) q),
            )
            | no n ↦ (x, find-assign_ne dec j k v m n ∙ stored, at)
          ];
      fresh = h.fresh;
      same_size = length-assign dec k v m ∙ h.same_size;
    }

    -- The last node of the list belongs to an entry, and both can be dropped together.
    pub pop_back-Linked :
        (i : ℕ) (k : K)
        → last_node l.nodes ≡ some (i, k)
        → (v : V) × (find dec k m ≡ some v)
          × (it v ≡ i)
          × (back l ≡ some k)
          × (pop_back l ≡ some (without i l))
          × Linked dec it (erase dec k m) (without i l)
    unfolding back pop_back
    pop_back-Linked i k e =
        let here : deref l i ≡ some k = last_node-find l.nodes i k h.nodes_distinct e in
        let (v, stored, at) = h.owned i k here in
        let (erased, links) = erase_node-Linked k v stored in
        (
          v,
          stored,
          at,
          rw (e, back),
          rw (e, pop_back) (subst (λ j. erase_node j l ≡ some (without j l)) at erased),
          subst (λ j. Linked dec it (erase dec k m) (without j l)) at links,
        )
