-- ===== src/Store/NodeList.antt =====
-- `std::list`, with the identity of its nodes: an iterator is the number of the node it points
-- to, stays valid while other nodes come and go, and dangles once its own node is erased.
-- A call through a dangling iterator is undefined behaviour, here `none`.
use ip_server.Base.{ℕ, suc, ◌≡◌, refl, List, [], ◌∷◌, Option, none, some, arith, ℕ_discrete}
use ip_server.Store.Dict.{find, erase, Distinct}

-- The nodes from front to back, and the number of the next node to be allocated.
pub record NodeList (A : Type 0) : Type 0 where
  pub nodes : List (ℕ × A)
  pub next : ℕ

module _ {A : Type 0} where
  abbrev pub empty_list : NodeList A
  empty_list = record { nodes = []; next = 0 }

  -- The element that an iterator points to.
  abbrev pub deref : NodeList A → ℕ → Option A
  deref l it = find ℕ_discrete it l.nodes

  -- `push_front`; afterwards `begin()` is the node numbered `l.next`.
  unfoldable pub push_front : A → NodeList A → NodeList A
  push_front a l = record { nodes = (l.next, a) ∷ l.nodes; next = suc l.next }

  -- `l.splice(l.begin(), l, it)`: the node moves to the front and keeps its identity.
  unfoldable pub splice_front : ℕ → NodeList A → Option (NodeList A)
  splice_front it l = elim (deref l it) [
    | none ↦ none
    | some a ↦ some (record l { nodes = (it, a) ∷ erase ℕ_discrete it l.nodes })
  ]

  -- `l.erase(it)`.
  unfoldable pub erase_node : ℕ → NodeList A → Option (NodeList A)
  erase_node it l = elim (deref l it) [
    | none ↦ none
    | some a ↦ some (record l { nodes = erase ℕ_discrete it l.nodes })
  ]

  -- The last node and its element.
  unfoldable pub last_node : List (ℕ × A) → Option (ℕ × A)
  last_node [] = none
  last_node (n ∷ []) = some n
  last_node (n ∷ n' ∷ ns) = last_node (n' ∷ ns)

  -- `back()`, undefined on an empty list.
  unfoldable pub back : NodeList A → Option A
  unfolding last_node
  back l = elim (last_node l.nodes) [ none ↦ none | some (_, a) ↦ some a ]

  -- `pop_back()`, undefined on an empty list.
  unfoldable pub pop_back : NodeList A → Option (NodeList A)
  unfolding last_node erase_node
  pop_back l = elim (last_node l.nodes) [ none ↦ none | some (it, _) ↦ erase_node it l ]

  pub last_node-find :
      (ns : List (ℕ × A)) (it : ℕ) (a : A)
      → Distinct ℕ_discrete ns
      → last_node ns ≡ some (it, a)
      → find ℕ_discrete it ns ≡ some a
  unfolding last_node find
  last_node-find [] it a d h = cc
  last_node-find ((i, b) ∷ []) it a d h = ground arith
  last_node-find ((i, b) ∷ n ∷ ns) it a d h = ground (arith, last_node-find (n ∷ ns) it a d.1 h)

  pub last_node-cons : (n : ℕ × A) (ns : List (ℕ × A)) → (m : ℕ × A) × (last_node (n ∷ ns) ≡ some m)
  unfolding last_node
  last_node-cons n [] = (n, refl)
  last_node-cons n (n' ∷ ns) = last_node-cons n' ns
