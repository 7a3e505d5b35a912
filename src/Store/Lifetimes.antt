-- ===== src/Store/Lifetimes.antt =====
-- Objects that own what a library has open, over any sequence of constructions, moves and
-- destructions. A component gives the operations of its class and the laws they keep.
pub mod Totals
pub mod Safety
use ip_server.Base.{
  ℕ, ◌+◌, ◌≡◌, Bool, true, false, List, [], ◌∷◌, ◌++◌, Option, none, some, ◌==◌, ◌>>=◌, ◌⊎◌,
  get_elem?, set,
}

-- The constructor makes an object or throws; `none` is a misuse of the library.
pub record Class (Object World Call : Type 0) : Type 0 where
  pub make : Call → World → Option (Option Object × World)
  pub unmake : Object → World → Option World
  pub move_new : Object → Object × Object
  pub move_to : (self : Bool) → Object → Object → World → Option ((Object × Object) × World)

-- `holds` counts what an object owns of each thing, and a world is in balance with the counts
-- of what is owned.
pub record IsOwner {Object World Call : Type 0} (C : Class Object World Call) : Type 1 where
  pub holds : Object → ℕ → ℕ
  pub IsProper : Object → Type 0
  pub Balanced : (ℕ → ℕ) → World → Type 0
  pub same_balance : (f g : ℕ → ℕ) (w : World) → ((c : ℕ) → f c ≡ g c) → Balanced f w → Balanced g w
  pub make_lem :
      (f : ℕ → ℕ) (call : Call) (w : World)
      → Balanced f w
      → ((t : World) × (C.make call w ≡ some (none, t)) × Balanced f t)
        ⊎ ((x : Object) × (t : World) × (C.make call w ≡ some (some x, t))
            × IsProper x
            × Balanced (λ c. f c + holds x c) t)
  pub destroy_lem :
      (f : ℕ → ℕ) (x : Object) (w : World)
      → IsProper x
      → Balanced (λ c. f c + holds x c) w
      → (t : World) × (C.unmake x w ≡ some t) × Balanced f t
  pub move_new_lem :
      (x : Object)
      → IsProper x
      → IsProper (C.move_new x).0
        × IsProper (C.move_new x).1
        × ((c : ℕ) → holds (C.move_new x).0 c + holds (C.move_new x).1 c ≡ holds x c)
  pub move_to_lem :
      (f : ℕ → ℕ) (x y : Object) (w : World)
      → IsProper x
      → IsProper y
      → Balanced (λ c. f c + holds x c + holds y c) w
      → (p : Object × Object) × (t : World) × (C.move_to false x y w ≡ some (p, t))
        × IsProper p.0
        × IsProper p.1
        × Balanced (λ c. f c + holds p.0 c + holds p.1 c) t
  pub move_to_self : (x : Object) (w : World) → C.move_to true x x w ≡ some ((x, x), w)

-- What a program does with the variables of the class, which are numbered as they are declared.
pub data Action (Call : Type 0) : Type 0 where
  declare : Call → Action Call
  declare_moved : (from : ℕ) → Action Call
  assign_moved : (to from : ℕ) → Action Call
  destruct : ℕ → Action Call

-- The object of a variable; it has none when the constructor threw or it was destructed.
unfoldable pub object_of : {Object : Type 0} → List (Option Object) → ℕ → Option Object
object_of os i = elim (get_elem? os i) [ none ↦ none | some o ↦ o ]

module _ {Object World Call : Type 0} (C : Class Object World Call) where
  unfoldable pub act :
      Action Call → List (Option Object) → World → Option (List (Option Object) × World)
  act (declare call) os w = do (o, t) ← C.make call w; some (os ++ o ∷ [], t)
  act (declare_moved i) os w = do
    x ← object_of os i
    some (set os i (some (C.move_new x).1) ++ some (C.move_new x).0 ∷ [], w)
  act (assign_moved i j) os w = do
    x ← object_of os i
    y ← object_of os j
    (p, t) ← C.move_to (i == j) x y w
    some (set (set os i (some p.0)) j (some p.1), t)
  act (destruct i) os w = do x ← object_of os i; t ← C.unmake x w; some (set os i none, t)

  unfoldable pub act_all :
      List (Action Call) → List (Option Object) → World → Option (List (Option Object) × World)
  act_all [] os w = some (os, w)
  act_all (a ∷ acts) os w = do (os', t) ← act a os w; act_all acts os' t

  -- Variables are used only while they have an object.
  abbrev pub Uses : Action Call → List (Option Object) → Type 0
  Uses (declare call) os = Unit
  Uses (declare_moved i) os = (x : Object) × (get_elem? os i ≡ some (some x))
  Uses (assign_moved i j) os =
      ((x : Object) × (get_elem? os i ≡ some (some x)))
      × ((y : Object) × (get_elem? os j ≡ some (some y)))
  Uses (destruct i) os = (x : Object) × (get_elem? os i ≡ some (some x))

  abbrev pub AllUse : List (Action Call) → List (Option Object) → World → Type 0
  AllUse [] os w = Unit
  AllUse (a ∷ acts) os w =
      Uses a os
      × ((os' : List (Option Object)) (t : World) → act a os w ≡ some (os', t) → AllUse acts os' t)
