-- ===== src/MaxMind/Handles/Owner.antt =====
-- src/database/maxmind_database.cpp: `MaxMindDatabase` owns its file, whatever a program does with
-- its objects.
use ip_server.Base.{
  ℕ, ◌+◌, ◌≤◌, ◌≡◌, ◌≢◌, ◌⊎◌, ◌∙◌, sym, refl, List, [], Option, none, some, ◌==◌, arith, Bool, true,
  false, inl, inr, get_elem?, ℕ_discrete,
}
use ip_server.Store.Counted.{
  one_if, count, one_if_self, one_if_le, one_if_apart, take_one_lem, count-zero,
}
use ip_server.Store.Lifetimes.{IsOwner, Action, act_all, AllUse}
use ip_server.Store.Lifetimes.Safety.{act_all_lem, IsAccounted, Fine, held-none, held-alone}
use ip_server.Store.Lifetimes.Totals.{All-at}
use ip_server.MaxMind.{MaxMindDatabase, open_database, move_from}
use ip_server.MaxMind.Handles.{
  Files, close_file, construct_file, destroy_file, move_assign_file, maxmind_class,
}

abbrev left_behind : MaxMindDatabase ℕ
left_behind = record { mmdb = none; is_open = false }

-- A database is open on a file, or was moved from.
abbrev IsSound : MaxMindDatabase ℕ → Type 0
IsSound d = (d ≡ left_behind) ⊎ ((f : ℕ) × (d ≡ open_database f))

abbrev has_file : MaxMindDatabase ℕ → ℕ → ℕ
has_file d f = elim d.mmdb [ none ↦ 0 | some x ↦ one_if (f == x) ]

-- Each file is open as often as it is owned, once at most.
record IsKept (f : ℕ → ℕ) (w : Files) : Type 0 where
  kept : (x : ℕ) → count x w.files ≡ f x
  once : (x : ℕ) → f x ≤ 1
  fresh : (x : ℕ) → w.next ≤ x → f x ≡ 0

same_files : (f g : ℕ → ℕ) (w : Files) → ((x : ℕ) → f x ≡ g x) → IsKept f w → IsKept g w
same_files f g w e b = record {
  kept = λ x. b.kept x ∙ e x;
  once = λ x. rw (← e x) (b.once x);
  fresh = λ x h. sym (e x) ∙ b.fresh x h;
}

construct_file_lem :
    (f : ℕ → ℕ) (opens : Bool) (w : Files)
    → IsKept f w
    → ((t : Files) × (construct_file opens w ≡ some (none, t)) × IsKept f t)
      ⊎ ((d : MaxMindDatabase ℕ) × (t : Files) × (construct_file opens w ≡ some (some d, t))
          × IsSound d
          × IsKept (λ x. f x + has_file d x) t)
unfolding construct_file open_database count
construct_file_lem f false w b = inl (w, refl, b)
construct_file_lem f true w b = inr (
  open_database w.next,
  _,
  refl,
  inr (w.next, refl),
  record {
    kept = λ x. omega (arith, b.kept x);
    once = λ x. elim (ℕ_discrete x w.next) [
      | yes q ↦ omega (arith, q, b.fresh x (omega (arith, q)), one_if_le x w.next)
      | no n ↦ omega (arith, one_if_apart x w.next n, b.once x)
    ];
    fresh = λ x h.
        omega
          (arith, b.fresh x (omega (arith, h)), one_if_apart x w.next (λ q. omega (arith, h, q)));
  },
)

-- The destructor closes what the database owns.
destroy_file_lem :
    (f : ℕ → ℕ) (d : MaxMindDatabase ℕ) (w : Files)
    → IsSound d
    → IsKept (λ x. f x + has_file d x) w
    → (t : Files) × (destroy_file d w ≡ some t) × IsKept f t
unfolding destroy_file close_file open_database
destroy_file_lem f d w (inl q) b = (w, rw q refl, same_files _ f w (λ x. rw q (omega arith)) b)
destroy_file_lem f d w (inr (c, q)) b =
    let b' : IsKept (λ x. f x + one_if (x == c)) w = same_files _ _ w (λ x. rw q refl) b in
    let (left, e, k) = take_one_lem c w.files (omega (arith, b'.kept c, one_if_self c)) in
    (
      record w { files = left },
      rw q (rw e refl),
      record {
        kept = λ x. omega (arith, k x, b'.kept x);
        once = λ x. omega (arith, b'.once x);
        fresh = λ x h. omega (arith, b'.fresh x h);
      },
    )

move_from_lem :
    (d : MaxMindDatabase ℕ)
    → IsSound d
    → IsSound (move_from d).0
      × IsSound (move_from d).1
      × ((x : ℕ) → has_file (move_from d).0 x + has_file (move_from d).1 x ≡ has_file d x)
unfolding move_from
move_from_lem d p = (p, inl refl, λ x. omega arith)

move_assign_file_lem :
    (f : ℕ → ℕ) (d other : MaxMindDatabase ℕ) (w : Files)
    → IsSound d
    → IsSound other
    → IsKept (λ x. f x + has_file d x + has_file other x) w
    → (p : MaxMindDatabase ℕ × MaxMindDatabase ℕ) × (t : Files) × (move_assign_file false d other w
        ≡ some (p, t))
      × IsSound p.0
      × IsSound p.1
      × IsKept (λ x. f x + has_file p.0 x + has_file p.1 x) t
unfolding move_assign_file move_from destroy_file
move_assign_file_lem f d other w p p' b =
    let (t, r, b') =
      destroy_file_lem (λ x. f x + has_file other x) d w p
        (same_files _ _ w (λ x. omega arith) b) in
    ((other, left_behind), t, rw r refl, p', inl refl, same_files _ _ t (λ x. omega arith) b')

move_assign_file_self :
    (d : MaxMindDatabase ℕ) (w : Files) → move_assign_file true d d w ≡ some ((d, d), w)
unfolding move_assign_file
move_assign_file_self d w = refl

maxmind_owner : IsOwner maxmind_class
maxmind_owner = record {
  holds = has_file;
  IsProper = IsSound;
  Balanced = IsKept;
  same_balance = same_files;
  make_lem = construct_file_lem;
  destroy_lem = destroy_file_lem;
  move_new_lem = move_from_lem;
  move_to_lem = move_assign_file_lem;
  move_to_self = move_assign_file_self;
}

abbrev pub no_files : Files
no_files = record { next = 0; files = [] }

no_files-IsKept : IsKept (λ _. 0) no_files
unfolding count
no_files-IsKept = record { kept = λ x. refl; once = λ x. omega arith; fresh = λ x h. refl }

sound_alone :
    (os : List (Option (MaxMindDatabase ℕ))) (t : Files)
    → IsAccounted maxmind_owner os t
    → (i : ℕ) (d : MaxMindDatabase ℕ) → get_elem? os i ≡ some (some d)
    → (d ≡ (move_from d).1)
      ⊎ ((f : ℕ) × (d ≡ open_database f)
          × (count f t.files ≡ 1)
          × ((j : ℕ) → get_elem? os j ≡ some (some d) → i ≡ j))
unfolding open_database move_from maxmind_owner
sound_alone os t hb i d e = elim (All-at (Fine maxmind_owner) os i (some d) hb.0 e) [
  | inl q ↦ inl q
  | inr (f, q) ↦
      let own : has_file d f ≡ 1 = rw q (one_if_self f) in
      let (all, alone) = held-alone maxmind_owner os f (hb.1.once f) i d e own in
      inr (f, q, hb.1.kept f ∙ all, λ j k. alone j d k own)
]

-- Whatever a program does with variables of the class, as long as it uses only live ones: no file
-- is closed that is not open. A database that is left was moved from, or it has a file that is
-- open once, and no other variable has it. When no variable is left, no file is open.
pub maxmind_files_lem :
    (acts : List (Action Bool))
    → AllUse maxmind_class acts [] no_files
    → (os : List (Option (MaxMindDatabase ℕ))) × (t : Files) × (act_all maxmind_class acts []
          no_files
        ≡ some (os, t))
      × ((i : ℕ) (d : MaxMindDatabase ℕ)
          → get_elem? os i ≡ some (some d)
          → (d ≡ (move_from d).1)
            ⊎ ((f : ℕ) × (d ≡ open_database f)
                × (count f t.files ≡ 1)
                × ((j : ℕ) → get_elem? os j ≡ some (some d) → i ≡ j)))
      × (((i : ℕ) (d : MaxMindDatabase ℕ) → get_elem? os i ≢ some (some d)) → t.files ≡ [])
unfolding maxmind_owner
maxmind_files_lem acts u =
    let (os, t, run, hb) = act_all_lem maxmind_owner acts [] no_files (tt, no_files-IsKept) u in
    (
      os,
      t,
      run,
      λ i d e. sound_alone os t hb i d e,
      λ gone. count-zero t.files (λ x. hb.1.kept x ∙ held-none maxmind_owner os x gone),
    )
