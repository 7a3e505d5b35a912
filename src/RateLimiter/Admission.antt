-- ===== src/RateLimiter/Admission.antt =====
-- rate_limiter.cpp, `is_allowed`: it is defined on every valid limiter, decides by the recent
-- requests of the client, and keeps the invariant.
use ip_server.Base.{
  ℕ, ◌+◌, ◌-◌, ◌≤◌, ◌<◌, ◌≡◌, refl, ap, ◌⊎◌, inl, inr, List, [], ◌∷◌, ◌++◌, none, some, arith,
  length, ltb, leb, if◌then◌else◌, Bool-cases, length-append, ltb→lt,
}
use ip_server.Base.Int.{pos_part, to_size, to_size-pos_part}
use ip_server.Base.Text.{Str, Str-discrete as dec}
use ip_server.Store.Dict.{
  find, erase, assign, emplace, find-cons_cases, find-assign_cases, find-erase-none, length-assign,
}
use ip_server.Store.NodeList.{last_node}
use ip_server.Store.Linked.{moved, splice_front-Linked, push_front-Linked, assign-Linked}
use ip_server.RateLimiter.{
  RateLimiter, IpRecord, pop_old, cleanup_old_timestamps, add_record, admit_new, admit_known,
}
use ip_server.RateLimiter.Invariant.{IsValid, lru_it, length-pop_old-le, evicted, evict_lru_lem}

pub add_record-IsValid :
    (ip : Str) (now : ℕ) (s : RateLimiter)
    → IsValid s
    → find dec ip s.ip_records ≡ none
    → length s.ip_records < s.max_ip_records + (1 - s.max_ip_records)
    → 0 < pos_part s.max_requests
    → IsValid (add_record ip now s)
unfolding add_record emplace
add_record-IsValid ip now s h absent room positive =
    let r : IpRecord = record { timestamps = now ∷ []; lru_it = s.lru_list.next } in
    let filled : (j : Str) (x : IpRecord)
        → find dec j ((ip, r) ∷ s.ip_records) ≡ some x
        → length x.timestamps ≤ pos_part s.max_requests =
      λ j x f. elim (find-cons_cases dec ip j r x s.ip_records f) [
        | inl (_, e) ↦ rw e (omega arith)
        | inr (_, g) ↦ h.filled j x g
      ] in
    rw (absent, add_record, emplace)
      (record {
        links = push_front-Linked dec lru_it s.ip_records s.lru_list h.links ip r absent refl;
        bounded = room;
        filled = filled;
        int_range = h.int_range;
      })

-- What is left of the client's timestamps, with the new one if there is room for it.
abbrev pub requests_after : RateLimiter → ℕ → ℕ → IpRecord → List ℕ
requests_after s now later r =
    let clean = pop_old s.window later r.timestamps in
    if ltb (length clean) (to_size s.max_requests) then clean ++ now ∷ [] else clean

abbrev pub after_known : RateLimiter → Str → ℕ → ℕ → IpRecord → RateLimiter
after_known s ip now later r = record s {
  ip_records = assign dec ip (record r { timestamps = requests_after s now later r }) s.ip_records;
  lru_list = moved r.lru_it ip s.lru_list;
}

module _ (s : RateLimiter) (h : IsValid s) (ip : Str) (now later : ℕ) where
  pub admit_known_lem :
      (r : IpRecord)
      → find dec ip s.ip_records ≡ some r
      → admit_known ip now later r s
        ≡ some (
          after_known s ip now later r,
          ltb (length (pop_old s.window later r.timestamps)) (to_size s.max_requests),
        )
  unfolding admit_known cleanup_old_timestamps
  admit_known_lem r e =
      let defined = (splice_front-Linked dec lru_it s.ip_records s.lru_list h.links ip r e).0 in
      ground (arith, defined)

  length-requests_after :
      (r : IpRecord)
      → find dec ip s.ip_records ≡ some r
      → 0 < pos_part s.max_requests
      → length (requests_after s now later r) ≤ pos_part s.max_requests
  length-requests_after r e positive =
      let clean = pop_old s.window later r.timestamps in
      elim (Bool-cases (ltb (length clean) (to_size s.max_requests))) [
        | inl less ↦ rw less (
            omega (
              arith,
              ltb→lt _ _ less,
              to_size-pos_part s.max_requests positive h.int_range,
              length-append clean (now ∷ []),
            ))
        | inr more ↦
            rw more (omega (arith, h.filled ip r e, length-pop_old-le s.window later r.timestamps))
      ]

  pub after_known-IsValid :
      (r : IpRecord)
      → find dec ip s.ip_records ≡ some r
      → 0 < pos_part s.max_requests
      → IsValid (after_known s ip now later r)
  after_known-IsValid r e positive =
      let r' : IpRecord = record r { timestamps = requests_after s now later r } in
      let order = (splice_front-Linked dec lru_it s.ip_records s.lru_list h.links ip r e).1 in
      record {
        links =
            assign-Linked dec lru_it s.ip_records (moved r.lru_it ip s.lru_list) order ip r' r e
              refl;
        bounded = omega (arith, h.bounded, length-assign dec ip r' s.ip_records);
        filled = λ j x f. elim (find-assign_cases dec j ip r' x s.ip_records f) [
          | inl (_, q) ↦ rw q (length-requests_after r e positive)
          | inr (_, g) ↦ h.filled j x g
        ];
        int_range = h.int_range;
      }

  -- The limiter in which a new client gets its record.
  pub room_for :
      find dec ip s.ip_records ≡ none
      → 0 < pos_part s.max_requests
      → (t : RateLimiter) × (admit_new ip now s ≡ some (add_record ip now t))
        × IsValid (add_record ip now t)
        × (find dec ip t.ip_records ≡ none)
        × ((t ≡ s)
            ⊎ ((i : ℕ) × (k : Str) × (last_node s.lru_list.nodes ≡ some (i, k))
                × (t ≡ evicted i k s)))
  unfolding admit_new
  room_for absent positive = elim (Bool-cases (leb s.max_ip_records (length s.ip_records))) [
    | inr less ↦ (
      s,
      rw (less, admit_new),
      add_record-IsValid ip now s h absent (ground arith) positive,
      absent,
      inl refl,
    )
    | inl full ↦ elim (evict_lru_lem s h) [
      | inl (nobody, e) ↦ (
        s,
        rw (full, admit_new) (rw e),
        add_record-IsValid ip now s h absent (omega (arith, ap length nobody)) positive,
        absent,
        inl refl,
      )
      | inr (i, k, last, e, valid, fewer) ↦
          let gone : find dec ip (erase dec k s.ip_records) ≡ none =
            find-erase-none dec ip k s.ip_records absent in
          (
            evicted i k s,
            rw (full, admit_new) (rw e),
            add_record-IsValid ip now (evicted i k s) valid gone (omega (arith, h.bounded))
                positive,
            gone,
            inr (i, k, last, refl),
          )
    ]
  ]
