-- ===== src/RateLimiter/Tracking.antt =====
-- rate_limiter.cpp against a log of the requests that it granted one client since the client's
-- record was made: each call keeps the deque and the log in step.
use ip_server.Base.{
  if_pos, if_neg, ℕ, ◌≤◌, ◌≡◌, sym, ap, ◌∙◌, ◌≢◌, inl, inr, ite, Bool, true, false, List, [], ◌∷◌,
  ◌++◌, some, none, arith, length, ltb, if◌then◌else◌, All, All-append, Bool-cases,
}
use ip_server.Base.Text.{Str, Str-discrete as dec}
use ip_server.Base.Int.{to_size}
use ip_server.Store.Dict.{
  emplace_absent, find, find-cons_cases, find-assign_cases, find-erase_cases,
}
use ip_server.RateLimiter.{RateLimiter, IpRecord, pop_old, add_record}
use ip_server.RateLimiter.Invariant.{IsValid}
use ip_server.RateLimiter.Window.{Sorted, pop_old_later, pop_old-append, Sorted-snoc, All-le_trans}
use ip_server.RateLimiter.Admission.{after_known, requests_after}
use ip_server.RateLimiter.Decision.{Outcome, refused, created, counted}

-- A call of `is_allowed`, with its two readings of the clock.
pub record Call : Type 0 where
  pub ip : Str
  pub now : ℕ
  pub later : ℕ

-- The readings follow one another, from `since` on.
abbrev pub Ordered : ℕ → List Call → Type 0
Ordered since [] = Unit {0}
Ordered since (c ∷ cs) = (since ≤ c.now) × (c.now ≤ c.later) × Ordered c.later cs

abbrev pub last_reading : ℕ → List Call → ℕ
last_reading since [] = since
last_reading since (c ∷ cs) = last_reading c.later cs

-- The log restarts with a new record.
abbrev pub log_after : Str → RateLimiter → Call → Bool → List ℕ → List ℕ
log_after who s c granted log =
    ite (dec c.ip who)
      (if granted
        then elim (find dec who s.ip_records) [ none ↦ c.now ∷ [] | some _ ↦ log ++ c.now ∷ [] ]
        else log)
      log

-- At any time from `since` on, cleaning the client's deque leaves what cleaning the log leaves.
pub record Tracks (who : Str) (s : RateLimiter) (since : ℕ) (log : List ℕ) : Type 0 where
  pub sorted : Sorted log
  pub past : All (λ t. t ≤ since) log
  pub suffix :
      (r : IpRecord)
      → find dec who s.ip_records ≡ some r
      → (at : ℕ) → since ≤ at
      → pop_old s.window at r.timestamps ≡ pop_old s.window at log

-- The record made for a new client.
abbrev pub first_record : ℕ → RateLimiter → IpRecord
first_record now s = record { timestamps = now ∷ []; lru_it = s.lru_list.next }

pub ip_records-add_record :
    (ip : Str) (now : ℕ) (s : RateLimiter)
    → find dec ip s.ip_records ≡ none
    → (add_record ip now s).ip_records ≡ (ip, first_record now s) ∷ s.ip_records
unfolding add_record
ip_records-add_record ip now s absent =
    emplace_absent dec ip (first_record now s) s.ip_records absent

module _ (s : RateLimiter) (h : IsValid s) (ip : Str) (now later : ℕ) where
  pub Outcome-window :
      {t : RateLimiter} {b : Bool} → Outcome s h ip now later t b → t.window ≡ s.window
  unfolding add_record
  Outcome-window (refused _ e _) = ap (λ x. x.window) e
  Outcome-window (created _ _ room _ (inl q) e _) = ap (λ x. x.window) e ∙ ap (λ x. x.window) q
  Outcome-window (created _ _ room _ (inr (i, k, _, q)) e _) =
      ap (λ x. x.window) e ∙ ap (λ x. x.window) q
  Outcome-window (counted _ r _ e _) = ap (λ x. x.window) e

  pub Outcome-limit :
      {t : RateLimiter} {b : Bool} → Outcome s h ip now later t b → t.max_requests ≡ s.max_requests
  unfolding add_record
  Outcome-limit (refused _ e _) = ap (λ x. x.max_requests) e
  Outcome-limit (created _ _ room _ (inl q) e _) =
      ap (λ x. x.max_requests) e ∙ ap (λ x. x.max_requests) q
  Outcome-limit (created _ _ room _ (inr (i, k, _, q)) e _) =
      ap (λ x. x.max_requests) e ∙ ap (λ x. x.max_requests) q
  Outcome-limit (counted _ r _ e _) = ap (λ x. x.max_requests) e

  -- A call never touches the record of another client, unless it drops it.
  pub Outcome-others :
      {t : RateLimiter} {b : Bool} (who : Str) (r : IpRecord)
      → Outcome s h ip now later t b
      → ip ≢ who
      → find dec who t.ip_records ≡ some r
      → find dec who s.ip_records ≡ some r
  Outcome-others who r (refused _ e _) other f = ap (λ x. find dec who x.ip_records) (sym e) ∙ f
  Outcome-others who r (created _ absent room none_in from e _) other f =
      let in_room : find dec who room.ip_records ≡ some r =
        elim (find-cons_cases dec ip who (first_record now room) r room.ip_records (
          sym (ap (find dec who) (ip_records-add_record ip now room none_in))
          ∙ ap (λ x. find dec who x.ip_records) (sym e)
          ∙ f)) [ inl (q, _) ↦ absurd (other q) | inr (_, g) ↦ g ] in
      elim from [
        | inl q ↦ ap (λ x. find dec who x.ip_records) (sym q) ∙ in_room
        | inr (i, k, _, q) ↦
            (find-erase_cases dec who k r s.ip_records h.links.keys_distinct
              (ap (λ x. find dec who x.ip_records) (sym q) ∙ in_room)).1
      ]
  Outcome-others who r (counted _ x _ e _) other f =
      elim (find-assign_cases dec who ip (record x { timestamps = requests_after s now later x }) r
        s.ip_records (ap (λ x. find dec who x.ip_records) (sym e) ∙ f)) [
          | inl (q, _) ↦ absurd (other (sym q))
          | inr (_, g) ↦ g
        ]

  module _ (who : Str) (since : ℕ) (log : List ℕ) (tr : Tracks who s since log) (le : since ≤ now)
      (le' : now ≤ later) where
    Tracks-other :
        {t : RateLimiter} {b : Bool}
        → Outcome s h ip now later t b
        → ip ≢ who
        → Tracks who t later log
    Tracks-other out other = record {
      sorted = tr.sorted;
      past = All-le_trans log since later (omega arith) tr.past;
      suffix = λ r f at q.
          rw (Outcome-window out) (tr.suffix r (Outcome-others who r out other f) at (omega arith));
    }

    Tracks-refused :
        {t : RateLimiter} {b : Bool} → Outcome s h ip now later t b → t ≡ s → Tracks who t later log
    Tracks-refused out e = record {
      sorted = tr.sorted;
      past = All-le_trans log since later (omega arith) tr.past;
      suffix = λ r f at q.
          rw (Outcome-window out)
            (tr.suffix r (ap (λ x. find dec who x.ip_records) (sym e) ∙ f) at (omega arith));
    }

    Tracks-created :
        {t : RateLimiter} (room : RateLimiter)
        → find dec ip room.ip_records ≡ none
        → t ≡ add_record ip now room
        → ip ≡ who
        → Tracks who t later (now ∷ [])
    Tracks-created {t} room none_in e q = record {
      sorted = (tt, tt);
      past = (le', tt);
      suffix = λ r f at _.
          elim (find-cons_cases dec ip who (first_record now room) r room.ip_records (
            sym (ap (find dec who) (ip_records-add_record ip now room none_in))
            ∙ ap (λ x. find dec who x.ip_records) (sym e)
            ∙ f)) [
              | inl (_, g) ↦ ap (λ (x : IpRecord). pop_old t.window at x.timestamps) g
              | inr (other, _) ↦ absurd (other q)
            ];
    }

    Tracks-counted :
        {t : RateLimiter} {b : Bool} (r : IpRecord)
        → find dec who s.ip_records ≡ some r
        → t ≡ after_known s ip now later r
        → b ≡ ltb (length (pop_old s.window later r.timestamps)) (to_size s.max_requests)
        → ip ≡ who
        → Tracks who t later (if b then log ++ now ∷ [] else log)
    Tracks-counted {t} {b} r f e d q = record {
      sorted = elim b as (λ x. Sorted (if x then log ++ now ∷ [] else log)) [
        | true ↦ Sorted-snoc log now tr.sorted (All-le_trans log since now le tr.past)
        | false ↦ tr.sorted
      ];
      past = elim b as (λ x. All (λ t. t ≤ later) (if x then log ++ now ∷ [] else log)) [
        | true ↦
            All-append (λ t. t ≤ later) log (now ∷ [])
              (All-le_trans log since later (omega arith) tr.past) (le', tt)
        | false ↦ All-le_trans log since later (omega arith) tr.past
      ];
      suffix = λ r' g at a.
          rw (ap (λ x. x.window) e)
            (elim (find-assign_cases dec who ip out r' s.ip_records
              (ap (λ x. find dec who x.ip_records) (sym e) ∙ g)) [
                | inl (_, v) ↦ ap (λ (x : IpRecord). pop_old s.window at x.timestamps) v ∙ kept at a
                | inr (other, _) ↦ absurd (other (sym q))
              ]);
    }
      where
        clean : List ℕ
        clean = pop_old s.window later r.timestamps

        out : IpRecord
        out = record r { timestamps = requests_after s now later r }

        agree : (at : ℕ) → later ≤ at → pop_old s.window at clean ≡ pop_old s.window at log
        agree at a = pop_old_later s.window later at r.timestamps a ∙ tr.suffix r f at (omega arith)

        kept :
            (at : ℕ)
            → later ≤ at
            → pop_old s.window at (requests_after s now later r)
              ≡ pop_old s.window at (if b then log ++ now ∷ [] else log)
        kept at a = rw d (elim (Bool-cases (ltb (length clean) (to_size s.max_requests))) [
          | inl y ↦ rw y (pop_old-append s.window at clean log (now ∷ []) (agree at a))
          | inr n ↦ rw n (agree at a)
        ])

  -- One call, whoever makes it.
  pub Tracks-step :
      {t : RateLimiter} {b : Bool} (who : Str) (since : ℕ) (log : List ℕ)
      → Tracks who s since log
      → since ≤ now
      → now ≤ later
      → Outcome s h ip now later t b
      → Tracks who t later (log_after who s (record { ip = ip; now = now; later = later }) b log)
  Tracks-step {t} {b} who since log tr le le' out = elim (dec ip who) [
    | no other ↦ rw (if_neg _ other) (Tracks-other who since log tr le le' out other)
    | yes same ↦ rw (if_pos _ same) (own same out)
  ]
    where
      own :
          ip ≡ who
          → Outcome s h ip now later t b
          → Tracks who t later (
              if b
              then elim (find dec who s.ip_records) [ none ↦ now ∷ [] | some _ ↦ log ++ now ∷ [] ]
              else log)
      own same (refused x e no_grant) =
          rw no_grant (Tracks-refused who since log tr le le' (refused x e no_grant) e)
      own same (created _ absent room none_in _ e grant) =
          rw (grant, ap (λ k. find dec k s.ip_records) (sym same) ∙ absent)
            (Tracks-created who since log tr le le' room none_in e same)
      own same (counted _ r f e d) =
          let f' = ap (λ k. find dec k s.ip_records) (sym same) ∙ f in
          rw f' (Tracks-counted who since log tr le le' r f' e d same)
