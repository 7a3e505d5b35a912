-- ===== src/RateLimiter/Decision.antt =====
-- rate_limiter.cpp, `is_allowed` as a whole: it is defined on every valid limiter, keeps the
-- invariant, and decides by the recent requests of the client.
use ip_server.Base.{
  eq_of_some, ◌∙◌, sym, subst, ◌↔◌, ℕ, ◌<◌, ◌≡◌, refl, ap, ◌⊎◌, inl, inr, Bool, true, false, none,
  some, arith, length, ltb, Bool-cases, Option-cases, ltb→lt, lt→ltb,
}
use ip_server.Base.Int.{pos, pos_part, leb_ℤ, to_size, to_size-pos_part}
use ip_server.Base.Text.{Str, Str-discrete as dec}
use ip_server.Store.Dict.{find}
use ip_server.Store.NodeList.{last_node}
use ip_server.RateLimiter.{RateLimiter, IpRecord, pop_old, add_record, is_allowed}
use ip_server.RateLimiter.Window.{Sorted, recent, pop_old-recent}
use ip_server.RateLimiter.Invariant.{IsValid, evicted}
use ip_server.RateLimiter.Admission.{after_known, admit_known_lem, after_known-IsValid, room_for}

module _ (s : RateLimiter) (h : IsValid s) (ip : Str) (now later : ℕ) where
  -- What a call of `is_allowed` may do: refuse without a look where the limit is not positive,
  -- make a record for a new client, after an eviction if the limiter is full, or count.
  pub data Outcome (t : RateLimiter) (b : Bool) : Type 0 where
    refused : pos_part s.max_requests ≡ 0 → t ≡ s → b ≡ false → Outcome t b
    created :
        0 < pos_part s.max_requests
        → find dec ip s.ip_records ≡ none
        → (room : RateLimiter) → find dec ip room.ip_records ≡ none
        → (room ≡ s)
          ⊎ ((i : ℕ) × (k : Str) × (last_node s.lru_list.nodes ≡ some (i, k))
              × (room ≡ evicted i k s))
        → t ≡ add_record ip now room
        → b ≡ true
        → Outcome t b
    counted :
        0 < pos_part s.max_requests
        → (r : IpRecord) → find dec ip s.ip_records ≡ some r
        → t ≡ after_known s ip now later r
        → b ≡ ltb (length (pop_old s.window later r.timestamps)) (to_size s.max_requests)
        → Outcome t b

  pub is_allowed-Outcome :
      (t : RateLimiter) × (b : Bool) × (is_allowed ip now later s ≡ some (t, b))
      × IsValid t
      × Outcome t b
  unfolding is_allowed
  is_allowed-Outcome = elim (Bool-cases (leb_ℤ s.max_requests (pos 0))) [
    | inl off ↦ (s, false, rw (off, is_allowed), h, refused (ground arith) refl refl)
    | inr on ↦
        let positive : 0 < pos_part s.max_requests = ground arith in
        elim (Option-cases (find dec ip s.ip_records)) [
          | inl absent ↦
              let (t, e, valid, still, from) = room_for s h ip now later absent positive in
              (
                add_record ip now t,
                true,
                rw (on, is_allowed) (rw absent (rw e)),
                valid,
                created positive absent t still from refl refl,
              )
          | inr (r, e) ↦ (
            after_known s ip now later r,
            ltb (length (pop_old s.window later r.timestamps)) (to_size s.max_requests),
            rw (on, is_allowed) (rw e (admit_known_lem s h ip now later r e)),
            after_known-IsValid s h ip now later r e positive,
            counted positive r e refl refl,
          )
        ]
  ]

  -- `is_allowed` on a valid limiter is defined (no dangling iterator, no `back()` of an empty
  -- list), and the limiter it leaves is valid.
  pub is_allowed_total :
      (t : RateLimiter) × (b : Bool) × (is_allowed ip now later s ≡ some (t, b)) × IsValid t
  is_allowed_total = let (t, b, e, valid, _) = is_allowed-Outcome in (t, b, e, valid)

  -- The same for a result that is at hand.
  pub of_is_allowed :
      {t : RateLimiter} {b : Bool}
      → is_allowed ip now later s ≡ some (t, b)
      → IsValid t × Outcome t b
  of_is_allowed {t} {b} e =
      let (t', b', e', valid, out) = is_allowed-Outcome in
      let same : ◌≡◌ {A = RateLimiter × Bool} (t', b') (t, b) = eq_of_some (sym e' ∙ e) in
      (
        subst IsValid (ap (λ p. p.0) same) valid,
        subst (λ (p : RateLimiter × Bool). Outcome p.0 p.1) same out,
      )

  -- A request is allowed exactly when the limit is positive and the client is new or has fewer
  -- requests than the limit in the window before it.
  pub is_allowed_decision :
      {t : RateLimiter} {b : Bool}
      → is_allowed ip now later s ≡ some (t, b)
      → ((r : IpRecord) → find dec ip s.ip_records ≡ some r → Sorted r.timestamps)
      → (b ≡ true) ↔ (
          (0 < pos_part s.max_requests)
          × ((r : IpRecord)
              → find dec ip s.ip_records ≡ some r
              → length (recent s.window later r.timestamps) < pos_part s.max_requests))
  is_allowed_decision e sorted = elim (of_is_allowed e).1 [
    | refused off _ q ↦ (λ p. absurd (cc), λ p. absurd (omega arith))
    | created positive absent _ _ _ _ q ↦ (λ _. (positive, λ r f. absurd (cc f)), λ _. q)
    | counted positive r f _ q ↦
        let clean = pop_old-recent s.window later r.timestamps (sorted r f) in
        let size = to_size-pos_part s.max_requests positive h.int_range in
        (
          λ p. (
            positive,
            λ r' g.
                subst
                  (λ (x : IpRecord).
                    length (recent s.window later x.timestamps) < pos_part s.max_requests)
                  (eq_of_some (sym f ∙ g))
                  (rw (← clean) (omega (arith, size, ltb→lt _ _ (sym q ∙ p)))),
          ),
          λ p. q ∙ lt→ltb _ _ (omega (arith, size, ap length clean, p.1 r f)),
        )
  ]
