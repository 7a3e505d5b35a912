-- ===== src/RateLimiter/Remaining.antt =====
-- rate_limiter.cpp, `get_remaining`: its value and its agreement with `is_allowed`.
use ip_server.Base.{
  inl, inr, subst, eq_of_some, ℕ, ◌-◌, ◌≤◌, ◌<◌, ◌≡◌, refl, sym, ◌∙◌, ◌↔◌, Bool, true, some, none,
  arith, length, Option-cases,
}
use ip_server.Base.Text.{Str, Str-discrete as dec}
use ip_server.Base.Int.{pos, pos_part, to_int_small}
use ip_server.Store.Dict.{find, length-assign, find-assign_cases}
use ip_server.Store.Linked.{assign-Linked}
use ip_server.RateLimiter.{
  RateLimiter, IpRecord, is_allowed, get_remaining, pop_old, cleanup_old_timestamps,
}
use ip_server.RateLimiter.Invariant.{IsValid, lru_it, length-pop_old-le}
use ip_server.RateLimiter.Window.{Sorted, recent, pop_old-recent}
use ip_server.RateLimiter.Decision.{is_allowed_decision}

module _ (s : RateLimiter) (h : IsValid s) (ip : Str) (now : ℕ) where
  get_remaining_known :
      (r : IpRecord)
      → find dec ip s.ip_records ≡ some r
      → (get_remaining ip now s).1
        ≡ pos (pos_part s.max_requests - length (pop_old s.window now r.timestamps))
  unfolding get_remaining cleanup_old_timestamps
  get_remaining_known r f =
      let small : length (pop_old s.window now r.timestamps) ≤ pos_part s.max_requests =
        omega (arith, length-pop_old-le s.window now r.timestamps, h.filled ip r f) in
      let cast = to_int_small (length (pop_old s.window now r.timestamps)) (omega arith) in
      rw (f, get_remaining) (rw cast (ground arith))

  -- The limiter that `get_remaining` leaves is valid.
  pub get_remaining-IsValid : IsValid (get_remaining ip now s).0
  unfolding get_remaining cleanup_old_timestamps
  get_remaining-IsValid = elim (Option-cases (find dec ip s.ip_records)) [
    | inl absent ↦ rw (absent, get_remaining) h
    | inr (r, f) ↦
        let r' = cleanup_old_timestamps s.window now r in
        rw (f, get_remaining)
          (record {
            links = assign-Linked dec lru_it s.ip_records s.lru_list h.links ip r' r f refl;
            bounded = omega (arith, h.bounded, length-assign dec ip r' s.ip_records);
            filled = λ j x g. elim (find-assign_cases dec j ip r' x s.ip_records g) [
              | inl (_, q) ↦
                  rw q (omega (arith, length-pop_old-le s.window now r.timestamps, h.filled ip r f))
              | inr (_, k) ↦ h.filled j x k
            ];
            int_range = h.int_range;
          })
  ]

  -- For a client with a record in order of time, `get_remaining` is the limit less the requests
  -- in the window before the call; for another client it is the limit.
  pub get_remaining_value :
      ((r : IpRecord)
        → find dec ip s.ip_records ≡ some r
        → Sorted r.timestamps
        → (get_remaining ip now s).1
          ≡ pos (pos_part s.max_requests - length (recent s.window now r.timestamps)))
      × (find dec ip s.ip_records ≡ none → (get_remaining ip now s).1 ≡ s.max_requests)
  unfolding get_remaining
  get_remaining_value = (
    λ r f sorted. rw (← pop_old-recent s.window now r.timestamps sorted) (get_remaining_known r f),
    λ absent. rw (absent, get_remaining),
  )

  -- A request is allowed exactly when `get_remaining`, asked at the reading at which the request
  -- cleans its record, is positive.
  pub allowed_iff_remaining :
      (start : ℕ) {t : RateLimiter} {b : Bool}
      → is_allowed ip start now s ≡ some (t, b)
      → ((r : IpRecord) → find dec ip s.ip_records ≡ some r → Sorted r.timestamps)
      → (b ≡ true) ↔ (0 < pos_part (get_remaining ip now s).1)
  allowed_iff_remaining start e sorted =
      let decision = is_allowed_decision s h ip start now e sorted in
      elim (Option-cases (find dec ip s.ip_records)) [
        | inl absent ↦
            let value = get_remaining_value.1 absent in
            (
              λ p. rw value ((decision.0 p).0),
              λ p. decision.1 (rw value at p, λ r f. absurd (cc f)),
            )
        | inr (r, f) ↦
            let value = get_remaining_value.0 r f (sorted r f) in
            (
              λ p. rw value (omega (arith, (decision.0 p).0, (decision.0 p).1 r f)),
              λ p.
                  let q = rw value at p in
                  decision.1 (
                    omega arith,
                    λ r' f'.
                        subst
                          (λ (x : IpRecord).
                            length (recent s.window now x.timestamps) < pos_part s.max_requests)
                          (eq_of_some (sym f ∙ f')) (omega arith),
                  ),
            )
      ]
