-- ===== src/Metrics/Ranks.antt =====
-- metrics.cpp, `get_stats`: the percentiles.
use ip_server.Base.{
  ℕ, suc, ◌+◌, ◌-◌, ◌≤◌, ◌<◌, ◌≡◌, refl, subst, true, List, [], ◌∷◌, some, arith, length, get_elem?,
  get_elem?_of_lt,
}
use ip_server.Base.Real.{Real, IsOrdered}
use ip_server.Metrics.{Metrics}
use ip_server.Metrics.Stats.{Stats, sort, calculate_percentile, get_stats, fill_stats}
use ip_server.Metrics.Percentile.{
  count_if, length-sort, count_if-sort, sort-IsSorted, le_refl, at_or_below, at_or_above, sorted_le,
}

module _ (R : Real) (o : IsOrdered R) where
  -- The index of a percentile among `n` values.
  abbrev pub rank : ℕ → ℕ → ℕ
  rank percent n = R.trunc (R.mul (R.of_percent percent) (R.of_nat (n - 1)))

  -- More values than the rank are at or below `v`, and all but as many as the rank at or above it.
  abbrev pub IsRanked : ℕ → List R.Double → R.Double → Type 0
  IsRanked percent xs v =
      (suc (rank percent (length xs)) ≤ count_if (λ x. R.le x v) xs)
      × (length xs ≤ count_if (R.le v) xs + rank percent (length xs))

  module _ (x : R.Double) (xs : List R.Double) where
    abbrev all : List R.Double
    all = x ∷ xs

    rank_lt : (c : ℕ) → c ≤ 100 → rank c (length (sort R all)) < length (sort R all)
    rank_lt c h =
        let l = length-sort R all in omega (arith, l, o.part_le c (length (sort R all) - 1) h)

    percentile :
        (c : ℕ)
        → c ≤ 100
        → (v : R.Double) × (calculate_percentile R c all ≡ some v)
          × (get_elem? (sort R all) (rank c (length (sort R all))) ≡ some v)
          × IsRanked c all v
    unfolding calculate_percentile
    percentile c h =
        let zs = sort R all in
        let k = rank c (length zs) in
        let (v, e) = get_elem?_of_lt zs k (rank_lt c h) in
        let s = sort-IsSorted R o all in
        let below =
          subst (λ n. suc k ≤ n) (count_if-sort R (λ y. R.le y v) all)
            (at_or_below R o zs k v s e) in
        let above =
          subst (λ n. length zs ≤ n + k) (count_if-sort R (R.le v) all)
            (at_or_above R o zs k v s e) in
        (
          v,
          e,
          e,
          subst
              (λ n.
                (suc (rank c n) ≤ count_if (λ y. R.le y v) all)
                × (n ≤ count_if (R.le v) all + rank c n))
              (length-sort R all) (below, above),
        )

  abbrev Percentiles : List R.Double → Type 0
  Percentiles xs =
      (a : R.Double) × (b : R.Double) × (c : R.Double) × (calculate_percentile R 50 xs ≡ some a)
      × (calculate_percentile R 95 xs ≡ some b)
      × (calculate_percentile R 99 xs ≡ some c)
      × (R.le a b ≡ true)
      × (R.le b c ≡ true)
      × (0 < length xs → IsRanked 50 xs a × IsRanked 95 xs b × IsRanked 99 xs c)

  percentiles : (xs : List R.Double) → Percentiles xs
  unfolding calculate_percentile
  percentiles [] =
      let z = R.of_nat 0 in
      (z, z, z, refl, refl, refl, le_refl R o z, le_refl R o z, λ h. absurd (omega (arith, h)))
  percentiles (x ∷ xs) =
      let zs = sort R (x ∷ xs) in
      let s = sort-IsSorted R o (x ∷ xs) in
      let k = length zs - 1 in
      let (a, ea, ga, ra) = percentile x xs 50 (omega arith) in
      let (b, eb, gb, rb) = percentile x xs 95 (omega arith) in
      let (c, ec, gc, rc) = percentile x xs 99 (omega arith) in
      (
        a,
        b,
        c,
        ea,
        eb,
        ec,
        sorted_le R o zs (rank 50 (length zs)) (rank 95 (length zs)) a b s
            (o.part_mono 50 95 k (omega arith)) ga gb,
        sorted_le R o zs (rank 95 (length zs)) (rank 99 (length zs)) b c s
            (o.part_mono 95 99 k (omega arith)) gb gc,
        λ h. (ra, rb, rc),
      )

  -- The statistics are defined. The percentiles are in order, and each is of its rank among the
  -- latencies that are kept, if there are any.
  pub get_stats-IsRanked :
      (second now : ℕ) (m : Metrics R.Double)
      → (t : Stats R) × (get_stats R second now m ≡ some t)
        × (R.le t.p50_latency_ms t.p95_latency_ms ≡ true)
        × (R.le t.p95_latency_ms t.p99_latency_ms ≡ true)
        × (0 < length m.latencies
            → IsRanked 50 m.latencies t.p50_latency_ms
              × IsRanked 95 m.latencies t.p95_latency_ms
              × IsRanked 99 m.latencies t.p99_latency_ms)
  unfolding get_stats fill_stats
  get_stats-IsRanked second now m =
      let (a, b, c, ea, eb, ec, l, k, r) = percentiles m.latencies in
      (fill_stats R second now m a b c, rw (ea, eb, ec, get_stats) refl, l, k, r)
