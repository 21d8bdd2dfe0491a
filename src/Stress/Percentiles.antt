-- ===== src/Stress/Percentiles.antt =====
-- The reads of percentile_ms and the bar of print_progress in socket_test/stress_test_client.c.
use linux_system_programing.Prelude.{
  ℕ, zero, suc, ◌+◌, ◌-◌, ◌^◌, ◌≤◌, ◌<◌, ◌≡◌, refl, sym, ◌∙◌, ap, List, [], ◌∷◌, length,
  length-take, take, get_or, ltb, ltb→lt, ltb→le, lt→ltb, if◌then◌else◌, arith, Bool-cases, inl,
  inr,
}
use linux_system_programing.Stress.Client.{Stats}
use linux_system_programing.Stress.Report.{
  Doubles, compare_uint64, is_negative, is_positive, IsComparison, AllAbove, IsSorted, occurrences,
  Sorting, sorted_copy, position, neighbours, percent_of, filled_of, bar, print_progress,
}

-- The comparison gives no positive number exactly for x ≤ y.
not_above : (x y : ℕ) → is_positive (compare_uint64 x y) ≡ ltb y x
unfolding compare_uint64
not_above x y = ground arith

opposite_sign : (x y : ℕ) → is_negative (compare_uint64 x y) ≡ is_positive (compare_uint64 y x)
unfolding compare_uint64
opposite_sign x y = ground arith

compare_uint64-IsComparison : IsComparison compare_uint64
compare_uint64-IsComparison = record {
  opposite = opposite_sign;
  same = λ x. not_above x x ∙ ground arith;
  transitive =
      λ x y z h k. not_above x z ∙ ground (arith, sym (not_above x y) ∙ h, sym (not_above y z) ∙ k);
}

-- An element of a sorted list is not above the next.
above_all :
    (x : ℕ) (xs : List ℕ) (i : ℕ) → AllAbove compare_uint64 x xs → i < length xs → x ≤ get_or xs i 0
above_all x [] i h k = absurd (omega arith)
above_all x (y ∷ ys) zero h k = ltb→le y x (sym (not_above x y) ∙ h.0)
above_all x (y ∷ ys) (suc i) h k = above_all x ys i h.1 (omega arith)

sorted_step :
    (xs : List ℕ) (i : ℕ)
    → IsSorted compare_uint64 xs
    → suc i < length xs
    → get_or xs i 0 ≤ get_or xs (suc i) 0
sorted_step [] i h k = absurd (omega arith)
sorted_step (x ∷ xs) zero h k = above_all x xs 0 h.0 (omega arith)
sorted_step (x ∷ xs) (suc i) h k = sorted_step xs i h.1 (omega arith)

-- What stands at an index occurs.
get_or-occurs : (xs : List ℕ) (i : ℕ) → i < length xs → 0 < occurrences (get_or xs i 0) xs
get_or-occurs [] i h = absurd (omega arith)
get_or-occurs (x ∷ xs) zero h = ground arith
get_or-occurs (x ∷ xs) (suc i) h = omega (arith, get_or-occurs xs i (omega arith))

-- Where a percentile reads: inside the copy, two samples in order, neighbours or the last.
pub record Reads (samples tmp : List ℕ) (i j : ℕ) : Type 0 where
  pub in_copy : (i < length tmp) × (j < length tmp)
  pub next_or_last : (i ≤ j) × (j ≤ i + 1) × (j ≡ i → i + 1 ≡ length tmp)
  pub in_order : get_or tmp i 0 ≤ get_or tmp j 0
  pub recorded :
      (0 < occurrences (get_or tmp i 0) samples) × (0 < occurrences (get_or tmp j 0) samples)

-- For a percentile up to 100, and latencies of which at least one and fewer than 2 ^ 53 are recorded, inside
-- their array: percentile_ms reads its sorted copy inside its bounds, at an index and the next one, or twice at
-- the last; what it reads are recorded latencies, the first not above the second.
pub neighbours-Reads :
    (d : Doubles) (q : Sorting) (s : Stats) (percentile : ℕ)
    → percentile ≤ 100
    → 0 < s.latency_count
    → s.latency_count < 2 ^ 53
    → s.latency_count ≤ length s.latencies_ns
    → let (i, j) = neighbours d percentile s.latency_count in
      Reads (take s.latency_count s.latencies_ns) (sorted_copy d q s) i j
unfolding neighbours
neighbours-Reads d q s percentile most some_samples few inside =
    elim (Bool-cases (ltb (i + 1) s.latency_count)) [
      | inl more ↦
          rw (more, next)
            (record {
              in_copy = (omega (arith, low, size), omega (arith, low, size, ltb→lt _ _ more));
              next_or_last = (
                omega (arith, low, size),
                omega (arith, low, size),
                λ e. absurd (omega (arith, low, size)),
              );
              in_order = sorted_step tmp i ordered (omega (arith, low, size, ltb→lt _ _ more));
              recorded = (
                occurs i (omega (arith, low, size)),
                occurs (suc i) (omega (arith, low, size, ltb→lt _ _ more)),
              );
            })
      | inr last ↦ rw last (record {
        in_copy = (omega (arith, low, size), omega (arith, low, size));
        next_or_last = (
          omega (arith, low, size),
          omega (arith, low, size),
          λ e. omega (arith, low, size, ltb→le _ _ last),
        );
        in_order = omega (arith, low, size);
        recorded = (occurs i (omega (arith, low, size)), occurs i (omega (arith, low, size)));
      })
    ]
  where
    samples : List ℕ
    samples = take s.latency_count s.latencies_ns

    tmp : List ℕ
    tmp = sorted_copy d q s

    i : ℕ
    i = d.trunc (position d percentile s.latency_count)

    next : i + 1 ≡ suc i
    next = omega arith

    size : length tmp ≡ s.latency_count
    size =
        omega
          (arith, q.same_length compare_uint64 samples, length-take s.latency_count s.latencies_ns)

    low : i ≤ s.latency_count - 1
    low = d.trunc_le (position d percentile s.latency_count) (s.latency_count - 1) (omega arith) (
        d.mul_le (d.div (d.of percentile) (d.of 100)) (s.latency_count - 1)
          (d.div_le_one percentile 100 most (omega arith)))

    ordered : IsSorted compare_uint64 tmp
    ordered = q.sorted compare_uint64 samples compare_uint64-IsComparison

    occurs : (k : ℕ) → k < length tmp → 0 < occurrences (get_or tmp k 0) samples
    occurs k h =
        omega
          (arith, q.same_elements compare_uint64 samples (get_or tmp k 0), get_or-occurs tmp k h)

length-bar : (d : Doubles) (f n i : ℕ) → length (bar d f n i) ≡ n
unfolding bar
length-bar d f zero i = refl
length-bar d f (suc n) i = ap suc (length-bar d f n (i + 1))

get_or-bar :
    (d : Doubles) (f n i k : ℕ)
    → k < n
    → get_or (bar d f n i) k 0 ≡ (if ltb (k + i) f then b'#' else b'-')
unfolding bar
get_or-bar d f zero i k h = absurd (omega arith)
get_or-bar d f (suc n) i zero h = let e : 0 + i ≡ i = omega arith in rw e refl
get_or-bar d f (suc n) i (suc k) h =
    let e : suc k + i ≡ k + (i + 1) = omega arith in rw e (get_or-bar d f n (i + 1) k (omega arith))

filled_of-le : (d : Doubles) (x : d.Double) → filled_of d x ≤ 40
unfolding filled_of
filled_of-le d x = ground arith

-- At the end.
filled_of-all : (d : Doubles) (total : ℕ) → 0 < total → filled_of d (percent_of d total total) ≡ 40
unfolding filled_of percent_of
filled_of-all d total h =
    rw
      (
        lt→ltb 0 total h,
        d.div_same total h,
        d.mul_one 100,
        d.lt_of 100 100 (omega arith) (omega arith),
        d.div_same 100 (omega arith),
        d.mul_one 40,
        d.trunc_of 40 (omega arith),
      )
      refl

-- print_progress writes 40 characters, first '#' and then '-', and none but '#' when all of at least one
-- request are completed.
print_progress-bar :
    (d : Doubles) (completed total : ℕ)
    → (length (print_progress d completed total).0 ≡ 40)
      × ((f : ℕ) × (f ≤ 40)
          × (completed ≡ total → 0 < total → f ≡ 40)
          × ((k : ℕ)
              → k < 40
              → get_or (print_progress d completed total).0 k 0 ≡ (if ltb k f then b'#' else b'-')))
unfolding print_progress
print_progress-bar d completed total =
    let f = filled_of d (percent_of d completed total) in
    (
      length-bar d f 40 0,
      (
        f,
        filled_of-le d (percent_of d completed total),
        λ e h. ap (λ c. filled_of d (percent_of d c total)) e ∙ filled_of-all d total h,
        λ k h.
            let e : k + 0 ≡ k = omega arith in
            get_or-bar d f 40 0 k h ∙ ap (λ (m : ℕ). if ltb m f then b'#' else b'-') e,
      ),
    )
