-- ===== src/Stress/Report.antt =====
-- The report of socket_test/stress_test_client.c: the percentiles of the latencies and the progress bar.
-- `double` and qsort() are taken from outside, by what IEEE 754 and the C standard say of them.
use linux_system_programing.Prelude.{
  ℕ, zero, suc, ◌+◌, ◌-◌, ◌^◌, ◌≤◌, ◌<◌, ◌≡◌, List, [], ◌∷◌, length, take, get_or, Bool, true,
  false, ltb, ◌==◌, if◌then◌else◌,
}
use linux_system_programing.Stress.Client.{Stats}
use linux_system_programing.Stress.Program.{ℤ, pos, negsuc}

-- The `double` numbers that are not negative; `of` converts an integer, `trunc` is the cast to one.
pub record Doubles : Type 1 where
  pub Double : Type 0
  pub of : ℕ → Double
  pub trunc : Double → ℕ
  pub add : Double → Double → Double
  pub sub : Double → Double → Double
  pub mul : Double → Double → Double
  pub div : Double → Double → Double
  pub lt : Double → Double → Bool
  pub le : Double → Double → Type 0
  pub div_le_one : (a b : ℕ) → a ≤ b → 0 < b → le (div (of a) (of b)) (of 1)
  pub div_same : (a : ℕ) → 0 < a → div (of a) (of a) ≡ of 1
  pub mul_le : (x : Double) (n : ℕ) → le x (of 1) → le (mul x (of n)) (of n)
  pub mul_one : (n : ℕ) → mul (of 1) (of n) ≡ of n
  pub trunc_le : (x : Double) (n : ℕ) → n < 2 ^ 53 → le x (of n) → trunc x ≤ n
  pub trunc_of : (n : ℕ) → n < 2 ^ 53 → trunc (of n) ≡ n
  pub lt_of : (a b : ℕ) → a < 2 ^ 53 → b < 2 ^ 53 → lt (of a) (of b) ≡ ltb a b

unfoldable pub compare_uint64 : ℕ → ℕ → ℤ
compare_uint64 x y = if ltb x y then negsuc 0 else if ltb y x then pos 1 else pos 0

abbrev pub is_negative : ℤ → Bool
is_negative (pos n) = false
is_negative (negsuc n) = true

abbrev pub is_positive : ℤ → Bool
is_positive (pos zero) = false
is_positive (pos (suc n)) = true
is_positive (negsuc n) = false

-- What qsort() asks of its comparison: its signs are those of an order.
pub record IsComparison (cmp : ℕ → ℕ → ℤ) : Type 0 where
  pub opposite : (x y : ℕ) → is_negative (cmp x y) ≡ is_positive (cmp y x)
  pub same : (x : ℕ) → is_positive (cmp x x) ≡ false
  pub transitive :
      (x y z : ℕ)
      → is_positive (cmp x y) ≡ false
      → is_positive (cmp y z) ≡ false
      → is_positive (cmp x z) ≡ false

-- No element is above a later one.
abbrev pub AllAbove : (ℕ → ℕ → ℤ) → ℕ → List ℕ → Type 0
AllAbove cmp x [] = Unit {0}
AllAbove cmp x (y ∷ ys) = (is_positive (cmp x y) ≡ false) × AllAbove cmp x ys

abbrev pub IsSorted : (ℕ → ℕ → ℤ) → List ℕ → Type 0
IsSorted cmp [] = Unit {0}
IsSorted cmp (x ∷ xs) = AllAbove cmp x xs × IsSorted cmp xs

-- how often a number stands in a list
abbrev pub occurrences : ℕ → List ℕ → ℕ
occurrences a [] = 0
occurrences a (x ∷ xs) = (if x == a then 1 else 0) + occurrences a xs

-- qsort()
pub record Sorting : Type 0 where
  pub qsort : (ℕ → ℕ → ℤ) → List ℕ → List ℕ
  pub same_length : (cmp : ℕ → ℕ → ℤ) (xs : List ℕ) → length (qsort cmp xs) ≡ length xs
  pub same_elements :
      (cmp : ℕ → ℕ → ℤ) (xs : List ℕ) (a : ℕ) → occurrences a (qsort cmp xs) ≡ occurrences a xs
  pub sorted : (cmp : ℕ → ℕ → ℤ) (xs : List ℕ) → IsComparison cmp → IsSorted cmp (qsort cmp xs)

module _ (d : Doubles) where
  open d use {Double, of, trunc, add, sub, mul, div, lt}

  -- the sorted copy of the recorded latencies
  abbrev pub sorted_copy : Sorting → Stats → List ℕ
  sorted_copy q s = q.qsort compare_uint64 (take s.latency_count s.latencies_ns)

  -- `pos`
  abbrev pub position : ℕ → ℕ → Double
  position percentile count = mul (div (of percentile) (of 100)) (of (count - 1))

  -- The indices of `a` and of `b` in the sorted copy.
  unfoldable pub neighbours : ℕ → ℕ → ℕ × ℕ
  neighbours percentile count =
      let index = trunc (position percentile count) in
      (index, if ltb (index + 1) count then index + 1 else index)

  -- `malloc_fails` is the test of `tmp`.
  unfoldable pub percentile_ms : Sorting → Bool → Stats → ℕ → Double
  percentile_ms q malloc_fails s percentile =
      if s.latency_count == 0
      then of 0
      else if malloc_fails
      then of 0
      else let tmp = sorted_copy q s in
        let (i, j) = neighbours percentile s.latency_count in
        let fraction = sub (position percentile s.latency_count) (of i) in
        let a = of (get_or tmp i 0) in
        let b = of (get_or tmp j 0) in div (add a (mul (sub b a) fraction)) (of 1_000_000)

  -- PROGRESS_WIDTH
  abbrev pub progress_width : ℕ
  progress_width = 40

  -- `percent`, at most 100
  unfoldable pub percent_of : (completed total : ℕ) → Double
  percent_of completed total =
      let percent = if ltb 0 total then mul (div (of completed) (of total)) (of 100) else of 0 in
      if lt (of 100) percent then of 100 else percent

  unfoldable pub filled_of : Double → ℕ
  filled_of percent =
      let filled = trunc (mul (div percent (of 100)) (of progress_width)) in
      if ltb progress_width filled then progress_width else filled

  -- The characters from index `i` on, with `n` to go.
  unfoldable pub bar : (filled n i : ℕ) → List ℕ
  bar filled zero i = []
  bar filled (suc n) i = (if ltb i filled then b'#' else b'-') ∷ bar filled n (i + 1)

  -- What `print_progress` writes between the brackets, and the percentage behind them.
  unfoldable pub print_progress : (completed total : ℕ) → List ℕ × Double
  print_progress completed total =
      let percent = percent_of completed total in
      (bar (filled_of percent) progress_width 0, percent)
