-- ===== src/Tests/ReportRuns.antt =====
-- The report of socket_test/stress_test_client.c on three latencies, with whole numbers for `double` and an
-- insertion sort for qsort().
use native.Mathlib.Nat.{div_self, div-le_of_le-mul}
use linux_system_programing.Prelude.{
  ℕ, zero, suc, ◌+◌, ◌-◌, ◌*◌, ◌/◌, ◌≤◌, ◌<◌, ◌≡◌, refl, ◌∙◌, ap, List, [], ◌∷◌, length, take, true,
  false, ltb, ◌==◌, if◌then◌else◌, arith, Bool-cases, inl, inr,
}
use linux_system_programing.Stress.Client.{Stats}
use linux_system_programing.Stress.Program.{ℤ, pos, negsuc}
use linux_system_programing.Stress.Report.{
  Doubles, is_negative, is_positive, IsComparison, AllAbove, IsSorted, occurrences, Sorting,
  sorted_copy, neighbours,
}
use linux_system_programing.Stress.Percentiles.{Reads, neighbours-Reads}

div_le_one : (a b : ℕ) → a ≤ b → 0 < b → a / b ≤ 1
div_le_one a b h k = div-le_of_le-mul b (omega arith)

at_most_once : (x n : ℕ) → x ≤ 1 → x * n ≤ n
at_most_once zero n h = omega arith
at_most_once (suc zero) n h = omega arith
at_most_once (suc (suc x)) n h = absurd (omega arith)

abbrev whole_numbers : Doubles
whole_numbers = record {
  Double = ℕ;
  of = λ n. n;
  trunc = λ n. n;
  add = λ a b. a + b;
  sub = λ a b. a - b;
  mul = λ a b. a * b;
  div = λ a b. a / b;
  lt = ltb;
  le = λ a b. a ≤ b;
  div_le_one = div_le_one;
  div_same = λ a h. div_self h;
  mul_le = at_most_once;
  mul_one = λ n. omega arith;
  trunc_le = λ x n h k. k;
  trunc_of = λ n h. refl;
  lt_of = λ a b h k. refl;
}

abbrev insert : (ℕ → ℕ → ℤ) → ℕ → List ℕ → List ℕ
insert cmp x [] = x ∷ []
insert cmp x (y ∷ ys) =
    let rest = insert cmp x ys in if is_positive (cmp x y) then y ∷ rest else x ∷ y ∷ ys

abbrev insertion_sort : (ℕ → ℕ → ℤ) → List ℕ → List ℕ
insertion_sort cmp [] = []
insertion_sort cmp (x ∷ xs) = insert cmp x (insertion_sort cmp xs)

length-insert : (cmp : ℕ → ℕ → ℤ) (x : ℕ) (ys : List ℕ) → length (insert cmp x ys) ≡ suc (length ys)
length-insert cmp x [] = refl
length-insert cmp x (y ∷ ys) = ground (arith, length-insert cmp x ys)

occurrences-insert :
    (cmp : ℕ → ℕ → ℤ) (a x : ℕ) (ys : List ℕ)
    → occurrences a (insert cmp x ys) ≡ occurrences a (x ∷ ys)
occurrences-insert cmp a x [] = refl
occurrences-insert cmp a x (y ∷ ys) = ground (arith, occurrences-insert cmp a x ys)

length-insertion_sort : (cmp : ℕ → ℕ → ℤ) (xs : List ℕ) → length (insertion_sort cmp xs) ≡ length xs
length-insertion_sort cmp [] = refl
length-insertion_sort cmp (x ∷ xs) =
    length-insert cmp x (insertion_sort cmp xs) ∙ ap suc (length-insertion_sort cmp xs)

occurrences-insertion_sort :
    (cmp : ℕ → ℕ → ℤ) (xs : List ℕ) (a : ℕ)
    → occurrences a (insertion_sort cmp xs) ≡ occurrences a xs
occurrences-insertion_sort cmp [] a = refl
occurrences-insertion_sort cmp (x ∷ xs) a =
    occurrences-insert cmp a x (insertion_sort cmp xs)
    ∙ ap (λ n. (if x == a then 1 else 0) + n) (occurrences-insertion_sort cmp xs a)

insert-AllAbove :
    (cmp : ℕ → ℕ → ℤ) (z x : ℕ) (ys : List ℕ)
    → is_positive (cmp z x) ≡ false
    → AllAbove cmp z ys
    → AllAbove cmp z (insert cmp x ys)
insert-AllAbove cmp z x [] h k = (h, tt)
insert-AllAbove cmp z x (y ∷ ys) h k = elim (Bool-cases (is_positive (cmp x y))) [
  | inl after ↦ rw after (k.0, insert-AllAbove cmp z x ys h k.1)
  | inr before ↦ rw before (h, k)
]

negative_not_positive : (x : ℤ) → is_negative x ≡ true → is_positive x ≡ false
negative_not_positive (pos n) e = absurd (cc e)
negative_not_positive (negsuc n) e = refl

AllAbove-trans :
    (cmp : ℕ → ℕ → ℤ) (x y : ℕ) (ys : List ℕ)
    → IsComparison cmp
    → is_positive (cmp x y) ≡ false
    → AllAbove cmp y ys
    → AllAbove cmp x ys
AllAbove-trans cmp x y [] order h k = tt
AllAbove-trans cmp x y (z ∷ zs) order h k =
    (order.transitive x y z h k.0, AllAbove-trans cmp x y zs order h k.1)

insert-IsSorted :
    (cmp : ℕ → ℕ → ℤ) (x : ℕ) (ys : List ℕ)
    → IsComparison cmp
    → IsSorted cmp ys
    → IsSorted cmp (insert cmp x ys)
insert-IsSorted cmp x [] order h = (tt, tt)
insert-IsSorted cmp x (y ∷ ys) order h = elim (Bool-cases (is_positive (cmp x y))) [
  | inl after ↦ rw after (
    insert-AllAbove cmp y x ys (negative_not_positive (cmp y x) (order.opposite y x ∙ after)) h.0,
    insert-IsSorted cmp x ys order h.1,
  )
  | inr before ↦ rw before ((before, AllAbove-trans cmp x y ys order before h.0), h)
]

insertion_sort-IsSorted :
    (cmp : ℕ → ℕ → ℤ) (xs : List ℕ) → IsComparison cmp → IsSorted cmp (insertion_sort cmp xs)
insertion_sort-IsSorted cmp [] order = tt
insertion_sort-IsSorted cmp (x ∷ xs) order =
    insert-IsSorted cmp x (insertion_sort cmp xs) order (insertion_sort-IsSorted cmp xs order)

abbrev by_insertion : Sorting
by_insertion = record {
  qsort = insertion_sort;
  same_length = length-insertion_sort;
  same_elements = occurrences-insertion_sort;
  sorted = insertion_sort-IsSorted;
}

abbrev three : Stats
three = record {
  total_requests = 3;
  completed = 3;
  failed = 0;
  bytes_sent = 30;
  bytes_received = 30;
  latency_sum_ns = 60;
  latencies_ns = 30 ∷ 10 ∷ 20 ∷ [];
  latency_count = 3;
  latency_capacity = 3;
  start_time = 0;
}

neighbours-Reads_example :
    let (i, j) = neighbours whole_numbers 95 3 in
    Reads (take 3 three.latencies_ns) (sorted_copy whole_numbers by_insertion three) i j
neighbours-Reads_example =
    neighbours-Reads whole_numbers by_insertion three 95 (omega arith) (omega arith) (omega arith)
      (omega arith)
