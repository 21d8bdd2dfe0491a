-- ===== src/Lines.antt =====
-- The framing that the echo servers promise: a byte stream cut after its last newline.
use linux_system_programing.Prelude.{
  ℕ, zero, suc, ◌-◌, ◌≤◌, ◌<◌, ◌≡◌, refl, List, [], ◌∷◌, ◌++◌, length, take, drop, arith, ◌==◌,
  if◌then◌else◌, Bool, true, false, Option, none, some,
}

-- '\n'
abbrev pub newline : ℕ
newline = 10

unfoldable pub has_newline : List ℕ → Bool
has_newline [] = false
has_newline (x ∷ xs) = if x == newline then true else has_newline xs

-- everything up to the last newline
unfoldable pub complete : List ℕ → List ℕ
complete [] = []
complete (x ∷ xs) = if has_newline (x ∷ xs) then x ∷ complete xs else []

-- everything after it
unfoldable pub partial : List ℕ → List ℕ
partial [] = []
partial (x ∷ xs) = if has_newline (x ∷ xs) then partial xs else x ∷ xs

-- the length of the first line, its newline counted
unfoldable pub first_line : List ℕ → Option ℕ
first_line [] = none
first_line (x ∷ xs) =
    if x == newline then some 1 else elim (first_line xs) [ none ↦ none | some m ↦ some (suc m) ]

pub complete-append-partial : (xs : List ℕ) → complete xs ++ partial xs ≡ xs
unfolding complete partial has_newline
complete-append-partial [] = refl
complete-append-partial (x ∷ xs) = ground (arith, complete-append-partial xs)

pub partial_has_no_newline : (xs : List ℕ) → has_newline (partial xs) ≡ false
unfolding partial has_newline
partial_has_no_newline [] = refl
partial_has_no_newline (x ∷ xs) = ground (arith, partial_has_no_newline xs)

pub has_newline-first_line-none : (xs : List ℕ) → first_line xs ≡ none → has_newline xs ≡ false
unfolding first_line has_newline
has_newline-first_line-none [] h = refl
has_newline-first_line-none (x ∷ xs) h = ground (arith, has_newline-first_line-none xs)

pub complete_of_no_newline : (xs : List ℕ) → has_newline xs ≡ false → complete xs ≡ []
unfolding complete
complete_of_no_newline [] h = refl
complete_of_no_newline (x ∷ xs) h = ground arith

pub partial_of_no_newline : (xs : List ℕ) → has_newline xs ≡ false → partial xs ≡ xs
unfolding partial
partial_of_no_newline [] h = refl
partial_of_no_newline (x ∷ xs) h = ground arith

pub first_line_bounds : (xs : List ℕ) (m : ℕ) → first_line xs ≡ some m → (0 < m) × (m ≤ length xs)
unfolding first_line
first_line_bounds [] m h = ground arith
first_line_bounds (x ∷ xs) m h = ground (arith, first_line_bounds xs (m - 1))

first_line-has_newline : (xs : List ℕ) (m : ℕ) → first_line xs ≡ some m → has_newline xs ≡ true
unfolding first_line has_newline
first_line-has_newline [] m h = ground arith
first_line-has_newline (x ∷ xs) m h = ground (arith, first_line-has_newline xs (m - 1))

-- Taking off the first line leaves the rest of the lines and the same unfinished tail.
pub first_line_split :
    (xs : List ℕ) (m : ℕ)
    → first_line xs ≡ some m
    → (complete xs ≡ take m xs ++ complete (drop m xs)) × (partial xs ≡ partial (drop m xs))
unfolding first_line complete partial has_newline
first_line_split [] m h = ground arith
first_line_split (x ∷ xs) zero h = ground arith
first_line_split (x ∷ xs) (suc m) h =
    ground (arith, first_line_split xs m, first_line-has_newline xs m)

has_newline-append : (xs ys : List ℕ) → has_newline xs ≡ true → has_newline (xs ++ ys) ≡ true
unfolding has_newline
has_newline-append [] ys h = cc
has_newline-append (x ∷ xs) ys h = ground (arith, has_newline-append xs ys)

-- More bytes complete the unfinished tail and add lines of their own.
pub complete-append :
    (xs ys : List ℕ) → complete (xs ++ ys) ≡ complete xs ++ complete (partial xs ++ ys)
unfolding complete partial has_newline
complete-append [] ys = refl
complete-append (x ∷ xs) ys = ground (arith, complete-append xs ys, has_newline-append xs ys)

pub partial-append : (xs ys : List ℕ) → partial (xs ++ ys) ≡ partial (partial xs ++ ys)
unfolding partial has_newline
partial-append [] ys = refl
partial-append (x ∷ xs) ys = ground (arith, partial-append xs ys, has_newline-append xs ys)

-- No proper prefix of a line holds its newline.
pub first_line-none_of_prefix :
    (xs ys : List ℕ) (m : ℕ) → first_line (xs ++ ys) ≡ some m → length xs < m → first_line xs ≡ none
unfolding first_line
first_line-none_of_prefix [] ys m h k = refl
first_line-none_of_prefix (x ∷ xs) ys m h k =
    ground (arith, first_line-none_of_prefix xs ys (m - 1))

pub no_newline-append :
    (xs ys : List ℕ)
    → has_newline xs ≡ false
    → has_newline ys ≡ false
    → has_newline (xs ++ ys) ≡ false
unfolding has_newline
no_newline-append [] ys h k = k
no_newline-append (x ∷ xs) ys h k = ground (arith, no_newline-append xs ys)

-- Bytes with a newline at their end only are one line.
pub first_line-one :
    (xs : List ℕ)
    → has_newline xs ≡ false
    → first_line (xs ++ newline ∷ []) ≡ some (suc (length xs))
unfolding first_line has_newline
first_line-one [] h = refl
first_line-one (x ∷ xs) h = ground (arith, first_line-one xs)

pub complete-one : (xs : List ℕ) → complete (xs ++ newline ∷ []) ≡ xs ++ newline ∷ []
unfolding complete has_newline
complete-one [] = refl
complete-one (x ∷ xs) = let ih = complete-one xs in let n = ends xs in ground (arith, ih, n)
  where
    ends : (ys : List ℕ) → has_newline (ys ++ newline ∷ []) ≡ true
    ends [] = refl
    ends (y ∷ ys) = ground (arith, ends ys)
