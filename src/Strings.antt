-- ===== src/Strings.antt =====
-- Strings of C: the bytes of an array up to its first zero.
use linux_system_programing.Prelude.{
  ℕ, zero, suc, ◌≤◌, ◌<◌, ◌≡◌, ◌≢◌, refl, ◌∙◌, ap, List, [], ◌∷◌, ◌++◌, append-nil, length,
  length-replicate, drop, replicate, Bool, true, false, ◌==◌, if◌then◌else◌, arith,
}
use linux_system_programing.Bytes.{blit}

-- no zero byte
abbrev pub IsText : List ℕ → Type 0
IsText [] = Unit {0}
IsText (x ∷ xs) = (x ≢ 0) × IsText xs

-- The bytes of an array up to its first zero, which strlen() counts and printf() prints. Without a zero the
-- functions would run past the array; here they stop at its end.
unfoldable pub c_string : List ℕ → List ℕ
c_string [] = []
c_string (x ∷ xs) = if x == 0 then [] else x ∷ c_string xs

unfoldable pub has_zero : List ℕ → Bool
has_zero [] = false
has_zero (x ∷ xs) = if x == 0 then true else has_zero xs

-- Each line overwrites the start of the array; each text is its line and what the array still holds behind it, up to a zero byte.
abbrev pub AreTexts : List ℕ → List (List ℕ) → List (List ℕ) → Type 0
AreTexts buf [] [] = Unit {0}
AreTexts buf [] (t ∷ ts) = ⊥
AreTexts buf (l ∷ ls) [] = ⊥
AreTexts buf (l ∷ ls) (t ∷ ts) =
    (t ≡ l ++ c_string (drop (length l) buf)) × AreTexts (blit buf 0 l) ls ts

-- A text in front of an array: the string is the text and what the array holds behind it.
pub c_string-blit :
    (buf xs : List ℕ)
    → IsText xs
    → length xs ≤ length buf
    → c_string (blit buf 0 xs) ≡ xs ++ c_string (drop (length xs) buf)
unfolding c_string blit
c_string-blit [] [] h few = refl
c_string-blit [] (x ∷ xs) h few = absurd (omega arith)
c_string-blit (b ∷ bs) [] h few = refl
c_string-blit (b ∷ bs) (x ∷ xs) h few =
    let ih = c_string-blit bs xs h.1 (omega arith) in ground (arith, ih, h.0)

pub has_zero-blit :
    (buf xs : List ℕ) → has_zero (drop (length xs) buf) ≡ true → has_zero (blit buf 0 xs) ≡ true
unfolding has_zero blit
has_zero-blit [] [] h = h
has_zero-blit [] (x ∷ xs) h = absurd (cc h)
has_zero-blit (b ∷ bs) [] h = h
has_zero-blit (b ∷ bs) (x ∷ xs) h = let ih = has_zero-blit bs xs h in ground (arith, ih)

pub zeros-text : (n k : ℕ) → c_string (drop k (replicate n 0)) ≡ []
unfolding c_string
zeros-text zero zero = refl
zeros-text zero (suc k) = refl
zeros-text (suc n) zero = refl
zeros-text (suc n) (suc k) = zeros-text n k

pub zeros-has_zero : (n k : ℕ) → k < n → has_zero (drop k (replicate n 0)) ≡ true
unfolding has_zero
zeros-has_zero zero k h = absurd (omega arith)
zeros-has_zero (suc n) zero h = refl
zeros-has_zero (suc n) (suc k) h = zeros-has_zero n k (omega arith)

-- A text that fits a cleared array is the string of that array.
pub c_string-cleared :
    (n : ℕ) (xs : List ℕ) → IsText xs → length xs ≤ n → c_string (blit (replicate n 0) 0 xs) ≡ xs
c_string-cleared n xs h few =
    c_string-blit (replicate n 0) xs h (omega (arith, length-replicate {A = ℕ} n 0))
    ∙ ap (λ t. xs ++ t) (zeros-text n (length xs))
    ∙ append-nil xs

pub IsText-append : (xs ys : List ℕ) → IsText xs → IsText ys → IsText (xs ++ ys)
IsText-append [] ys h k = k
IsText-append (x ∷ xs) ys h k = (h.0, IsText-append xs ys h.1 k)

-- A text with its zero in front of an array is the string of that array.
pub c_string-terminated :
    (buf xs : List ℕ)
    → IsText xs
    → length xs < length buf
    → c_string (blit buf 0 (xs ++ 0 ∷ [])) ≡ xs
unfolding c_string blit
c_string-terminated [] xs h few = absurd (omega arith)
c_string-terminated (b ∷ bs) [] h few = refl
c_string-terminated (b ∷ bs) (x ∷ xs) h few =
    let ih = c_string-terminated bs xs h.1 (omega arith) in ground (arith, ih, h.0)

-- A zero behind some bytes ends their string.
pub c_string-ended :
    (buf xs : List ℕ)
    → length xs < length buf
    → c_string (blit (blit buf 0 xs) (length xs) (0 ∷ [])) ≡ c_string xs
unfolding c_string blit
c_string-ended [] xs few = absurd (omega arith)
c_string-ended (b ∷ bs) [] few = refl
c_string-ended (b ∷ bs) (x ∷ xs) few =
    let ih = c_string-ended bs xs (omega arith) in ap (λ t. if x == 0 then [] else x ∷ t) ih
