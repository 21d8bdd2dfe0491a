-- ===== src/Bytes.antt =====
-- Byte arrays and the calls of the C library that copy between them.
-- A `char[n]` is a list of n bytes; a copy that would run past the end is cut there, and each caller
-- proves that it does not.
use linux_system_programing.Prelude.{
  ℕ, zero, suc, ◌+◌, ◌-◌, ◌≤◌, ◌≡◌, refl, ap, List, [], ◌∷◌, ◌++◌, length, take, drop, arith,
  length-take, length-drop, sym, ◌∙◌, drop-take,
}

-- memcpy(buf + off, src, length src)
unfoldable pub blit : List ℕ → ℕ → List ℕ → List ℕ
blit [] off src = []
blit (b ∷ bs) (suc off) src = b ∷ blit bs off src
blit (b ∷ bs) zero [] = b ∷ bs
blit (b ∷ bs) zero (x ∷ src) = x ∷ blit bs zero src

-- the `n` bytes of `buf` from index `off` on
abbrev pub slice : List ℕ → ℕ → ℕ → List ℕ
slice buf off n = take n (drop off buf)

-- memmove(buf, buf + off, n)
abbrev pub shift_down : List ℕ → ℕ → ℕ → List ℕ
shift_down buf off n = blit buf 0 (slice buf off n)

pub length-blit : (buf : List ℕ) (off : ℕ) (src : List ℕ) → length (blit buf off src) ≡ length buf
unfolding blit
length-blit [] off src = refl
length-blit (b ∷ bs) (suc off) src = ap suc (length-blit bs off src)
length-blit (b ∷ bs) zero [] = refl
length-blit (b ∷ bs) zero (x ∷ src) = ap suc (length-blit bs zero src)

-- What was copied in stands after what was there before it.
pub take-blit :
    (buf : List ℕ) (off n : ℕ) (src : List ℕ)
    → n ≡ off + length src
    → n ≤ length buf
    → take n (blit buf off src) ≡ take off buf ++ src
unfolding blit
take-blit [] zero zero [] e h = refl
take-blit [] zero (suc n) src e h = absurd (omega arith)
take-blit [] zero zero (x ∷ src) e h = absurd (omega arith)
take-blit [] (suc off) n src e h = absurd (omega arith)
take-blit (b ∷ bs) (suc off) zero src e h = absurd (omega arith)
take-blit (b ∷ bs) (suc off) (suc n) src e h =
    ap (λ l. b ∷ l) (take-blit bs off n src (omega arith) (omega arith))
take-blit (b ∷ bs) zero zero [] e h = refl
take-blit (b ∷ bs) zero (suc n) [] e h = absurd (omega arith)
take-blit (b ∷ bs) zero zero (x ∷ src) e h = absurd (omega arith)
take-blit (b ∷ bs) zero (suc n) (x ∷ src) e h =
    ap (λ l. x ∷ l) (take-blit bs zero n src (omega arith) (omega arith))

-- recv() into an array, then a copy of what it wrote.
pub take-blit_start :
    (buf src : List ℕ) → length src ≤ length buf → take (length src) (blit buf 0 src) ≡ src
take-blit_start buf src h = take-blit buf 0 (length src) src (omega arith) h

pub length-slice : (buf : List ℕ) (off n : ℕ) → off + n ≤ length buf → length (slice buf off n) ≡ n
length-slice buf off n h = omega (arith, length-take n (drop off buf), length-drop off buf)

-- memmove() drops what stood before `off`.
pub take-shift_down :
    (buf : List ℕ) (off n : ℕ)
    → off ≤ n
    → n ≤ length buf
    → take (n - off) (shift_down buf off (n - off)) ≡ drop off (take n buf)
take-shift_down buf off n h k =
    take-blit buf 0 (n - off) (slice buf off (n - off))
      (omega (arith, length-slice buf off (n - off))) (omega arith)
    ∙ sym (drop-take off n buf)
