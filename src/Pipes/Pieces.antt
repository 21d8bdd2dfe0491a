-- ===== src/Pipes/Pieces.antt =====
-- What goes through the FIFO of process_test/fifo_write.c and process_test/fifo_read.c.
use linux_system_programing.Prelude.{
  ℕ, zero, suc, ◌+◌, ◌≤◌, ◌<◌, ◌≡◌, refl, sym, subst, ◌∙◌, ap, List, [], ◌∷◌, ◌++◌, length,
  length-append, drop, true, ◌==◌, arith, Bool-cases, lt→ltb, inl, inr,
}
use mathlib.Core.List.{map}
use linux_system_programing.Kernel.{Received, bytes, recv_error}
use linux_system_programing.Bytes.{blit, length-blit}
use linux_system_programing.Strings.{
  IsText, AreTexts, c_string, has_zero, c_string-blit, c_string-ended, has_zero-blit,
}
use linux_system_programing.Pipes.Fifo.{
  max_size, Ended, at_end, outside, read_char, write_loop, read_loop,
}

-- Each chunk has at least one byte, and at most `n`.
abbrev pub AllFit : ℕ → List (List ℕ) → Type 0
AllFit n [] = Unit {0}
AllFit n (xs ∷ chunks) = (0 < length xs) × (length xs ≤ n) × AllFit n chunks

abbrev pub AllTexts : List (List ℕ) → Type 0
AllTexts [] = Unit {0}
AllTexts (xs ∷ chunks) = IsText xs × AllTexts chunks

abbrev pub EachOf : ℕ → List (List ℕ) → Type 0
EachOf n [] = Unit {0}
EachOf n (xs ∷ pieces) = (length xs ≡ n) × EachOf n pieces

write_loop-chunks :
    (buf : List ℕ) (chunks : List (List ℕ)) (last : Received) (rs : List Received) (ended : Ended)
    → length buf ≡ max_size
    → AllFit 49 chunks
    → ((b : List ℕ) → write_loop b (last ∷ rs) ≡ ([], ended))
    → write_loop buf (map bytes chunks ++ last ∷ rs) ≡ (map c_string chunks, ended)
unfolding write_loop read_char
write_loop-chunks buf [] last rs ended whole fit h = h buf
write_loop-chunks buf ([] ∷ chunks) last rs ended whole fit h = absurd (omega (arith, fit.0))
write_loop-chunks buf ((x ∷ xs) ∷ chunks) last rs ended whole fit h =
    let filled = blit (blit buf 0 (x ∷ xs)) (length (x ∷ xs)) (0 ∷ []) in
    let size : length filled ≡ max_size =
      length-blit (blit buf 0 (x ∷ xs)) (length (x ∷ xs)) (0 ∷ [])
      ∙ length-blit buf 0 (x ∷ xs)
      ∙ whole in
    let rest = write_loop-chunks filled chunks last rs ended size fit.2 h in
    rw
      (
        lt→ltb 0 (length (x ∷ xs)) (omega arith),
        lt→ltb (length (x ∷ xs)) max_size (omega (arith, fit.1)),
        rest,
        c_string-ended buf (x ∷ xs) (omega (arith, fit.1)),
      )
      refl

-- For chunks of 1 to 49 bytes: fifo_write writes each chunk up to its first zero byte; behind the end of the
-- input it leaves its loop, and when read() fails it writes to an index outside `buf`, which -1 as a size_t is.
pub write_loop-pieces :
    (buf : List ℕ) (chunks : List (List ℕ)) (rs : List Received)
    → length buf ≡ max_size
    → AllFit 49 chunks
    → (write_loop buf (map bytes chunks ++ bytes [] ∷ rs) ≡ (map c_string chunks, at_end))
      × ((e : ℕ)
          → write_loop buf (map bytes chunks ++ recv_error e ∷ rs) ≡ (map c_string chunks, outside))
unfolding write_loop read_char
write_loop-pieces buf chunks rs whole fit = (
  write_loop-chunks buf chunks (bytes []) rs at_end whole fit (λ b. refl),
  λ e. write_loop-chunks buf chunks (recv_error e) rs outside whole fit (λ b. refl),
)

-- Behind the first bytes of a string stands the rest of it.
drop-string :
    (buf : List ℕ) (n : ℕ)
    → n ≤ length (c_string buf)
    → (length (c_string (drop n buf)) + n ≡ length (c_string buf))
      × (has_zero buf ≡ true → has_zero (drop n buf) ≡ true)
unfolding c_string has_zero
drop-string [] zero h = (refl, λ z. z)
drop-string [] (suc n) h = absurd (omega arith)
drop-string (b ∷ bs) zero h = (omega arith, λ z. z)
drop-string (b ∷ bs) (suc n) h = elim (Bool-cases (b == 0)) [
  | inl e ↦ absurd (omega (arith, rw (e, c_string) at h))
  | inr e ↦
      let (k, z) = drop-string bs n (omega (arith, rw (e, c_string) at h)) in
      rw e (omega (arith, k), z)
]

length-c_string-le : (buf : List ℕ) → length (c_string buf) ≤ length buf
unfolding c_string
length-c_string-le [] = omega arith
length-c_string-le (b ∷ bs) = let ih = length-c_string-le bs in ground (arith, ih)

-- A chunk that is no longer than the string leaves its length as it is.
filled-string :
    (buf xs : List ℕ)
    → IsText xs
    → has_zero buf ≡ true
    → length xs ≤ length (c_string buf)
    → (c_string (blit buf 0 xs) ≡ xs ++ c_string (drop (length xs) buf))
      × (length (c_string (blit buf 0 xs)) ≡ length (c_string buf))
      × (has_zero (blit buf 0 xs) ≡ true)
filled-string buf xs text ended few =
    let (k, z) = drop-string buf (length xs) few in
    let e : c_string (blit buf 0 xs) ≡ xs ++ c_string (drop (length xs) buf) =
      c_string-blit buf xs text (omega (arith, few, length-c_string-le buf)) in
    (
      e,
      omega (arith, k, ap length e, length-append xs (c_string (drop (length xs) buf))),
      has_zero-blit buf xs (z ended),
    )

-- For chunks of at least one byte without zeros, each no longer than the string that `buf` holds at first:
-- fifo_read writes for each chunk the chunk and what `buf` still holds behind it, always as many bytes as
-- that string has, and leaves its loop behind the end of the input. So it writes nothing when `buf` starts
-- with a zero byte.
pub read_loop-AreTexts :
    (buf : List ℕ) (chunks : List (List ℕ))
    → has_zero buf ≡ true
    → AllFit (length (c_string buf)) chunks
    → AllTexts chunks
    → let (pieces, ended) = read_loop buf (map bytes chunks ++ bytes [] ∷ []) in
      AreTexts buf chunks pieces
      × EachOf (length (c_string buf)) pieces
      × (ended ≡ at_end)
      × (length (c_string buf) ≡ 0 → pieces ≡ [])
unfolding read_loop
read_loop-AreTexts buf [] zero_in fit texts = rw zero_in (tt, tt, refl, λ q. refl)
read_loop-AreTexts buf ([] ∷ chunks) zero_in fit texts = absurd (omega (arith, fit.0))
read_loop-AreTexts buf ((x ∷ xs) ∷ chunks) zero_in fit texts =
    let (e, same, z) = filled-string buf (x ∷ xs) texts.0 zero_in fit.1 in
    let ih =
      read_loop-AreTexts (blit buf 0 (x ∷ xs)) chunks z
        (subst (λ n. AllFit n chunks) (sym same) fit.2) texts.1 in
    rw zero_in (
      (e, ih.0),
      (
        same,
        subst
            (λ n. EachOf n (read_loop (blit buf 0 (x ∷ xs)) (map bytes chunks ++ bytes [] ∷ [])).0)
            same ih.1,
      ),
      ih.2,
      λ q. absurd (omega (arith, fit.1)),
    )
