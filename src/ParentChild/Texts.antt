-- ===== src/ParentChild/Texts.antt =====
-- A message arrives as it was printed into `a_buf`.
use linux_system_programing.Prelude.{
  ℕ, zero, suc, ◌/◌, ◌<◌, ◌≡◌, ◌++◌, length, length-append, length-replicate, replicate, ltb, arith,
  Bool-cases, inl, inr,
}
use linux_system_programing.Bytes.{blit}
use linux_system_programing.Strings.{
  IsText, IsText-append, c_string, c_string-cleared, c_string-terminated,
}
use linux_system_programing.Stress.Request.{digits, decimal, length-digits-le}
use linux_system_programing.ParentChild.Steps.{
  buf_size, before_number, after_number, text, message, shown,
}

digits-IsText : (fuel n : ℕ) → IsText (digits fuel n)
unfolding digits
digits-IsText zero n = tt
digits-IsText (suc fuel) n = elim (Bool-cases (ltb n 10)) [
  | inl e ↦ rw e (λ q. omega arith, tt)
  | inr e ↦ rw e (IsText-append _ _ (digits-IsText fuel (n / 10)) (λ q. omega arith, tt))
]

before_number-IsText : IsText before_number
before_number-IsText = (
  λ q. omega arith,
  (
    λ q. omega arith,
    (
      λ q. omega arith,
      (
        λ q. omega arith,
        (
          λ q. omega arith,
          (λ q. omega arith, (λ q. omega arith, (λ q. omega arith, (λ q. omega arith, tt)))),
        ),
      ),
    ),
  ),
)

after_number-IsText : IsText after_number
after_number-IsText = (
  λ q. omega arith,
  (
    λ q. omega arith,
    (
      λ q. omega arith,
      (
        λ q. omega arith,
        (
          λ q. omega arith,
          (
            λ q. omega arith,
            (λ q. omega arith, (λ q. omega arith, (λ q. omega arith, (λ q. omega arith, tt)))),
          ),
        ),
      ),
    ),
  ),
)

text-IsText : (n : ℕ) → IsText (text n)
text-IsText n =
    IsText-append before_number (decimal n ++ after_number) before_number-IsText
      (IsText-append (decimal n) after_number (digits-IsText 20 n) after_number-IsText)

length-text : (n : ℕ) → length (text n) < buf_size
length-text n = omega (
  arith,
  length-append before_number (decimal n ++ after_number),
  length-append (decimal n) after_number,
  length-digits-le 20 n,
)

-- The string in `b_buf` is the text.
pub shown-message : (n : ℕ) → shown (message n) ≡ text n
unfolding shown message
shown-message n =
    let few = length-text n in
    let sent : c_string (blit (replicate buf_size 0) 0 (text n)) ≡ text n =
      c_string-cleared buf_size (text n) (text-IsText n) (omega arith) in
    rw sent (
      c_string-terminated (replicate buf_size 0) (text n) (text-IsText n)
        (omega (arith, length-replicate {A = ℕ} buf_size 0)))
