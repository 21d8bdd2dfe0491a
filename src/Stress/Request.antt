-- ===== src/Stress/Request.antt =====
-- `prepare_request` of socket_test/stress_test_client.c, with the decimal numbers that snprintf()
-- writes.
use linux_system_programing.Prelude.{
  ℕ, zero, suc, ◌+◌, ◌-◌, ◌*◌, ◌/◌, ◌%◌, ◌^◌, ◌<◌, ◌≤◌, ◌≡◌, refl, List, [], ◌∷◌, ◌++◌, length,
  take, ltb, leb, if◌then◌else◌, arith, length-append, Bool-cases, inl, inr,
}
use native.Mathlib.Nat.{pow-suc}
use linux_system_programing.Bytes.{blit}
use linux_system_programing.Echo.Client.{Ret, ok, failed}
use linux_system_programing.Stress.Client.{Client, ClientState, buf_size}

-- The decimal digits of a number below 10 ^ fuel, the highest first.
unfoldable pub digits : ℕ → ℕ → List ℕ
digits zero n = []
digits (suc fuel) n =
    let high = digits fuel (n / 10) in
    if ltb n 10 then (b'0' + n) ∷ [] else high ++ (b'0' + n % 10) ∷ []

-- "%d" of a number that is not negative, and "%llu": 20 digits are enough below 2 ^ 64.
abbrev pub decimal : ℕ → List ℕ
decimal n = digits 20 n

-- "bench-%d-%llu\n"
unfoldable pub request_text : ℕ → ℕ → List ℕ
request_text id sequence =
    b'b'
    ∷ b'e'
    ∷ b'n'
    ∷ b'c'
    ∷ b'h'
    ∷ b'-'
    ∷ (decimal id ++ b'-' ∷ (decimal sequence ++ b'\n' ∷ []))

-- snprintf(buf, sizeof(buf), …) of a text: as much as fits, and a zero byte.
abbrev pub snprintf : List ℕ → List ℕ → List ℕ
snprintf buf text = blit buf 0 (take (buf_size - 1) text ++ 0 ∷ [])

-- `now_ns()` is the argument `now`. The test `len < 0` never passes.
unfoldable pub prepare_request : ℕ → ℕ → Client → Client × Ret
prepare_request now sequence c =
    let text = request_text c.id sequence in
    let printed : Client = record c { send_buf = snprintf c.send_buf text } in
    if leb buf_size (length text) then (printed, failed) else (
      record printed {
        send_len = length text;
        send_offset = 0;
        recv_len = 0;
        current_request_start_ns = now;
        state = ClientState.writing;
      },
      ok,
    )

pub length-digits-le : (fuel n : ℕ) → length (digits fuel n) ≤ fuel
unfolding digits
length-digits-le zero n = omega arith
length-digits-le (suc fuel) n = elim (Bool-cases (ltb n 10)) [
  | inl e ↦ rw e (omega arith)
  | inr e ↦ rw e (
      omega (
        arith,
        length-append (digits fuel (n / 10)) ((b'0' + n % 10) ∷ []),
        length-digits-le fuel (n / 10),
      ))
]

-- the number that a list of digits spells
abbrev number : ℕ → List ℕ → ℕ
number acc [] = acc
number acc (d ∷ ds) = number (acc * 10 + (d - b'0')) ds

number-append : (acc : ℕ) (xs ys : List ℕ) → number acc (xs ++ ys) ≡ number (number acc xs) ys
number-append acc [] ys = refl
number-append acc (x ∷ xs) ys = number-append (acc * 10 + (x - b'0')) xs ys

-- The digits of a number below 10 ^ fuel, read as decimal digits, give the number back.
number-digits : (fuel n : ℕ) → n < 10 ^ fuel → number 0 (digits fuel n) ≡ n
unfolding digits
number-digits zero n h = omega arith
number-digits (suc fuel) n h = elim (Bool-cases (ltb n 10)) [
  | inl e ↦ rw e (omega arith)
  | inr e ↦
      rw
        (
          e,
          number-append 0 (digits fuel (n / 10)) ((b'0' + n % 10) ∷ []),
          number-digits fuel (n / 10) (omega (arith, pow-suc 10 fuel)),
        )
        (ground arith)
]

pub length-request_text : (id sequence : ℕ) → length (request_text id sequence) ≤ 48
unfolding request_text
length-request_text id sequence = omega (
  arith,
  length-append (decimal id) (b'-' ∷ (decimal sequence ++ b'\n' ∷ [])),
  length-append (decimal sequence) (b'\n' ∷ []),
  length-digits-le 20 id,
  length-digits-le 20 sequence,
)
