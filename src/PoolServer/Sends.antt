-- ===== src/PoolServer/Sends.antt =====
-- `send_all` of socket_test/server_pthread_pool.c.
use linux_system_programing.Prelude.{
  ℕ, zero, suc, ◌+◌, ◌-◌, ◌≤◌, ◌<◌, ◌≡◌, ◌≢◌, ◌⊎◌, inl, inr, refl, ap, some, true, false, ltb,
  arith, Bool-cases, add_u64, sub_u64, ltb→lt, ltb→le, ◌↔◌,
}
use linux_system_programing.Kernel.{Sent, took, send_error}
use linux_system_programing.Echo.Send.{count}
use linux_system_programing.Stress.Sending.{Honest}
use linux_system_programing.PoolServer.Client.{SendAll, send_all, message_size}

-- send() that is offered some bytes and succeeds takes one at least.
abbrev pub Moves : (ℕ → ℕ → Sent) → Type 0
Moves k = (i n : ℕ) → 0 < n → k i n ≢ took 0

-- no send() fails
abbrev pub Faultless : (ℕ → ℕ → Sent) → Type 0
Faultless k = (i n e : ℕ) → k i n ≢ send_error e

-- every send() fails, as on a socket whose buffer is full
abbrev pub Failing : (ℕ → ℕ → Sent) → Type 0
Failing k = (i n : ℕ) → (e : ℕ) × (k i n ≡ send_error e)

pub record SendEnd (k : ℕ → ℕ → Sent) (n len : ℕ) (r : SendAll) : Type 0 where
  pub within : r.sent ≤ len
  pub whole : (r.succeeded ≡ true) ↔ (r.sent ≡ len)
  pub sure : Faultless k → r.sent ≡ len
  pub stuck : Failing k → r.sent ≡ n

Sent-cases : (a : Sent) → ((n : ℕ) × (a ≡ took n)) ⊎ ((e : ℕ) × (a ≡ send_error e))
Sent-cases (took n) = inl (n, refl)
Sent-cases (send_error e) = inr (e, refl)

-- Where send() takes no more than it is asked to and never takes nothing, the loop ends with fuel above
-- the bytes left: it returns -1 exactly when not all bytes are sent, sends them all if no call fails, and
-- none if every call does.
pub send_all-SendEnd :
    (k : ℕ → ℕ → Sent) (fuel i n len : ℕ)
    → Honest k
    → Moves k
    → n ≤ len
    → len ≤ message_size
    → len - n < fuel
    → (r : SendAll) × (send_all k fuel i n len ≡ some r) × SendEnd k n len r
unfolding send_all
send_all-SendEnd k zero i n len honest moves h small enough = absurd (omega arith)
send_all-SendEnd k (suc fuel) i n len honest moves h small enough = elim (Bool-cases (ltb n len)) [
  | inr all ↦
      let full : n ≡ len = omega (arith, ltb→le _ _ all) in
      (
        record { sent = n; calls = i; succeeded = true },
        rw (all, send_all) refl,
        record { within = h; whole = (λ _. full, λ _. refl); sure = λ _. full; stuck = λ _. refl },
      )
  | inl more ↦ elim (Sent-cases (k i (sub_u64 len n))) [
    | inr (e, q) ↦ (
      record { sent = n; calls = i + 1; succeeded = false },
      rw (more, q, send_all) refl,
      record {
        within = h;
        whole = (λ x. cc, λ x. absurd (omega (arith, ltb→lt _ _ more)));
        sure = λ f. absurd (f i (sub_u64 len n) e q);
        stuck = λ _. refl;
      },
    )
    | inl (zero, q) ↦ absurd (moves i (sub_u64 len n) (omega (arith, ltb→lt _ _ more)) q)
    | inl (suc m, q) ↦
        let fits : suc m ≤ sub_u64 len n = rw (ap count q) at (honest i (sub_u64 len n)) in
        let word : add_u64 n (suc m) ≡ n + suc m = omega arith in
        let (r, e, s) =
          send_all-SendEnd k fuel (i + 1) (add_u64 n (suc m)) len honest moves
            (omega (arith, word, fits)) small (omega (arith, word, fits)) in
        (
          r,
          rw (more, q, send_all) e,
          record {
            within = s.within;
            whole = s.whole;
            sure = s.sure;
            stuck = λ f. let (x, p) = f i (sub_u64 len n) in cc;
          },
        )
  ]
]
