-- ===== src/Stress/Rounds.antt =====
-- The rounds of `main` in socket_test/stress_test_client.c over all clients.
use linux_system_programing.Prelude.{
  ℕ, zero, suc, ◌+◌, ◌^◌, ◌≤◌, ◌<◌, ◌≡◌, refl, sym, ◌∙◌, ap, none, some, ◌==◌, arith, Bool-cases,
  inl, inr, ◌⊎◌,
}
use linux_system_programing.Kernel.{Fd, eintr}
use linux_system_programing.Stress.Client.{Client, ClientState}
use linux_system_programing.Stress.Loop.{
  Slot, Answers, start_turn, before_poll, after_poll, poll_turn,
}
use linux_system_programing.Stress.Counts.{Turned-refl}
use linux_system_programing.Stress.Settled.{Settled}
use linux_system_programing.Stress.Turns.{IsHonest}
use linux_system_programing.Stress.Ends.{IsFuelled, after_poll-ends}
use linux_system_programing.Stress.Main.{
  Load, slot_at, put_slot, before_all, after_all, Polled, polled, poll_error, round_all,
}
use linux_system_programing.Stress.Sums.{IsLoad, Later, put-IsLoad}

-- With no finished request open there is nothing to start before poll().
before_poll-same : (r now : ℕ) (s : Slot) → Settled s → before_poll r now s ≡ s
unfolding before_poll start_turn
before_poll-same r now s quiet = by_slot s.client.fd s.client.state refl refl
  where
    by_slot :
        (f : Fd) (st : ClientState)
        → s.client.fd ≡ f
        → s.client.state ≡ st
        → start_turn r now f st s ≡ s
    by_slot none st e q = refl
    by_slot (some fd) ClientState.done e q = absurd (quiet fd e q)
    by_slot (some fd) ClientState.connecting e q = refl
    by_slot (some fd) ClientState.writing e q = refl
    by_slot (some fd) ClientState.reading e q = refl
    by_slot (some fd) ClientState.broken e q = refl

after_poll-closed :
    (r : ℕ) (a : Answers) (s : Slot) → s.client.fd ≡ none → after_poll r a s ≡ some s
unfolding after_poll poll_turn
after_poll-closed r a s e = rw (e, poll_turn) refl

-- Where the loop has got to from `l`.
pub record Stepped (r n : ℕ) (l t : Load) : Type 0 where
  pub load : IsLoad r n t
  pub later : Later l t

put-Later :
    (l : Load) (i : ℕ) (s : Slot)
    → ((l.client i).fd ≡ none → s.client ≡ l.client i)
    → Later l (put_slot i s l)
put-Later l i s same j e = elim (Bool-cases (j == i)) [
  | inl q ↦ let at_i : j ≡ i = ground arith in rw q (same (rw at_i at e) ∙ ap l.client (sym at_i))
  | inr q ↦ rw q refl
]

Later-trans : (l t u : Load) → Later l t → Later t u → Later l u
Later-trans l t u p q j e = q j (ap (λ (c : Client). c.fd) (p j e) ∙ e) ∙ p j e

before_all-Stepped :
    (r n : ℕ) (clock : ℕ → ℕ) (k i : ℕ) {l : Load}
    → i + k ≤ n
    → IsLoad r n l
    → Stepped r n l (before_all r clock k i l)
unfolding before_all
before_all-Stepped r n clock zero i h w = record { load = w; later = λ j e. refl }
before_all-Stepped r n clock (suc k) i {l} h w =
    let below : i < n = omega arith in
    let s : Slot = slot_at i l in
    let same : before_poll r (clock i) s ≡ s = before_poll-same r (clock i) s (w.settled i below) in
    rw same (
      let rest : Stepped r n (put_slot i s l) (before_all r clock k (i + 1) (put_slot i s l)) =
        before_all-Stepped r n clock k (i + 1) (omega arith)
          (put-IsLoad s below (Turned-refl (w.sound i below)) (w.settled i below) w) in
      record {
        load = rest.load;
        later =
            Later-trans l (put_slot i s l) (before_all r clock k (i + 1) (put_slot i s l))
              (put-Later l i s (λ e. refl)) rest.later;
      })

-- What is asked of the answers of a round.
pub record IsKernel (n m : ℕ) (a : ℕ → Answers) : Type 0 where
  pub honest : (j : ℕ) → j < n → IsHonest (a j)
  pub fuelled : (j : ℕ) → j < n → IsFuelled m (a j)

module _ {r : ℕ} (small : r < 2 ^ 64) (pos : 0 < r) (n m : ℕ) {a : ℕ → Answers}
    (kernel : IsKernel n m a) where
  after_all-Stepped :
      (k i : ℕ) {l : Load}
      → i + k ≤ n
      → IsLoad r n l
      → (t : Load) × (after_all r a k i l ≡ some t) × Stepped r n l t
  unfolding after_all
  after_all-Stepped zero i {l} h w = (l, refl, record { load = w; later = λ j e. refl })
  after_all-Stepped (suc k) i {l} h w =
      let below : i < n = omega arith in
      let (s, e, turned, quiet) =
        after_poll-ends r m (a i) (slot_at i l) small pos (kernel.honest i below)
          (kernel.fuelled i below) (w.sound i below) (w.settled i below) in
      let (t, q, rest) =
        after_all-Stepped k (i + 1) {l = put_slot i s l} (omega arith)
          (put-IsLoad s below turned quiet w) in
      (
        t,
        rw (e, after_all) q,
        record {
          load = rest.load;
          later = Later-trans l (put_slot i s l) t (put-Later l i s (closed s e)) rest.later;
        },
      )
    where
      closed :
          (s : Slot)
          → after_poll r (a i) (slot_at i l) ≡ some s
          → (l.client i).fd ≡ none
          → s.client ≡ l.client i
      closed s e q =
          let same : s ≡ slot_at i l = cc (e, after_poll-closed r (a i) (slot_at i l) q) in
          ap (λ (x : Slot). x.client) same

  -- A round, with poll() interrupted or not.
  pub round_all-Stepped :
      (clock : ℕ → ℕ) (p : Polled) {l : Load}
      → (p ≡ polled a) ⊎ (p ≡ poll_error eintr)
      → IsLoad r n l
      → (t : Load) × (round_all r n clock p l ≡ some t) × Stepped r n l t
  unfolding round_all
  round_all-Stepped clock p {l} answer w =
      let asked : Load = before_all r clock n 0 l in
      let first : Stepped r n l asked = before_all-Stepped r n clock n 0 (omega arith) w in
      elim answer [
        | inr e ↦ (asked, rw e refl, first)
        | inl e ↦
            let (t, q, rest) = after_all-Stepped n 0 {l = asked} (omega arith) first.load in
            (
              t,
              rw e q,
              record { load = rest.load; later = Later-trans l asked t first.later rest.later },
            )
      ]

-- The states that the loop reaches in rounds where send() and recv() keep to their sizes and are
-- interrupted finitely often, and poll() succeeds or is interrupted.
pub data Reach (r n : ℕ) (l : Load) : Load → Type 0 where
  first : Reach r n l l
  next :
      {t u : Load} (m : ℕ) (clock : ℕ → ℕ) (a : ℕ → Answers) (p : Polled)
      → Reach r n l t
      → IsKernel n m a
      → (p ≡ polled a) ⊎ (p ≡ poll_error eintr)
      → round_all r n clock p t ≡ some u
      → Reach r n l u

-- With at least one request per client, and fewer than 2 ^ 64, from a sound state every state is sound
-- that is reached by rounds in which send() and recv() keep to their sizes and are interrupted finitely
-- often, and poll() succeeds or is interrupted: each slot is, no finished request is open, and the shared counters are, modulo
-- 2 ^ 64, the sums of the requests completed and of the clients lost. A client without a descriptor
-- stays as it is: nothing reconnects it.
pub Reach-Stepped :
    {r n : ℕ} {l t : Load} → r < 2 ^ 64 → 0 < r → IsLoad r n l → Reach r n l t → Stepped r n l t
Reach-Stepped small pos w first = record { load = w; later = λ j e. refl }
Reach-Stepped {r} {n} {l} small pos w (next {t} {u} m clock a p run kernel answer q) =
    let before : Stepped r n l t = Reach-Stepped small pos w run in
    let (x, e, s) = round_all-Stepped small pos n m kernel clock p answer before.load in
    let same : x ≡ u = cc in
    record { load = rw same at s.load; later = Later-trans l t u before.later (rw same at s.later) }
