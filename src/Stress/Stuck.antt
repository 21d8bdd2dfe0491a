-- ===== src/Stress/Stuck.antt =====
-- When the loop of `main` in socket_test/stress_test_client.c can stop.
use linux_system_programing.Prelude.{
  ℕ, zero, suc, ◌+◌, ◌*◌, ◌^◌, ◌≤◌, ◌<◌, ◌≡◌, refl, none, some, true, ltb, ◌==◌, if◌then◌else◌,
  add_u64, arith, Bool-cases, inl, inr, lt→ltb,
}
use linux_system_programing.Kernel.{Fd}
use linux_system_programing.Stress.Client.{Client, ClientState}
use linux_system_programing.Stress.Counts.{Counts, SlotSound, lost}
use linux_system_programing.Stress.Main.{Load, slot_at, goes_on}
use linux_system_programing.Stress.Sums.{sum, sum-le, IsLoad}
use linux_system_programing.Stress.Rounds.{Reach, Reach-Stepped, Stepped}

pub sum-add : (f g : ℕ → ℕ) (n : ℕ) → sum (λ j. f j + g j) n ≡ sum f n + sum g n
sum-add f g zero = refl
sum-add f g (suc n) = omega (arith, sum-add f g n)

pub sum-lt :
    (f : ℕ → ℕ) (n r i : ℕ) → ((j : ℕ) → j < n → f j ≤ r) → i < n → f i < r → sum f n < n * r
sum-lt f zero r i h below less = absurd (omega arith)
sum-lt f (suc n) r i h below less = elim (Bool-cases (i == n)) [
  | inl e ↦
      let last : f n < r = let q : i ≡ n = ground arith in rw q at less in
      ground (arith, sum-le f n r (λ j k. h j (omega arith)))
  | inr e ↦
      let before : i < n = ground arith in
      ground (arith, sum-lt f n r i (λ j k. h j (omega arith)) before less, h n (omega arith))
]

-- A client completes and loses no more than its requests.
Counts-le :
    (r : ℕ) (f : Fd) (st : ClientState) (n k : ℕ)
    → Counts r f st n k
    → k + (elim f [ none ↦ if ltb k r then 1 else 0 | some _ ↦ 0 ]) ≤ r
Counts-le r none st n k h = ground arith
Counts-le r (some fd) ClientState.connecting n k h = omega arith
Counts-le r (some fd) ClientState.writing n k h = omega arith
Counts-le r (some fd) ClientState.reading n k h = omega arith
Counts-le r (some fd) ClientState.done n k h = omega arith
Counts-le r (some fd) ClientState.broken n k h = absurd h

-- what a client adds to the shared counters
abbrev pub share : ℕ → Client → ℕ
share r c = c.request_completed + lost r c

module _ {r n : ℕ} {l : Load} (w : IsLoad r n l) (small : n * r < 2 ^ 64) where
  pub share-le : (j : ℕ) → j < n → share r (l.client j) ≤ r
  share-le j h =
      let v : SlotSound r (slot_at j l) = w.sound j h in
      Counts-le r (l.client j).fd (l.client j).state (l.next_sequence j)
        (l.client j).request_completed v.counts

  pub counters : add_u64 l.stats.completed l.stats.failed ≡ sum (λ j. share r (l.client j)) n
  counters = omega (
    arith,
    w.completed_sum,
    w.failed_sum,
    sum-add (λ j. (l.client j).request_completed) (λ j. lost r (l.client j)) n,
    sum-le (λ j. share r (l.client j)) n r share-le,
  )

  short_share-goes_on : (i : ℕ) → i < n → share r (l.client i) < r → goes_on (n * r) l.stats ≡ true
  unfolding goes_on
  short_share-goes_on i h less =
      lt→ltb _ _ (omega (arith, counters, sum-lt (λ j. share r (l.client j)) n r i share-le h less))

-- Where the requests of `n` clients with `r` each are counted in 64 bits, and from a sound state in which
-- a client has no descriptor and at least two of its requests are not complete: the condition of the
-- loop, that fewer requests are counted than the total, holds in every state reached from there by
-- rounds in which send() and recv() keep to their sizes and are interrupted finitely often, and poll()
-- succeeds or is interrupted, whatever the other clients do.
pub lost-goes_on :
    {r n : ℕ} {l t : Load} (i : ℕ)
    → r < 2 ^ 64
    → n * r < 2 ^ 64
    → IsLoad r n l
    → i < n
    → (l.client i).fd ≡ none
    → (l.client i).request_completed + 2 ≤ r
    → Reach r n l t
    → goes_on (n * r) t.stats ≡ true
lost-goes_on {r} {n} {l} {t} i small all_small w below closed left run =
    let s : Stepped r n l t = Reach-Stepped small (omega arith) w run in
    let same : t.client i ≡ l.client i = s.later i closed in
    short_share-goes_on s.load all_small i below (rw (same, closed) (ground arith))
