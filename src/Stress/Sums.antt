-- ===== src/Stress/Sums.antt =====
-- The shared counters of socket_test/stress_test_client.c are the sums of what the clients did.
use linux_system_programing.Prelude.{
  ℕ, zero, suc, ◌+◌, ◌*◌, ◌%◌, ◌^◌, ◌≤◌, ◌<◌, ◌≡◌, ◌≢◌, refl, none, true, false, ◌==◌, arith,
  Bool-cases, inl, inr,
}
use linux_system_programing.Stress.Client.{Client, Stats}
use linux_system_programing.Stress.Loop.{Slot}
use linux_system_programing.Stress.Counts.{SlotSound, Turned, lost}
use linux_system_programing.Stress.Settled.{Settled}
use linux_system_programing.Stress.Main.{Load, slot_at, put_at, put_slot}

abbrev pub sum : (ℕ → ℕ) → ℕ → ℕ
sum f zero = 0
sum f (suc n) = sum f n + f n

sum-agree : (f g : ℕ → ℕ) (n : ℕ) → ((j : ℕ) → j < n → f j ≡ g j) → sum f n ≡ sum g n
sum-agree f g zero h = refl
sum-agree f g (suc n) h =
    omega (arith, sum-agree f g n (λ j k. h j (omega arith)), h n (omega arith))

-- One summand changes.
sum-change :
    (f g : ℕ → ℕ) (n i : ℕ) → i < n → ((j : ℕ) → j ≢ i → g j ≡ f j) → sum g n + f i ≡ sum f n + g i
sum-change f g zero i h same = absurd (omega arith)
sum-change f g (suc n) i h same = elim (Bool-cases (i == n)) [
  | inl e ↦
      let last : i ≡ n = ground arith in
      let rest : sum g n ≡ sum f n = sum-agree g f n (λ j k. same j (λ q. omega arith)) in
      rw last (omega (arith, rest))
  | inr e ↦
      let below : i < n = ground arith in
      omega (arith, sum-change f g n i below same, same n (λ q. omega arith))
]

pub sum-le : (f : ℕ → ℕ) (n r : ℕ) → ((j : ℕ) → j < n → f j ≤ r) → sum f n ≤ n * r
sum-le f zero r h = omega arith
sum-le f (suc n) r h = ground (arith, sum-le f n r (λ j k. h j (omega arith)), h n (omega arith))

-- Each slot is sound with no finished request open, and the shared counters are the sums, modulo
-- 2 ^ 64, of the requests completed and of the clients lost.
pub record IsLoad (r n : ℕ) (l : Load) : Type 0 where
  pub sound : (j : ℕ) → j < n → SlotSound r (slot_at j l)
  pub settled : (j : ℕ) → j < n → Settled (slot_at j l)
  pub completed_sum :
      l.stats.completed % 2 ^ 64 ≡ sum (λ j. (l.client j).request_completed) n % 2 ^ 64
  pub failed_sum : l.stats.failed % 2 ^ 64 ≡ sum (λ j. lost r (l.client j)) n % 2 ^ 64

-- A client without a descriptor stays as it is.
abbrev pub Later : Load → Load → Type 0
Later l t = (j : ℕ) → (l.client j).fd ≡ none → t.client j ≡ l.client j

other_stats :
    {r : ℕ} (c : Client) (k : ℕ) (st st' : Stats)
    → SlotSound r (record { client = c; next_sequence = k; stats = st })
    → SlotSound r (record { client = c; next_sequence = k; stats = st' })
other_stats c k st st' v = record { room = v.room; window = v.window; counts = v.counts }

pub put-IsLoad :
    {r n i : ℕ} {l : Load} (s : Slot)
    → i < n
    → Turned r (slot_at i l) s
    → Settled s
    → IsLoad r n l
    → IsLoad r n (put_slot i s l)
put-IsLoad {r} {n} {i} {l} s below turned quiet w = record {
  sound = λ j h. elim (Bool-cases (j == i)) [
    | inl e ↦ rw e turned.sound
    | inr e ↦ rw e (other_stats (l.client j) (l.next_sequence j) l.stats s.stats (w.sound j h))
  ];
  settled = λ j h. elim (Bool-cases (j == i)) [ inl e ↦ rw e quiet | inr e ↦ rw e (w.settled j h) ];
  completed_sum = omega (
    arith,
    turned.completions,
    w.completed_sum,
    changed (λ c. c.request_completed),
    here (λ c. c.request_completed),
  );
  failed_sum = omega (arith, turned.failures, w.failed_sum, changed (lost r), here (lost r));
}
  where
    here : (g : Client → ℕ) → g (put_at l.client i s.client i) ≡ g s.client
    here g = let e : (i == i) ≡ true = ground arith in rw e

    changed :
        (g : Client → ℕ)
        → sum (λ j. g (put_at l.client i s.client j)) n + g (l.client i)
          ≡ sum (λ j. g (l.client j)) n + g (put_at l.client i s.client i)
    changed g =
        sum-change (λ j. g (l.client j)) (λ j. g (put_at l.client i s.client j)) n i below
          (λ j ne. let e : (j == i) ≡ false = ground arith in rw e)
