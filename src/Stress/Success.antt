-- ===== src/Stress/Success.antt =====
-- What EXIT_SUCCESS of socket_test/stress_test_client.c says.
use linux_system_programing.Prelude.{
  ℕ, zero, suc, ◌*◌, ◌^◌, ◌≤◌, ◌<◌, ◌≡◌, ◌⊎◌, inl, inr, refl, sym, ◌∙◌, List, [], ◌∷◌, Option, none,
  some, Bool, true, false, ltb, ltb→lt, ltb→le, ◌==◌, arith, Bool-cases, Option-cases,
}
use linux_system_programing.Kernel.{eintr}
use linux_system_programing.Stress.Client.{stats_init}
use linux_system_programing.Stress.Loop.{Answers}
use linux_system_programing.Stress.Counts.{lost}
use linux_system_programing.Stress.Main.{Load, Polled, polled, poll_error, goes_on}
use linux_system_programing.Stress.Sums.{sum, sum-le, IsLoad}
use linux_system_programing.Stress.Rounds.{IsKernel, round_all-Stepped}
use linux_system_programing.Stress.Start.{connect_all-starts}
use linux_system_programing.Stress.Stuck.{share, counters, share-le, sum-add, sum-lt}
use linux_system_programing.Stress.Program.{
  ℤ, pos, negsuc, Args, total_requests, positive, accept, accept_counts, argument, parse, Round,
  gives_up, loop, World, ended, exit_status, main_with, main,
}

-- In each round poll() succeeds or is interrupted, and the calls of the turns keep to their sizes and are
-- interrupted finitely often; `stop_requested` stays set, so that it is set at the end too.
abbrev pub AllHonest : ℕ → Bool → List Round → Type 0
AllHonest n stop [] = Unit {0}
AllHonest n stop (k ∷ ks) =
    ((m : ℕ) × (a : ℕ → Answers) × IsKernel n m a
      × ((k.answer ≡ polled a) ⊎ (k.answer ≡ poll_error eintr)))
    × (k.stop ≡ true → stop ≡ true)
    × AllHonest n stop ks

not_giving_up :
    {a : ℕ → Answers} (p : Polled) → (p ≡ polled a) ⊎ (p ≡ poll_error eintr) → gives_up p ≡ false
not_giving_up p (inl e) = rw e refl
not_giving_up p (inr e) = rw e refl

module _ (r n total : ℕ) (small : r < 2 ^ 64) (some_requests : 0 < r) where
  finish :
      {l t : Load}
      → l ≡ t
      → IsLoad r n l
      → goes_on total l.stats ≡ false
      → IsLoad r n t × (goes_on total t.stats ≡ false)
  finish same w over = (rw same at w, rw same at over)

  -- Without a signal, the loop ends when its condition fails.
  loop-ends :
      (ks : List Round) (l t : Load)
      → AllHonest n false ks
      → IsLoad r n l
      → loop r n total ks l ≡ some t
      → IsLoad r n t × (goes_on total t.stats ≡ false)
  unfolding loop
  loop-ends [] l t h w e = absurd (cc e)
  loop-ends (k ∷ ks) l t ((m, a, kernel, answer), once, more) w e = elim (Bool-cases k.stop) [
    | inl stop ↦ absurd (cc (once stop))
    | inr on ↦ elim (Bool-cases (goes_on total l.stats)) [
      | inr over ↦ let same : l ≡ t = cc (rw (on, over, loop) at e) in finish same w over
      | inl goes ↦
          let (u, q, stepped) =
            round_all-Stepped small some_requests n m kernel k.clock k.answer answer w in
          loop-ends ks u t more stepped.load
            (rw (on, goes, not_giving_up k.answer answer, q, loop) at e)
    ]
  ]

le-sum : (f : ℕ → ℕ) (n i : ℕ) → i < n → f i ≤ sum f n
le-sum f zero i h = absurd (omega arith)
le-sum f (suc n) i h = elim (Bool-cases (i == n)) [
  | inl e ↦ ground arith
  | inr e ↦ let before : i < n = ground arith in omega (arith, le-sum f n i before)
]

-- All requests are counted and none has failed.
all_completed :
    (r n : ℕ) {t : Load}
    → n * r < 2 ^ 64
    → IsLoad r n t
    → goes_on (n * r) t.stats ≡ false
    → t.stats.failed ≡ 0
    → (i : ℕ) → i < n
    → (t.client i).request_completed ≡ r
unfolding goes_on
all_completed r n {t} fits w over none_failed i h =
    let shares : ℕ → ℕ = λ j. share r (t.client j) in
    let completed : ℕ → ℕ = λ j. (t.client j).request_completed in
    let losses : ℕ → ℕ = λ j. lost r (t.client j) in
    let total = counters w fits in
    let most = sum-le shares n r (share-le w fits) in
    let parts = sum-add completed losses n in
    let none_lost : sum losses n ≡ 0 = omega (arith, w.failed_sum, none_failed, parts, most) in
    let mine = le-sum losses n i h in
    let enough : n * r ≤ sum shares n = omega (arith, ltb→le _ _ over, total) in
    elim (Bool-cases (ltb (shares i) r)) [
      | inl less ↦
          absurd (omega (arith, enough, sum-lt shares n r i (share-le w fits) h (ltb→lt _ _ less)))
      | inr all ↦ omega (arith, share-le w fits i h, ltb→le _ _ all, none_lost, mine)
    ]

-- What `main` accepts.
pub record IsArgs (a : Args) : Type 0 where
  pub port_in : (0 < a.port) × (a.port < 2 ^ 16)
  pub some_clients : 0 < a.client_count
  pub some_requests : 0 < a.requests_per_client

positive-pos : (x : ℤ) (n : ℕ) → positive x ≡ some n → 0 < n
positive-pos (pos zero) n e = absurd (cc e)
positive-pos (pos (suc m)) n e = let same : suc m ≡ n = cc e in omega arith
positive-pos (negsuc m) n e = absurd (cc e)

accept_counts-IsArgs :
    (port : ℕ) (c : Option ℕ) (requests : ℕ) (a : Args)
    → 0 < port
    → port ≤ 65_535
    → ((n : ℕ) → c ≡ some n → 0 < n)
    → accept_counts port c requests ≡ some a
    → IsArgs a
unfolding accept_counts
accept_counts-IsArgs port none requests a low high some_clients e = absurd (cc e)
accept_counts-IsArgs port (some n) requests a low high some_clients e =
    elim (Bool-cases (requests == 0)) [
      | inl no_requests ↦ absurd (cc (rw (no_requests, accept_counts) at e))
      | inr requested ↦
          let args : Args = record {
            port = port;
            client_count = n;
            requests_per_client = requests;
          } in
          let same : args ≡ a = cc (rw (requested, accept_counts) at e) in
          let good : IsArgs args = record {
            port_in = (low, omega arith);
            some_clients = some_clients n refl;
            some_requests = ground arith;
          } in
          rw same at good
    ]

accept-IsArgs :
    (p c : Option ℕ) (requests : ℕ) (a : Args)
    → ((n : ℕ) → p ≡ some n → 0 < n)
    → ((n : ℕ) → c ≡ some n → 0 < n)
    → accept p c requests ≡ some a
    → IsArgs a
unfolding accept
accept-IsArgs none c requests a hp hc e = absurd (cc e)
accept-IsArgs (some port) c requests a hp hc e = elim (Bool-cases (ltb 65_535 port)) [
  | inl over ↦ absurd (cc (rw (over, accept) at e))
  | inr room ↦
      accept_counts-IsArgs port c requests a (hp port refl) (ltb→le _ _ room) hc
        (rw (room, accept) at e)
]

mul-ge : (n r : ℕ) → 0 < n → r ≤ n * r
mul-ge zero r h = absurd (omega arith)
mul-ge (suc n) r h = ground arith

exit_success :
    (a : Args) (w : World)
    → main_with a w ≡ some true
    → (t : Load) × (ended a w ≡ some t) × (t.stats.failed ≡ 0) × (w.stop ≡ false)
unfolding main_with
exit_success a w e = elim (Bool-cases w.out_of_memory) [
  | inl out ↦ absurd (cc (rw (out, main_with) at e))
  | inr room ↦ elim (Option-cases (ended a w)) [
    | inl running ↦ absurd (cc (rw (room, running, main_with) at e))
    | inr (t, over) ↦
        let status : exit_status w.stop t.stats ≡ true = cc (rw (room, over, main_with) at e) in
        (t, over, ground arith, ground arith)
  ]
]

main-eq :
    {Str : Type 0} (atoi : Str → ℤ) (strtoull : Str → ℕ) (argv : List Str) (w : World) (a : Args)
    → parse atoi strtoull argv ≡ some a
    → main atoi strtoull argv w ≡ main_with a w
unfolding main
main-eq atoi strtoull argv w a accepted = rw (accepted, main) refl

-- When `main` returns EXIT_SUCCESS, where poll() succeeds or is interrupted in each round, the calls of the
-- turns keep to their sizes and are interrupted finitely often, a signal once seen stays seen, and the
-- requests of all clients are fewer than 2 ^ 64 together: its arguments were a port, a count of clients and
-- a count of requests above 0, and every client has completed all its requests.
pub main-success :
    {Str : Type 0} (atoi : Str → ℤ) (strtoull : Str → ℕ) (argv : List Str) (w : World) (a : Args)
    → parse atoi strtoull argv ≡ some a
    → a.client_count * a.requests_per_client < 2 ^ 64
    → AllHonest a.client_count w.stop w.rounds
    → main atoi strtoull argv w ≡ some true
    → IsArgs a
      × ((t : Load) × (ended a w ≡ some t)
          × ((i : ℕ) → i < a.client_count → (t.client i).request_completed ≡ a.requests_per_client))
unfolding parse stats_init
main-success atoi strtoull argv w a accepted fits honest e =
    let good : IsArgs a =
      accept-IsArgs _ _ (argument atoi strtoull strtoull 1000 4 argv) a
        (positive-pos (argument atoi strtoull atoi (pos 9191) 2 argv))
        (positive-pos (argument atoi strtoull atoi (pos 256) 3 argv)) accepted in
    let n = a.client_count in
    let r = a.requests_per_client in
    let small : r < 2 ^ 64 = omega (arith, mul-ge n r good.some_clients) in
    let total : total_requests a ≡ n * r = omega arith in
    let (t, over, none_failed, no_signal) =
      exit_success a w (sym (main-eq atoi strtoull argv w a accepted) ∙ e) in
    let start =
      connect_all-starts w.connect r n (stats_init w.malloc w.now (total_requests a))
        good.some_requests refl refl in
    let (sound, left) =
      loop-ends r n (total_requests a) small good.some_requests w.rounds _ t
        (rw no_signal at honest) start.0 over in
    (good, (t, over, all_completed r n fits sound (rw total at left) none_failed))
