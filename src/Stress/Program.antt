-- ===== src/Stress/Program.antt =====
-- `main` of socket_test/stress_test_client.c as a whole: its arguments, its loop, and its exit status.
use linux_system_programing.Prelude.{
  ℕ, zero, suc, ◌*◌, ◌%◌, List, [], ◌∷◌, Option, none, some, Bool, false, not, ◌&&◌, ltb, ◌==◌,
  if◌then◌else◌, u64_mod,
}
use linux_system_programing.Kernel.{eintr}
use linux_system_programing.Stress.Client.{Stats, stats_init, Connected}
use linux_system_programing.Stress.Main.{
  Load, fresh, connect_all, before_all, Polled, polled, poll_error, round_all, goes_on,
}

-- An `int`: `negsuc n` is -(n + 1).
pub data ℤ : Type 0 where
  pos negsuc : ℕ → ℤ

-- DEFAULT_PORT, DEFAULT_CLIENTS and DEFAULT_REQUESTS
abbrev pub default_port : ℕ
default_port = 9191

abbrev pub default_clients : ℕ
default_clients = 256

abbrev pub default_requests : ℕ
default_requests = 1000

pub record Args : Type 0 where
  pub port : ℕ
  pub client_count : ℕ
  pub requests_per_client : ℕ

-- An `int` above zero.
abbrev pub positive : ℤ → Option ℕ
positive (pos zero) = none
positive (pos (suc n)) = some (suc n)
positive (negsuc n) = none

-- `total_requests`
abbrev pub total_requests : Args → ℕ
total_requests a = a.client_count * a.requests_per_client % u64_mod

-- The tests of `client_count` and `requests_per_client`, and then those of all three.
unfoldable pub accept_counts : (port : ℕ) → Option ℕ → ℕ → Option Args
accept_counts port none requests = none
accept_counts port (some clients) requests =
    if requests == 0
    then none
    else some (record { port = port; client_count = clients; requests_per_client = requests })

unfoldable pub accept : Option ℕ → Option ℕ → ℕ → Option Args
accept none clients requests = none
accept (some port) clients requests =
    if ltb 65_535 port then none else accept_counts port clients requests

-- atoi() and strtoull() are the C library's.
module _ {Str : Type 0} (atoi : Str → ℤ) (strtoull : Str → ℕ) where
  -- `argc > k ? f(argv[k]) : d`
  abbrev pub argument : {A : Type 0} → (Str → A) → A → ℕ → List Str → A
  argument f d k [] = d
  argument f d zero (s ∷ argv) = f s
  argument f d (suc k) (s ∷ argv) = argument f d k argv

  -- The arguments, or `none` where `main` returns EXIT_FAILURE for them.
  unfoldable pub parse : List Str → Option Args
  parse argv =
      accept (positive (argument atoi (pos default_port) 2 argv))
        (positive (argument atoi (pos default_clients) 3 argv))
        (argument strtoull default_requests 4 argv)

-- One round of the loop: `stop_requested` at its condition, what now_ns() returns before poll(), and poll().
pub record Round : Type 0 where
  pub stop : Bool
  pub clock : ℕ → ℕ
  pub answer : Polled

-- -1 with an `errno` other than EINTR
abbrev pub gives_up : Polled → Bool
gives_up (polled a) = false
gives_up (poll_error e) = not (e == eintr)

-- The loop of `main` on a list of rounds: `none` where the list ends before the loop does.
unfoldable pub loop : (requests n total : ℕ) → List Round → Load → Option Load
loop requests n total [] l = none
loop requests n total (k ∷ ks) l =
    if not k.stop && goes_on total l.stats
    then if gives_up k.answer
      then some (before_all requests k.clock n 0 l)
      else elim (round_all requests n k.clock k.answer l) [
        | none ↦ none
        | some t ↦ loop requests n total ks t
      ]
    else some l

-- What `main` gets from outside; `out_of_memory` says that one of its allocations, or the clock, fails.
pub record World : Type 0 where
  pub out_of_memory : Bool
  pub malloc : ℕ → List ℕ
  pub now : ℕ
  pub connect : ℕ → Connected
  pub rounds : List Round
  pub stop : Bool

-- The clients when the loop ends.
abbrev pub ended : Args → World → Option Load
ended a w =
    let total = total_requests a in
    loop a.requests_per_client a.client_count total w.rounds
      (connect_all w.connect a.client_count 0 (fresh (stats_init w.malloc w.now total)))

-- The exit status after the loop: `true` is EXIT_SUCCESS.
abbrev pub exit_status : Bool → Stats → Bool
exit_status stop s = s.failed == 0 && not stop

-- `main` with arguments that it accepts.
unfoldable pub main_with : Args → World → Option Bool
main_with a w =
    if w.out_of_memory
    then some false
    else elim (ended a w) [ none ↦ none | some t ↦ some (exit_status w.stop t.stats) ]

unfoldable pub main : {Str : Type 0} → (Str → ℤ) → (Str → ℕ) → List Str → World → Option Bool
main atoi strtoull argv w = elim (parse atoi strtoull argv) [
  | none ↦ some false
  | some a ↦ main_with a w
]
