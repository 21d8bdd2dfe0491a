-- ===== src/Sockets/Closing.antt =====
-- What the small programs of socket_test do on every path.
use linux_system_programing.Prelude.{
  ℕ, ◌+◌, ◌≤◌, ◌≡◌, ◌≢◌, ◌↔◌, refl, ap, List, [], ◌∷◌, length, Option, none, some, Option-cases,
  false, ◌==◌, if◌then◌else◌, arith, inl, inr,
}
use linux_system_programing.Kernel.{Fd, Received, bytes, recv_error}
use linux_system_programing.Strings.{c_string, c_string-ended}
use linux_system_programing.Sockets.Programs.{
  buf_size, response, message, Run, received, ServerCalls, serve_one, tcp_server, tcp_mini_server,
  ClientCalls, tcp_client, tcp_mini_client,
}

-- How often a descriptor stands in a list.
abbrev pub is_fd : ℕ → Fd → ℕ
is_fd d none = 0
is_fd d (some fd) = if fd == d then 1 else 0

abbrev pub times_closed : ℕ → List Fd → ℕ
times_closed d [] = 0
times_closed d (fd ∷ fds) = is_fd d fd + times_closed d fds

abbrev pub times_opened : ℕ → List ℕ → ℕ
times_opened d [] = 0
times_opened d (fd ∷ fds) = is_fd d (some fd) + times_opened d fds

-- Every descriptor that is opened is closed once, and no other; the order does not matter.
abbrev pub IsTidy : Run → Type 0
IsTidy r = (d : ℕ) → times_closed d r.closed ≡ times_opened d r.opened

-- What the server answers to what it has received.
abbrev pub answer : Option (List ℕ) → List (List ℕ)
answer none = []
answer (some text) = response ∷ []

-- What recv() brings: at least one byte.
abbrev pub text_of : Received → Option (List ℕ)
text_of (recv_error e) = none
text_of (bytes []) = none
text_of (bytes (x ∷ xs)) = some (c_string (x ∷ xs))

abbrev pub FitsBuf : Received → Type 0
FitsBuf (recv_error e) = Unit {0}
FitsBuf (bytes xs) = length xs ≤ 1023

received-text :
    (buf : List ℕ) (r : Received) → length buf ≡ buf_size → FitsBuf r → received buf r ≡ text_of r
unfolding received
received-text buf (recv_error e) whole fit = refl
received-text buf (bytes []) whole fit = refl
received-text buf (bytes (x ∷ xs)) whole fit = ap some (c_string-ended buf (x ∷ xs) (omega arith))

-- tcp_server.c, where recv() keeps to the 1023 bytes that it is asked for: on every path each descriptor that
-- was opened is closed once and no other; it exits 0 exactly when socket(), bind(), listen()
-- and accept() succeed, and then it has printed what recv() brought, up to a zero byte, and sent its response,
-- both only when that was at least one byte; else it has neither printed nor sent anything.
pub tcp_server-IsTidy :
    (buf : List ℕ) (k : ServerCalls)
    → length buf ≡ buf_size
    → FitsBuf k.recv
    → let r = tcp_server buf k in
      IsTidy r
      × (r.status ≡ 0 → (r.printed ≡ text_of k.recv) × (r.sent ≡ answer (text_of k.recv)))
      × (r.status ≢ 0 → (r.printed ≡ none) × (r.sent ≡ []))
      × ((r.status ≡ 0) ↔ (
          (k.socket ≢ none)
          × (k.bind_fails ≡ false)
          × (k.listen_fails ≡ false)
          × (k.accept ≢ none)))
unfolding tcp_server serve_one
tcp_server-IsTidy buf k whole fit =
    let text = received-text buf k.recv whole fit in ground (arith, text)

-- tcp_client.c and tcp_mini_client_test.c close what they open on every path.
pub clients-AreTidy :
    (buf : List ℕ) (k : ClientCalls)
    → length buf ≡ buf_size
    → FitsBuf k.recv
    → let r = tcp_client buf k in
      IsTidy r
      × IsTidy (tcp_mini_client k)
      × (r.status ≡ 0 → (r.printed ≡ text_of k.recv) × (r.sent ≡ message ∷ []))
      × (r.status ≢ 0 → (r.printed ≡ none) × (r.sent ≡ []))
unfolding tcp_client tcp_mini_client
clients-AreTidy buf k whole fit =
    let text = received-text buf k.recv whole fit in ground (arith, text)

-- tcp_mini_server_test.c closes what it opens when it exits 1, and else leaves its listening socket open.
pub tcp_mini_server-IsTidy :
    (k : ServerCalls)
    → let r = tcp_mini_server k in
      (r.status ≢ 0 → IsTidy r)
      × (r.status ≡ 0
          → (fd : ℕ) × (k.socket ≡ some fd)
            × ((d : ℕ) → times_opened d r.opened ≡ times_closed d r.closed + is_fd d (some fd)))
unfolding tcp_mini_server
tcp_mini_server-IsTidy k = elim (Option-cases k.socket) [
  | inl lost ↦ rw lost (λ q d. refl, λ q. absurd (omega (arith, q)))
  | inr (fd, e) ↦ rw e (λ q d. ground arith, λ q. (fd, refl, λ d. ground arith))
]
