-- ===== src/Sockets/Programs.antt =====
-- `main` of socket_test/tcp_server.c, tcp_client.c, tcp_mini_server_test.c and tcp_mini_client_test.c, by the
-- results of their calls. `none` stands for the descriptor -1.
use linux_system_programing.Prelude.{
  ℕ, List, [], ◌∷◌, ◌++◌, length, Option, none, some, Bool, if◌then◌else◌,
}
use linux_system_programing.Kernel.{Fd, Received, bytes, recv_error}
use linux_system_programing.Bytes.{blit}
use linux_system_programing.Strings.{c_string}

-- sizeof(buf)
abbrev pub buf_size : ℕ
buf_size = 1024

-- "Hello from server" and "Hello from client"
abbrev pub hello_from : List ℕ
hello_from = b'H' ∷ b'e' ∷ b'l' ∷ b'l' ∷ b'o' ∷ b' ' ∷ b'f' ∷ b'r' ∷ b'o' ∷ b'm' ∷ b' ' ∷ []

abbrev pub response : List ℕ
response = hello_from ++ b's' ∷ b'e' ∷ b'r' ∷ b'v' ∷ b'e' ∷ b'r' ∷ []

abbrev pub message : List ℕ
message = hello_from ++ b'c' ∷ b'l' ∷ b'i' ∷ b'e' ∷ b'n' ∷ b't' ∷ []

-- What a program has done when it ends: the descriptors that it has opened and those that it has closed, newest
-- first, what it has printed of received bytes, what it has sent, and its exit status.
pub record Run : Type 0 where
  pub opened : List ℕ
  pub closed : List Fd
  pub printed : Option (List ℕ)
  pub sent : List (List ℕ)
  pub status : ℕ

-- exit(status)
abbrev pub exit : ℕ → List ℕ → List Fd → Run
exit status opened closed = record {
  opened = opened;
  closed = closed;
  printed = none;
  sent = [];
  status = status;
}

-- What is printed after recv(), into a `buf` with any contents.
unfoldable pub received : List ℕ → Received → Option (List ℕ)
received buf (recv_error e) = none
received buf (bytes []) = none
received buf (bytes (x ∷ xs)) =
    some (c_string (blit (blit buf 0 (x ∷ xs)) (length (x ∷ xs)) (0 ∷ [])))

-- The results of the calls of a server.
pub record ServerCalls : Type 0 where
  pub socket : Fd
  pub bind_fails : Bool
  pub listen_fails : Bool
  pub accept : Fd
  pub recv : Received

-- tcp_server.c from accept() on
unfoldable pub serve_one : List ℕ → ServerCalls → ℕ → Run
serve_one buf k fd = elim k.accept [
  | none ↦ exit 1 (fd ∷ []) (some fd ∷ [])
  | some client_fd ↦
      let printed = received buf k.recv in
      record {
        opened = client_fd ∷ fd ∷ [];
        closed = some fd ∷ some client_fd ∷ [];
        printed = printed;
        sent = elim printed [ none ↦ [] | some text ↦ response ∷ [] ];
        status = 0;
      }
]

unfoldable pub tcp_server : List ℕ → ServerCalls → Run
tcp_server buf k = elim k.socket [
  | none ↦ exit 1 [] []
  | some fd ↦
      if k.bind_fails
      then exit 1 (fd ∷ []) (some fd ∷ [])
      else if k.listen_fails
      then exit 1 (fd ∷ []) (some fd ∷ [])
      else serve_one buf k fd
]

-- tcp_mini_server_test.c; its close() of `server_fd` at the end is commented out.
unfoldable pub tcp_mini_server : ServerCalls → Run
tcp_mini_server k = elim k.socket [
  | none ↦ exit 1 [] []
  | some fd ↦
      if k.bind_fails
      then exit 1 (fd ∷ []) (some fd ∷ [])
      else if k.listen_fails
      then exit 1 (fd ∷ []) (some fd ∷ [])
      else elim k.accept [
        | none ↦ exit 1 (fd ∷ []) (some fd ∷ none ∷ [])
        | some client_fd ↦ exit 0 (client_fd ∷ fd ∷ []) (some client_fd ∷ [])
      ]
]

-- The results of the calls of a client.
pub record ClientCalls : Type 0 where
  pub socket : Fd
  pub inet_pton_fails : Bool
  pub connect_fails : Bool
  pub recv : Received

unfoldable pub tcp_client : List ℕ → ClientCalls → Run
tcp_client buf k = elim k.socket [
  | none ↦ exit 1 [] []
  | some fd ↦
      if k.inet_pton_fails
      then exit 1 (fd ∷ []) (some fd ∷ [])
      else if k.connect_fails
      then exit 1 (fd ∷ []) (some fd ∷ [])
      else record {
        opened = fd ∷ [];
        closed = some fd ∷ [];
        printed = received buf k.recv;
        sent = message ∷ [];
        status = 0;
      }
]

-- tcp_mini_client_test.c, which closes -1 when socket() fails
unfoldable pub tcp_mini_client : ClientCalls → Run
tcp_mini_client k = elim k.socket [
  | none ↦ exit 1 [] (none ∷ [])
  | some fd ↦
      if k.connect_fails then exit 1 (fd ∷ []) (some fd ∷ []) else exit 0 (fd ∷ []) (some fd ∷ [])
]
