-- ===== src/PoolServer/Rounds.antt =====
-- `handle_client` of socket_test/server_pthread_pool.c over all that a connection receives.
use linux_system_programing.Prelude.{
  ℕ, suc, ◌+◌, ◌≤◌, ◌<◌, ◌≡◌, inl, inr, refl, ◌∙◌, sym, ap, List, [], ◌∷◌, ◌++◌, append-nil, length,
  Option, some, Bool, true, false, ltb, arith, Bool-cases, add_u64, ltb→le, subst, ◌==◌,
  if◌then◌else◌,
}
use linux_system_programing.Bytes.{length-blit, take-blit, take-blit_start}
use linux_system_programing.Lines.{complete, partial, complete-append, partial-append}
use linux_system_programing.Kernel.{Received, bytes, recv_error, Sent, would_block, eagain}
use linux_system_programing.Echo.Recv.{payload}
use linux_system_programing.Stress.Sending.{Honest}
use linux_system_programing.PoolServer.Client.{
  Conn, store, go_on, serve_round, handle_client, message_size, begin_client,
}
use linux_system_programing.PoolServer.Sends.{Moves}
use linux_system_programing.PoolServer.Echo.{
  pending, length-pending, IsConn, Wrote, Wrote-trans, echo_messages-Wrote,
}

-- recv() is asked for sizeof(buf) - 1 bytes.
abbrev pub AllFit : List Received → Type 0
AllFit [] = Unit {0}
AllFit (r ∷ rs) = (length (payload r) ≤ 1023) × AllFit rs

-- The bytes that `handle_client` serves of what recv() returns, behind those that it has served, and whether
-- it closes the connection: at the end of the stream, at an `errno` other than EAGAIN, or where the bytes do
-- not fit `message` behind the line that they go on with.
abbrev pub cut : List ℕ → List Received → List ℕ × Bool
cut ins [] = (ins, false)
cut ins (bytes [] ∷ rs) = (ins, true)
cut ins (bytes (x ∷ xs) ∷ rs) =
    let rest = cut (ins ++ x ∷ xs) rs in
    if ltb message_size (length (partial ins) + length (x ∷ xs)) then (ins, true) else rest
cut ins (recv_error e ∷ rs) = let rest = cut ins rs in if e == eagain then rest else (ins, true)

blocks : (e : ℕ) → would_block e ≡ (e == eagain)
blocks e = ground arith

-- what has been served so far
abbrev Served : (ℕ → ℕ → Sent) → List ℕ → Conn → Conn → Type 0
Served k ins c d = Wrote k (complete ins) (partial ins) c d

module _ (k : ℕ → ℕ → Sent) (tries : ℕ) (honest : Honest k) (moves : Moves k)
    (enough : message_size < tries) where
  -- More bytes are in `message`.
  go_on-Served :
      (ins xs : List ℕ) (c0 c c' : Conn)
      → Served k ins c0 c
      → IsConn c'
      → c'.out ≡ c.out
      → pending c' ≡ pending c ++ xs
      → (d : Conn) × (go_on k tries c' ≡ some (d, false)) × Served k (ins ++ xs) c0 d
  go_on-Served ins xs c0 c c' w v same more =
      let (d, e, s) =
        echo_messages-Wrote k tries honest moves enough (suc c'.used) c' (omega arith) v in
      let came : pending c' ≡ partial ins ++ xs = more ∙ ap (λ l. l ++ xs) w.left in
      let before : Wrote k (complete ins) (pending c') c0 c' = record {
        valid = v;
        left = refl;
        short = omega (arith, w.short, ap (λ (l : List ℕ). length l) same);
        whole = λ f. same ∙ w.whole f;
        mute = λ f. same ∙ w.mute f;
      } in
      (
        d,
        rw (e, go_on) refl,
        rw (complete-append ins xs, partial-append ins xs)
            (Wrote-trans before (subst (λ l. Wrote k (complete l) (partial l) c' d) came s)),
      )

  store-room :
      (xs : List ℕ) (c : Conn)
      → IsConn c
      → length xs ≤ 1023
      → c.used + length xs ≤ message_size
      → IsConn (store xs c) × (pending (store xs c) ≡ pending c ++ xs)
  unfolding store
  store-room xs c v few room =
      let word : add_u64 c.used (length xs) ≡ c.used + length xs = omega (arith, few, v.used_in) in
      (
        record {
          buf_room = length-blit _ _ _ ∙ v.buf_room;
          message_room = length-blit _ _ _ ∙ v.message_room;
          used_in = omega (arith, word, room);
        },
        rw (word, take-blit_start c.buf xs (omega (arith, few, v.buf_room)))
            (take-blit c.message c.used (c.used + length xs) xs refl
              (omega (arith, v.message_room, room))),
      )

  out-store : (xs : List ℕ) (c : Conn) → (store xs c).out ≡ c.out
  unfolding store
  out-store xs c = refl

  -- A round that closes leaves what has been served.
  broken-Served :
      (ins : List ℕ) (c0 c : Conn) (b : List ℕ)
      → Served k ins c0 c
      → length b ≡ 1024
      → Served k ins c0 (record c { buf = b })
  broken-Served ins c0 c b w h = record {
    valid = record { buf_room = h; message_room = w.valid.message_room; used_in = w.valid.used_in };
    left = w.left;
    short = w.short;
    whole = w.whole;
    mute = w.mute;
  }

  -- The handler has served these bytes, and has closed the connection or not.
  abbrev Serves : List ℕ × Bool → Conn → Option (Conn × Bool) → Type 0
  Serves (ins, closed) c0 o = (d : Conn) × (o ≡ some (d, closed)) × Served k ins c0 d

  used-Served : (ins : List ℕ) (c0 c : Conn) → Served k ins c0 c → c.used ≡ length (partial ins)
  used-Served ins c0 c w =
      omega (arith, length-pending w.valid, ap (λ (l : List ℕ). length l) w.left)

  handle_client-Serves :
      (ins : List ℕ) (rs : List Received) (c0 c : Conn)
      → Served k ins c0 c
      → AllFit rs
      → Serves (cut ins rs) c0 (handle_client k tries rs c)
  unfolding handle_client serve_round
  handle_client-Serves ins [] c0 c w few = (c, refl, w)
  handle_client-Serves ins (bytes [] ∷ rs) c0 c w few = (c, refl, w)
  handle_client-Serves ins (bytes (x ∷ xs) ∷ rs) c0 c w few =
      let size : c.used ≡ length (partial ins) = used-Served ins c0 c w in
      let word : add_u64 c.used (length (x ∷ xs)) ≡ length (partial ins) + length (x ∷ xs) =
        omega (arith, size, few.0, w.valid.used_in) in
      elim (Bool-cases (ltb message_size (length (partial ins) + length (x ∷ xs)))) [
        | inl over ↦
            rw (word, over, handle_client)
              (_, refl, broken-Served ins c0 c _ w (length-blit _ _ _ ∙ w.valid.buf_room))
        | inr under ↦
            let (v, more) =
              store-room (x ∷ xs) c w.valid few.0 (omega (arith, size, ltb→le _ _ under)) in
            let (d, e, u) =
              go_on-Served ins (x ∷ xs) c0 c (store (x ∷ xs) c) w v (out-store (x ∷ xs) c) more in
            rw (word, under, e, handle_client)
              (handle_client-Serves (ins ++ x ∷ xs) rs c0 d u few.1)
      ]
  handle_client-Serves ins (recv_error e ∷ rs) c0 c w few = elim (Bool-cases (e == eagain)) [
    | inl wait ↦
        let (d, q, u) = go_on-Served ins [] c0 c c w w.valid refl (sym (append-nil (pending c))) in
        rw (blocks e, wait, q, handle_client)
          (handle_client-Serves ins rs c0 d (subst (λ l. Served k l c0 d) (append-nil ins) u) few.1)
    | inr broken ↦ rw (blocks e, broken, handle_client) (c, refl, w)
  ]

begin-Served :
    (k : ℕ → ℕ → Sent) (buf message : List ℕ)
    → length buf ≡ 1024
    → length message ≡ message_size
    → Served k [] (begin_client buf message) (begin_client buf message)
unfolding begin_client complete partial
begin-Served k buf message p q = record {
  valid = record { buf_room = p; message_room = q; used_in = omega arith };
  left = refl;
  short = omega arith;
  whole = λ f. refl;
  mute = λ f. refl;
}

-- Whatever recv() returns, up to 1023 bytes each time, where send() takes at least one byte and no more than
-- it is offered, and the fuel is above the size of a message buffer: the handler's loops end. It closes the
-- connection exactly at the first end of the stream, `errno` other than EAGAIN, or bytes that do not fit
-- `message` behind the unfinished line; of all that came before, the bytes after the last newline are
-- pending, and if no send() failed, exactly the lines were sent. But the lines leave the buffer also where
-- send() fails: if every call does, nothing was sent, and the same bytes are pending.
pub handle_client-echoes :
    (k : ℕ → ℕ → Sent) (tries : ℕ) (rs : List Received) (buf message : List ℕ)
    → Honest k
    → Moves k
    → message_size < tries
    → length buf ≡ 1024
    → length message ≡ message_size
    → AllFit rs
    → let (ins, closed) = cut [] rs in
      (d : Conn) × (handle_client k tries rs (begin_client buf message) ≡ some (d, closed))
      × Wrote k (complete ins) (partial ins) (begin_client buf message) d
handle_client-echoes k tries rs buf message honest moves enough p q few =
    handle_client-Serves k tries honest moves enough [] rs (begin_client buf message)
      (begin_client buf message) (begin-Served k buf message p q) few
