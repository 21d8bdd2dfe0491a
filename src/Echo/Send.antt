-- ===== src/Echo/Send.antt =====
-- What `handle_send` of socket_test/tcp_select_server_v2.c does with each result of send().
use linux_system_programing.Prelude.{
  ℕ, ◌+◌, ◌-◌, ◌≤◌, ◌<◌, ◌≡◌, refl, sym, ap, inl, inr, ◌≢◌, List, [], ◌++◌, length, take, drop,
  arith, ltb, ◌==◌, true, Bool-cases, ltb→le, length-drop, sub_u64, add_u64, drop-take, drop-drop,
  drop_of_length-le, take-append-drop, ==_iff,
}
use linux_system_programing.Kernel.{Sent, took, send_error}
use linux_system_programing.Echo.Client.{Client, offered, advance, handle_send}
use linux_system_programing.Echo.Views.{pending, queued, IsValid, length-queued}

-- send() is offered what is queued.
pub offered-eq-queued : {c : Client} → IsValid c → offered c ≡ queued c
offered-eq-queued {c} v =
    let e : sub_u64 c.send_len c.send_offset ≡ c.send_len - c.send_offset =
      omega (arith, v.len_in, v.offset_in) in
    rw e (sym (drop-take c.send_offset c.send_len c.send_buf))

-- The client has given up `n` queued bytes, and is otherwise as it was.
pub record Gave (n : ℕ) (c c' : Client) : Type 0 where
  pub valid : IsValid c'
  pub out : queued c' ≡ drop n (queued c)
  pub left : pending c' ≡ pending c
  pub same_fd : c'.client_fd ≡ c.client_fd

advance-Gave : (n : ℕ) {c : Client} → IsValid c → n ≤ length (queued c) → Gave n c (advance n c)
unfolding advance
advance-Gave n {c} v h = elim (Bool-cases (c.send_len == add_u64 c.send_offset n)) [
  | inl all ↦ rw all (record {
    valid = record {
      recv_room = v.recv_room;
      message_room = v.message_room;
      used_in = v.used_in;
      send_room = v.send_room;
      len_in = omega arith;
      offset_in = omega arith;
      restarted = λ _. refl;
    };
    out = sym (drop_of_length-le n (queued c) (omega (arith, (==_iff _ _).0 all, words, room)));
    left = refl;
    same_fd = refl;
  })
  | inr some ↦
      rw (some, words)
        (record {
          valid = record {
            recv_room = v.recv_room;
            message_room = v.message_room;
            used_in = v.used_in;
            send_room = v.send_room;
            len_in = v.len_in;
            offset_in = omega (arith, v.offset_in, room);
            restarted = λ q. cc (some, (==_iff _ _).1 (exact q));
          };
          out = sym (
              drop-drop n c.send_offset (c.send_offset + n) (take c.send_len c.send_buf)
                (omega arith));
          left = refl;
          same_fd = refl;
        })
]
  where
    room : length (queued c) ≡ c.send_len - c.send_offset
    room = length-queued v

    words : add_u64 c.send_offset n ≡ c.send_offset + n
    words = omega (arith, v.len_in, v.offset_in, room)

    exact : c.send_len ≤ c.send_offset + n → c.send_len ≡ add_u64 c.send_offset n
    exact q = omega (arith, words, room, v.offset_in)

-- the bytes that a result of send() took from what it was offered
abbrev pub accepted : Sent → Client → List ℕ
accepted (took n) c = take n (offered c)
accepted (send_error e) c = []

-- send() takes no more than it is offered.
abbrev pub Takes : Sent → Client → Type 0
Takes (took n) c = n ≤ length (offered c)
Takes (send_error e) c = Unit {0}

-- Nothing is given.
stay-Gave : {c : Client} → IsValid c → Gave 0 c c
stay-Gave v = record { valid = v; out = refl; left = refl; same_fd = refl }

-- how many bytes a result of send() took
abbrev pub count : Sent → ℕ
count (took n) = n
count (send_error e) = 0

empty_queue :
    {c : Client} {n : ℕ}
    → IsValid c
    → n ≤ length (queued c)
    → (c.send_len == c.send_offset) ≡ true
    → n ≡ 0
empty_queue {c} v h e = omega (arith, length-queued v, (==_iff c.send_len c.send_offset).0 e)

pub handle_send-Gave :
    (s : Sent) {c : Client}
    → IsValid c
    → count s ≤ length (queued c)
    → Gave (count s) c (handle_send s c).0
unfolding handle_send
handle_send-Gave (took n) {c} v h = elim (Bool-cases (c.send_len == c.send_offset)) [
  | inl e ↦ rw (e, empty_queue v h e) (stay-Gave v)
  | inr e ↦ elim (Bool-cases (ltb 0 n)) [
    | inl pos ↦ rw (e, pos) (advance-Gave n v h)
    | inr zero ↦ let none : n ≡ 0 = omega (arith, ltb→le _ _ zero) in rw (e, none) (stay-Gave v)
  ]
]
handle_send-Gave (send_error e) {c} v h =
    let same : (handle_send (send_error e) c).0 ≡ c = ground arith in rw same (stay-Gave v)

-- From a valid client, whatever send() returns, as long as it takes no more than it is offered: the
-- bytes that it accepted are the first of the queue, the rest stays
-- queued in order, what is pending stays as it is, and the client is valid.
pub handle_send-queued :
    (s : Sent) {c : Client}
    → IsValid c
    → Takes s c
    → let c' = (handle_send s c).0 in
      (accepted s c ++ queued c' ≡ queued c)
      × (pending c' ≡ pending c)
      × (c'.client_fd ≡ c.client_fd)
      × IsValid c'
unfolding handle_send
handle_send-queued s {c} v h = whole s h
  where
    whole :
        (s : Sent)
        → Takes s c
        → let c' = (handle_send s c).0 in
          (accepted s c ++ queued c' ≡ queued c)
          × (pending c' ≡ pending c)
          × (c'.client_fd ≡ c.client_fd)
          × IsValid c'
    whole (took n) h =
        let g : Gave n c (handle_send (took n) c).0 =
          handle_send-Gave (took n) v (rw (offered-eq-queued v) at h) in
        (
          rw (g.out, offered-eq-queued v) (take-append-drop n (queued c)),
          g.left,
          g.same_fd,
          g.valid,
        )
    whole (send_error e) h =
        let g : Gave 0 c (handle_send (send_error e) c).0 =
          handle_send-Gave (send_error e) v (omega arith) in
        (g.out, g.left, g.same_fd, g.valid)

-- A queue that is not empty afterwards was not empty before.
pub Gave-shrinks :
    {n : ℕ} {c c' : Client}
    → IsValid c
    → Gave n c c'
    → c'.send_len ≢ c'.send_offset
    → c.send_offset < c.send_len
Gave-shrinks {n} {c} {c'} v g ne = omega (
  arith,
  ap (λ (l : List ℕ). length l) g.out,
  length-drop n (queued c),
  length-queued v,
  length-queued g.valid,
  g.valid.offset_in,
)
