-- ===== src/Stress/Echoed.antt =====
-- A load client of socket_test/stress_test_client.c at the server of socket_test/tcp_select_server_v2.c.
use linux_system_programing.Prelude.{
  ℕ, zero, suc, ◌+◌, ◌/◌, ◌%◌, ◌≤◌, ◌≡◌, refl, sym, ◌∙◌, ap, List, [], ◌∷◌, ◌++◌, append-nil,
  append_assoc, length, length-append, take, take_of_length-le, subst, some, false, ltb, arith,
  Bool-cases, inl, inr,
}
use linux_system_programing.Kernel.{Received}
use linux_system_programing.Bytes.{blit, length-blit}
use linux_system_programing.Lines.{
  newline, has_newline, complete, first_line, no_newline-append, first_line-one, complete-one,
  first_line_bounds,
}
use linux_system_programing.Echo.Views.{queued}
use linux_system_programing.Echo.Stream.{Stream, echo_stream}
use linux_system_programing.Echo.Client as EchoClient
use linux_system_programing.Stress.Client.{Client, Stats, buf_size}
use linux_system_programing.Stress.Request.{
  digits, decimal, request_text, prepare_request, length-request_text,
}
use linux_system_programing.Stress.Counts.{prepare_request-ok}
use linux_system_programing.Stress.Handlers.{handle_recv}
use linux_system_programing.Stress.Receiving.{
  asked, concat, HasRoom, Delivers, Completed, Ends, handle_recv-Completed,
}

digits_no_newline : (fuel n : ℕ) → has_newline (digits fuel n) ≡ false
unfolding digits has_newline
digits_no_newline zero n = refl
digits_no_newline (suc fuel) n = elim (Bool-cases (ltb n 10)) [
  | inl e ↦ rw e (ground arith)
  | inr e ↦ rw e (
      no_newline-append (digits fuel (n / 10)) ((b'0' + n % 10) ∷ [])
        (digits_no_newline fuel (n / 10)) (ground arith))
]

-- a request without its newline
abbrev request_front : ℕ → ℕ → List ℕ
request_front id sequence =
    b'b' ∷ b'e' ∷ b'n' ∷ b'c' ∷ b'h' ∷ b'-' ∷ (decimal id ++ b'-' ∷ decimal sequence)

request_text-eq :
    (id sequence : ℕ) → request_text id sequence ≡ request_front id sequence ++ newline ∷ []
unfolding request_text
request_text-eq id sequence =
    ap (λ l. b'b' ∷ b'e' ∷ b'n' ∷ b'c' ∷ b'h' ∷ b'-' ∷ l)
      (sym (append_assoc (decimal id) (b'-' ∷ decimal sequence) (newline ∷ [])))

request_front_no_newline : (id sequence : ℕ) → has_newline (request_front id sequence) ≡ false
unfolding has_newline
request_front_no_newline id sequence =
    no_newline-append (decimal id) (b'-' ∷ decimal sequence) (digits_no_newline 20 id)
      (digits_no_newline 20 sequence)

-- A request is one line.
request_text-one :
    (id sequence : ℕ)
    → (first_line (request_text id sequence) ≡ some (length (request_text id sequence)))
      × (complete (request_text id sequence) ≡ request_text id sequence)
request_text-one id sequence =
    let front = request_front id sequence in
    rw (request_text-eq id sequence) (
      first_line-one front (request_front_no_newline id sequence)
          ∙ ap some (omega (arith, length-append front (newline ∷ []))),
      complete-one front,
    )

take-blit_front :
    (buf xs ys : List ℕ) → length xs ≤ length buf → take (length xs) (blit buf 0 (xs ++ ys)) ≡ xs
unfolding blit
take-blit_front [] [] ys h = refl
take-blit_front [] (x ∷ xs) ys h = absurd (omega arith)
take-blit_front (b ∷ bs) [] ys h = refl
take-blit_front (b ∷ bs) (x ∷ xs) ys h = ap (λ l. x ∷ l) (take-blit_front bs xs ys (omega arith))

-- The client has this text as its request, and nothing of the answer.
record Asks (text : List ℕ) (c : Client) : Type 0 where
  request : asked c ≡ text
  room : HasRoom c
  size : c.send_len ≡ length text
  none_yet : c.recv_len ≡ 0

prepare_request-Asks :
    (started sequence : ℕ) (c : Client)
    → length c.send_buf ≡ buf_size
    → length c.recv_buf ≡ buf_size
    → Asks (request_text c.id sequence) (prepare_request started sequence c).0
prepare_request-Asks started sequence c send_room recv_room =
    let text = request_text c.id sequence in
    let few : length text ≤ 48 = length-request_text c.id sequence in
    subst (λ p. Asks text p.0) (sym (prepare_request-ok started sequence c))
      (record {
        request =
            ap (λ t. take (length text) (blit c.send_buf 0 (t ++ 0 ∷ [])))
              (take_of_length-le 255 text (omega arith))
            ∙ take-blit_front c.send_buf text (0 ∷ []) (omega arith);
        room = record {
          recv_room = recv_room;
          recv_in = omega arith;
          send_room = length-blit c.send_buf 0 (take 255 text ++ 0 ∷ []) ∙ send_room;
          len_in = omega arith;
        };
        size = refl;
        none_yet = refl;
      })

-- A client has prepared a request. Where a fresh connection of the server has received exactly that request,
-- however recv() cut it, and has sent all that it has queued, and recv() returns to the client what the server
-- has sent, in any pieces that are not empty: with fuel for the pieces the client ends its loop, the answer
-- passes its check, and the request counts as completed.
pub request-echoed :
    (started sequence : ℕ) (c : Client)
    → length c.send_buf ≡ buf_size
    → length c.recv_buf ≡ buf_size
    → {outs : List ℕ} {d : EchoClient.Client}
    → Stream EchoClient.init_client (asked (prepare_request started sequence c).0) outs d
    → queued d ≡ []
    → (k : ℕ → ℕ → Received) (now : ℕ) (pieces : List (List ℕ)) (fuel i : ℕ) (s : Stats)
    → concat pieces ≡ outs
    → Delivers k i pieces
    → length pieces ≤ fuel
    → let asking = (prepare_request started sequence c).0 in
      Ends (Completed now asking s) (handle_recv k now fuel i asking s)
request-echoed started sequence c send_room recv_room {outs} stream all_sent k now pieces fuel i s
      back delivers enough =
    let text = request_text c.id sequence in
    let a = prepare_request-Asks started sequence c send_room recv_room in
    let (line, whole) = request_text-one c.id sequence in
    let owed = echo_stream stream in
    let sent : outs ≡ text =
      sym (append-nil outs) ∙ rw all_sent at owed.0 ∙ ap complete a.request ∙ whole in
    handle_recv-Completed k now pieces fuel i s a.room
      (ap first_line a.request ∙ line ∙ ap some (sym a.size))
      (ap (λ n. take n (prepare_request started sequence c).0.recv_buf ++ concat pieces) a.none_yet
        ∙ back
        ∙ sent
        ∙ sym a.request)
      (omega (arith, a.none_yet, a.size, (first_line_bounds text (length text) line).0)) delivers
      enough
