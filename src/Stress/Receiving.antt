-- ===== src/Stress/Receiving.antt =====
-- The receiving loop of socket_test/stress_test_client.c.
use linux_system_programing.Prelude.{
  ℕ, zero, suc, ◌+◌, ◌<◌, ◌≤◌, ◌≡◌, inl, inr, refl, sym, ◌∙◌, ap, List, [], ◌∷◌, ◌++◌, length, take,
  Option, none, some, true, false, ltb, leb, ◌==◌, arith, Bool-cases, add_u64, sub_u64, ltb→lt,
  ltb→le, append_assoc, append-nil, length-append, length-take, ◌↔◌,
}
use linux_system_programing.Bytes.{length-blit, take-blit}
use linux_system_programing.Lines.{first_line, first_line-none_of_prefix}
use linux_system_programing.Kernel.{Received, bytes}
use linux_system_programing.Echo.Client.{ok, scan}
use linux_system_programing.Echo.Copy.{scan-eq-first_line}
use linux_system_programing.Stress.Client.{Client, ClientState, Stats, buf_size, record_latency}
use linux_system_programing.Stress.Handlers.{
  Outcome, handle_recv, store_answer, check_answer, finish_request, same_bytes,
}

-- the bytes of the answer that have come
abbrev pub heard : Client → List ℕ
heard c = take c.recv_len c.recv_buf

-- the bytes of the request
abbrev pub asked : Client → List ℕ
asked c = take c.send_len c.send_buf

pub record HasRoom (c : Client) : Type 0 where
  pub recv_room : length c.recv_buf ≡ buf_size
  pub recv_in : c.recv_len ≤ buf_size
  pub send_room : length c.send_buf ≡ buf_size
  pub len_in : c.send_len ≤ buf_size

module _ (xs : List ℕ) {c : Client} (v : HasRoom c) (fits : c.recv_len + length xs ≤ buf_size) where
  recv_word : add_u64 c.recv_len (length xs) ≡ c.recv_len + length xs
  recv_word = omega arith

  pub store_answer-HasRoom : HasRoom (store_answer xs c)
  unfolding store_answer
  store_answer-HasRoom = record {
    recv_room = length-blit _ _ _ ∙ v.recv_room;
    recv_in = omega (arith, recv_word);
    send_room = v.send_room;
    len_in = v.len_in;
  }

  heard-store_answer : heard (store_answer xs c) ≡ heard c ++ xs
  unfolding store_answer
  heard-store_answer = rw recv_word (
      take-blit c.recv_buf c.recv_len (c.recv_len + length xs) xs refl (omega (arith, v.recv_room)))

-- memcmp() is equality of the bytes compared.
pub same_bytes_iff :
    (n : ℕ) (a b : List ℕ)
    → n ≤ length a
    → n ≤ length b
    → (same_bytes n a b ≡ true) ↔ (take n a ≡ take n b)
unfolding same_bytes
same_bytes_iff zero a b h k = (λ _. refl, λ _. refl)
same_bytes_iff (suc n) [] b h k = absurd (omega arith)
same_bytes_iff (suc n) (x ∷ a) [] h k = absurd (omega arith)
same_bytes_iff (suc n) (x ∷ a) (y ∷ b) h k =
    let ih : (same_bytes n a b ≡ true) ↔ (take n a ≡ take n b) =
      same_bytes_iff n a b (omega arith) (omega arith) in
    ground (arith, ih)

abbrev pub concat : List (List ℕ) → List ℕ
concat [] = []
concat (p ∷ ps) = p ++ concat ps

-- The calls of recv() from the `i`-th on return these pieces, none of them empty.
abbrev pub Delivers : (ℕ → ℕ → Received) → ℕ → List (List ℕ) → Type 0
Delivers k i [] = Unit {0}
Delivers k i (p ∷ ps) = ((n : ℕ) → k i n ≡ bytes p) × (0 < length p) × Delivers k (i + 1) ps

-- The handler has returned 0 with the request of `c` complete, and the answer taken off the buffer.
pub record Completed (now : ℕ) (c : Client) (s : Stats) (o : Outcome) : Type 0 where
  pub returned : o.ret ≡ ok
  pub finished : o.client.state ≡ ClientState.done
  pub emptied : o.client.recv_len ≡ 0
  pub tally : o.client.request_completed ≡ add_u64 c.request_completed 1
  pub total : o.stats.completed ≡ add_u64 s.completed 1
  pub same_fd : o.client.fd ≡ c.fd

-- `P` holds of the result, and there is one.
abbrev pub Ends : (Outcome → Type 0) → Option Outcome → Type 0
Ends P none = ⊥
Ends P (some o) = P o

pub completed-record_latency : (x : ℕ) (s : Stats) → (record_latency x s).completed ≡ s.completed
unfolding record_latency
completed-record_latency x s = ground arith

finish_request-Completed :
    (now : ℕ) (c : Client) (s : Stats)
    → Ends (Completed now c s) (finish_request now c.recv_len c s)
unfolding finish_request
finish_request-Completed now c s = elim (Bool-cases (ltb c.recv_len c.recv_len)) [
  | inl wrong ↦ absurd (omega (arith, ltb→lt _ _ wrong))
  | inr all ↦ rw all (record {
    returned = refl;
    finished = refl;
    emptied = refl;
    tally = refl;
    total = ap (λ n. add_u64 n 1) (completed-record_latency _ s);
    same_fd = refl;
  })
]

pub length-heard : {c : Client} → HasRoom c → length (heard c) ≡ c.recv_len
length-heard {c} v = omega (arith, length-take c.recv_len c.recv_buf, v.recv_room, v.recv_in)

length-asked : {c : Client} → HasRoom c → length (asked c) ≡ c.send_len
length-asked {c} v = omega (arith, length-take c.send_len c.send_buf, v.send_room, v.len_in)

-- The whole answer is there, and is the request.
check_answer-Completed :
    (now : ℕ) {c : Client} (s : Stats)
    → HasRoom c
    → c.recv_len ≡ c.send_len
    → heard c ≡ asked c
    → Ends (Completed now c s) (check_answer now c.send_len c s)
unfolding check_answer
check_answer-Completed now {c} s v same_len same =
    rw (same_size, equal)
      (rw (ap (λ m. finish_request now m c s) (sym same_len)) (finish_request-Completed now c s))
  where
    same_size : (c.send_len == c.send_len) ≡ true
    same_size = ground arith

    equal : same_bytes c.send_len c.recv_buf c.send_buf ≡ true
    equal =
        (same_bytes_iff c.send_len c.recv_buf c.send_buf (omega (arith, v.recv_room, v.len_in))
            (omega (arith, v.send_room, v.len_in))).1
          (ap (λ n. take n c.recv_buf) (sym same_len) ∙ same)

nil_of_length : (xs : List ℕ) → length xs ≡ 0 → xs ≡ []
nil_of_length [] h = refl
nil_of_length (x ∷ xs) h = absurd (omega arith)

-- What one piece of an answer changes.
module _ (p rest : List ℕ) {c : Client} (v : HasRoom c)
    (whole : heard c ++ (p ++ rest) ≡ asked c) where
  lengths : c.recv_len + length p + length rest ≡ c.send_len
  lengths = omega (
    arith,
    ap (λ (l : List ℕ). length l) whole,
    length-append (heard c) (p ++ rest),
    length-append p rest,
    length-heard v,
    length-asked v,
  )

  fits : c.recv_len + length p ≤ buf_size
  fits = omega (arith, lengths, v.len_in)

  abbrev next : Client
  next = store_answer p c

  next-HasRoom : HasRoom next
  next-HasRoom = store_answer-HasRoom p v fits

  found : scan next.recv_buf next.recv_len 0 ≡ first_line (heard c ++ p)
  found =
      scan-eq-first_line _ _ (omega (arith, next-HasRoom.recv_in, next-HasRoom.recv_room))
      ∙ ap first_line (heard-store_answer p v fits)

  recv_len-next : next.recv_len ≡ c.recv_len + length p
  unfolding store_answer
  recv_len-next = recv_word p v fits

  not_yet :
      first_line (asked c) ≡ some c.send_len
      → 0 < length rest
      → scan next.recv_buf next.recv_len 0 ≡ none
  not_yet line more =
      found
      ∙ first_line-none_of_prefix (heard c ++ p) rest c.send_len
          (ap first_line (append_assoc (heard c) p rest ∙ whole) ∙ line)
          (omega (arith, length-append (heard c) p, length-heard v, lengths))

  heard-next : length rest ≡ 0 → heard next ≡ asked c
  heard-next none_left =
      heard-store_answer p v fits
      ∙ sym (append-nil (heard c ++ p))
      ∙ ap (λ l. (heard c ++ p) ++ l) (sym (nil_of_length rest none_left))
      ∙ append_assoc (heard c) p rest
      ∙ whole

  now_whole :
      first_line (asked c) ≡ some c.send_len
      → length rest ≡ 0
      → scan next.recv_buf next.recv_len 0 ≡ some c.send_len
  now_whole line none_left =
      scan-eq-first_line _ _ (omega (arith, next-HasRoom.recv_in, next-HasRoom.recv_room))
      ∙ ap first_line (heard-next none_left)
      ∙ line

pub Ends-map :
    (P Q : Outcome → Type 0) (r : Option Outcome)
    → ((o : Outcome) → P o → Q o)
    → Ends P r
    → Ends Q r
Ends-map P Q none f h = h
Ends-map P Q (some o) f h = f o h

-- Where the request is one line and part of its answer has come, the rest of an answer that equals the
-- request, cut into any pieces that are not empty, completes the request: with fuel for the pieces the
-- handler ends, returns 0, counts the request once and leaves no byte in the receive buffer.
pub handle_recv-Completed :
    (k : ℕ → ℕ → Received) (now : ℕ) (pieces : List (List ℕ)) (fuel i : ℕ) {c : Client} (s : Stats)
    → HasRoom c
    → first_line (asked c) ≡ some c.send_len
    → heard c ++ concat pieces ≡ asked c
    → c.recv_len < c.send_len
    → Delivers k i pieces
    → length pieces ≤ fuel
    → Ends (Completed now c s) (handle_recv k now fuel i c s)
unfolding handle_recv store_answer
handle_recv-Completed k now [] fuel i {c} s v line whole short delivers enough =
    absurd (omega (arith, lengths [] [] v whole))
handle_recv-Completed k now ([] ∷ ps) fuel i s v line whole short delivers enough =
    absurd (omega (arith, delivers.1))
handle_recv-Completed k now ((x ∷ xs) ∷ ps) zero i s v line whole short delivers enough =
    absurd (omega arith)
handle_recv-Completed k now ((x ∷ xs) ∷ ps) (suc fuel) i {c} s v line whole short delivers enough =
    elim (Bool-cases (ltb 0 (length (concat ps)))) [
      | inl more ↦
          rw
            (
              room,
              delivers.0 (sub_u64 buf_size c.recv_len),
              not_yet p rest v whole line (ltb→lt _ _ more),
              handle_recv,
            )
            (Ends-map _ (Completed now c s) _ (λ o. onward (x ∷ xs) o)
              (handle_recv-Completed k now ps fuel (i + 1) _ (next-HasRoom p rest v whole) line
                (ap (λ (l : List ℕ). l ++ rest) (heard-store_answer p v (fits p rest v whole))
                  ∙ append_assoc (heard c) p rest
                  ∙ whole)
                (omega
                  (arith, ltb→lt _ _ more, lengths p rest v whole, recv_len-next p rest v whole))
                delivers.2 (omega arith)))
      | inr last ↦
          rw
            (
              room,
              delivers.0 (sub_u64 buf_size c.recv_len),
              now_whole p rest v whole line (omega (arith, ltb→le _ _ last)),
              handle_recv,
            )
            (Ends-map _ (Completed now c s) _ (λ o. onward (x ∷ xs) o)
              (check_answer-Completed now _ (next-HasRoom p rest v whole)
                (omega
                  (arith, ltb→le _ _ last, lengths p rest v whole, recv_len-next p rest v whole))
                (heard-next p rest v whole (omega (arith, ltb→le _ _ last)))))
    ]
  where
    p : List ℕ
    p = x ∷ xs

    rest : List ℕ
    rest = concat ps

    room : leb buf_size c.recv_len ≡ false
    room = ground (arith, v.len_in)

    onward :
        (xs : List ℕ) (o : Outcome)
        → Completed now
            (store_answer xs c)
            (record s { bytes_received = add_u64 s.bytes_received (length xs) })
            o
        → Completed now c s o
    onward xs o done = record {
      returned = done.returned;
      finished = done.finished;
      emptied = done.emptied;
      tally = done.tally;
      total = done.total;
      same_fd = done.same_fd;
    }
