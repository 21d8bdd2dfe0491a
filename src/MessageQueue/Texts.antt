-- ===== src/MessageQueue/Texts.antt =====
-- The loops of process_test/mq_producer.c and process_test/mq_consumer.c, with the calls of the queue
-- succeeding: after one that fails the process exits.
use linux_system_programing.Prelude.{
  ℕ, List, [], ◌∷◌, get_or, replicate, Option, none, some, Bool, true, false, ◌==◌, if◌then◌else◌,
}
use linux_system_programing.Bytes.{blit}
use linux_system_programing.Strings.{c_string, has_zero}

-- sizeof(send_buf) and sizeof(receive_buf)
abbrev pub msg_size : ℕ
msg_size = 256

-- The char of EOF.
abbrev pub eof : ℕ
eof = 255

-- What read() has put into the cleared `send_buf`.
unfoldable pub send_buf : List ℕ → List ℕ
send_buf xs = blit (replicate msg_size 0) 0 xs

-- The messages that the producer sends for results of read(); no bytes are the end of the input. `none`
-- where strlen() runs past `send_buf`.
unfoldable pub produce : List (List ℕ) → Option (List (List ℕ))
produce [] = some []
produce ([] ∷ chunks) = some ((eof ∷ []) ∷ [])
produce ((x ∷ xs) ∷ chunks) =
    let rest = produce chunks in
    if has_zero (send_buf (x ∷ xs))
    then elim rest [ none ↦ none | some ms ↦ some (c_string (send_buf (x ∷ xs)) ∷ ms) ]
    else none

-- What the consumer prints for messages, and whether it has received the end. A message overwrites the
-- start of `receive_buf` only. `none` where printf() runs past `receive_buf`.
unfoldable pub consume : List ℕ → List (List ℕ) → Option (List (List ℕ) × Bool)
consume buf [] = some ([], false)
consume buf (m ∷ ms) =
    let received = blit buf 0 m in
    let rest = consume received ms in
    if get_or received 0 0 == eof
    then some ([], true)
    else if has_zero received
    then elim rest [ none ↦ none | some r ↦ some (c_string received ∷ r.0, r.1) ]
    else none
