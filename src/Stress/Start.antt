-- ===== src/Stress/Start.antt =====
-- `main` of socket_test/stress_test_client.c connects its clients.
use linux_system_programing.Prelude.{
  ℕ, zero, suc, ◌+◌, ◌≤◌, ◌<◌, ◌≡◌, refl, ◌∙◌, none, false, ◌==◌, replicate, length-replicate,
  arith,
}
use linux_system_programing.Stress.Client.{
  Client, Stats, Connected, socket, connect_error, reconnect_client, reset_client, buf_size,
}
use linux_system_programing.Stress.Receiving.{HasRoom}
use linux_system_programing.Stress.Main.{
  Load, store_connected, connect_at, connect_all, blank, fresh,
}
use linux_system_programing.Stress.Sums.{sum, IsLoad, put-IsLoad}

sum-zero : (n : ℕ) → sum (λ _. 0) n ≡ 0
sum-zero zero = refl
sum-zero (suc n) = omega (arith, sum-zero n)

fresh-IsLoad : (r n : ℕ) (s : Stats) → s.completed ≡ 0 → s.failed ≡ 0 → IsLoad r n (fresh s)
unfolding fresh blank
fresh-IsLoad r n s none_yet none_lost = record {
  sound = λ j h. record {
    room = record {
      recv_room = length-replicate {A = ℕ} buf_size 0;
      recv_in = omega arith;
      send_room = length-replicate {A = ℕ} buf_size 0;
      len_in = omega arith;
    };
    window = record { offset_in = omega arith; len_in = omega arith };
    counts = omega arith;
  };
  settled = λ j h fd e q. cc;
  completed_sum = omega (arith, none_yet, sum-zero n);
  failed_sum = omega (arith, none_lost, sum-zero n);
}

-- The clients from `i` on are as calloc() left them.
abbrev Untouched : ℕ → Load → Type 0
Untouched i l = (j : ℕ) → i ≤ j → (l.client j ≡ blank) × (l.next_sequence j ≡ 0)

connect_at-same :
    (answers : ℕ → Connected) (i j : ℕ) (l : Load)
    → (j == i) ≡ false
    → ((connect_at answers i l).client j ≡ l.client j)
      × ((connect_at answers i l).next_sequence j ≡ l.next_sequence j)
unfolding connect_at store_connected reconnect_client
connect_at-same answers i j l ne = by_answer (answers i)
  where
    by_answer :
        (c : Connected)
        → let t =
            store_connected i (reconnect_client c (record (l.client i) { fd = none; id = i })) l in
          (t.client j ≡ l.client j) × (t.next_sequence j ≡ l.next_sequence j)
    by_answer (socket fd) = rw ne (refl, refl)
    by_answer (connect_error e) = rw ne (refl, refl)

connect_at-Untouched :
    (answers : ℕ → Connected) (i : ℕ) (l : Load)
    → Untouched i l
    → Untouched (i + 1) (connect_at answers i l)
connect_at-Untouched answers i l untouched j h =
    let ne : (j == i) ≡ false = ground arith in
    let same = connect_at-same answers i j l ne in
    let was = untouched j (omega arith) in (same.0 ∙ was.0, same.1 ∙ was.1)

module _ {r : ℕ} (pos : 0 < r) where
  connect_at-IsLoad :
      (answers : ℕ → Connected) (n i : ℕ) {l : Load}
      → i < n
      → Untouched i l
      → IsLoad r n l
      → IsLoad r n (connect_at answers i l)
  unfolding connect_at store_connected reconnect_client reset_client blank
  connect_at-IsLoad answers n i {l} below untouched w = by_answer (answers i)
    where
      was : (l.client i ≡ blank) × (l.next_sequence i ≡ 0)
      was = untouched i (omega arith)

      room :
          (b : Client)
          → b.recv_buf ≡ replicate buf_size 0
          → b.recv_len ≡ 0
          → b.send_buf ≡ replicate buf_size 0
          → b.send_len ≡ 0
          → HasRoom b
      room b p q x y = record {
        recv_room = rw p (length-replicate {A = ℕ} buf_size 0);
        recv_in = omega (arith, q);
        send_room = rw x (length-replicate {A = ℕ} buf_size 0);
        len_in = omega (arith, y);
      }

      by_answer :
          (c : Connected)
          → IsLoad r n
              (store_connected i (reconnect_client c (record (l.client i) { fd = none; id = i })) l)
      by_answer (socket fd) =
          put-IsLoad _ below
            (record {
              sound = record {
                room = room _ refl refl refl refl;
                window = record { offset_in = omega arith; len_in = omega arith };
                counts = omega (arith, was.1);
              };
              completions = rw was.0 refl;
              failures = rw was.0 refl;
            })
            (λ f e q. cc) w
      by_answer (connect_error e) =
          put-IsLoad _ below
            (record {
              sound = record {
                room = room _ refl refl refl refl;
                window = record { offset_in = omega arith; len_in = omega arith };
                counts = omega (arith, was.1);
              };
              completions = rw was.0 refl;
              failures = rw was.0 (ground (arith, pos));
            })
            (λ f e q. cc) w

  connect_all-IsLoad :
      (answers : ℕ → Connected) (n k i : ℕ) {l : Load}
      → i + k ≤ n
      → Untouched i l
      → IsLoad r n l
      → IsLoad r n (connect_all answers k i l)
  unfolding connect_all
  connect_all-IsLoad answers n zero i h untouched w = w
  connect_all-IsLoad answers n (suc k) i {l} h untouched w =
      connect_all-IsLoad answers n k (i + 1) {l = connect_at answers i l} (omega arith)
        (connect_at-Untouched answers i l untouched)
        (connect_at-IsLoad answers n i (omega arith) untouched w)

-- Every client has number 0.
abbrev pub AllZero : Load → Type 0
AllZero l = (j : ℕ) → (l.client j).id ≡ 0

connect_at-AllZero :
    (answers : ℕ → Connected) (i : ℕ) (l : Load) → AllZero l → AllZero (connect_at answers i l)
unfolding connect_at store_connected reconnect_client reset_client
connect_at-AllZero answers i l h j = by_answer (answers i)
  where
    by_answer :
        (c : Connected)
        → ((store_connected i
              (reconnect_client c (record (l.client i) { fd = none; id = i }))
              l).client
            j).id
          ≡ 0
    by_answer (socket fd) = ground (arith, h j)
    by_answer (connect_error e) = ground (arith, h j)

connect_all-AllZero :
    (answers : ℕ → Connected) (k i : ℕ) (l : Load) → AllZero l → AllZero (connect_all answers k i l)
unfolding connect_all
connect_all-AllZero answers zero i l h = h
connect_all-AllZero answers (suc k) i l h =
    connect_all-AllZero answers k (i + 1) (connect_at answers i l)
      (connect_at-AllZero answers i l h)

fresh-AllZero : (s : Stats) → AllZero (fresh s)
unfolding fresh blank
fresh-AllZero s j = refl

-- After `main` has connected `n` clients, with whatever result: the counters are the sums over the
-- clients and every slot is sound, and the number of every client is 0, not its index, since
-- reset_client() clears what `main` has just set.
pub connect_all-starts :
    (answers : ℕ → Connected) (r n : ℕ) (s : Stats)
    → 0 < r
    → s.completed ≡ 0
    → s.failed ≡ 0
    → IsLoad r n (connect_all answers n 0 (fresh s)) × AllZero (connect_all answers n 0 (fresh s))
unfolding fresh
connect_all-starts answers r n s pos none_yet none_lost = (
  connect_all-IsLoad pos answers n n 0 (omega arith) (λ j h. (refl, refl))
      (fresh-IsLoad r n s none_yet none_lost),
  connect_all-AllZero answers n 0 (fresh s) (fresh-AllZero s),
)
