-- ===== src/Echo/Views.antt =====
-- What a client of the echo servers holds, and when its counters fit its buffers.
use linux_system_programing.Prelude.{
  ℕ, ◌≤◌, ◌≡◌, List, length, take, drop, arith, length-replicate, length-take, length-drop, refl,
  ◌-◌,
}
use linux_system_programing.Echo.Client.{Client, recv_size, buf_size, init_client}

-- the bytes received that are not yet copied to `send_buf`
abbrev pub pending : Client → List ℕ
pending c = take c.used c.recv_message

-- the bytes that wait to be sent
abbrev pub queued : Client → List ℕ
queued c = drop c.send_offset (take c.send_len c.send_buf)

pub record IsValid (c : Client) : Type 0 where
  pub recv_room : length c.recv_buf ≡ recv_size
  pub message_room : length c.recv_message ≡ buf_size
  pub used_in : c.used ≤ buf_size
  pub send_room : length c.send_buf ≡ buf_size
  pub len_in : c.send_len ≤ buf_size
  pub offset_in : c.send_offset ≤ c.send_len
  pub restarted : c.send_len ≤ c.send_offset → c.send_len ≡ 0

pub init_client-IsValid : IsValid init_client
unfolding init_client
init_client-IsValid = record {
  recv_room = length-replicate {A = ℕ} recv_size 0;
  message_room = length-replicate {A = ℕ} buf_size 0;
  used_in = omega arith;
  send_room = length-replicate {A = ℕ} buf_size 0;
  len_in = omega arith;
  offset_in = omega arith;
  restarted = λ _. refl;
}

pub length-queued : {c : Client} → IsValid c → length (queued c) ≡ c.send_len - c.send_offset
length-queued {c} v = omega (
  arith,
  length-drop c.send_offset (take c.send_len c.send_buf),
  length-take c.send_len c.send_buf,
  v.send_room,
  v.len_in,
)
