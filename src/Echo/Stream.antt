-- ===== src/Echo/Stream.antt =====
-- One connection as a stream: any sequence of results of recv() and send() that the handlers of
-- socket_test/tcp_select_server_v2.c survive.
use linux_system_programing.Prelude.{
  ℕ, ◌≡◌, refl, sym, ◌∙◌, ap, List, [], ◌++◌, append-nil, append_assoc,
}
use linux_system_programing.Lines.{complete, partial, complete-append, partial-append}
use linux_system_programing.Kernel.{Received, bytes, recv_error, Sent}
use linux_system_programing.Echo.Client.{Client, init_client, handle_recv, handle_send, Ret, ok}
use linux_system_programing.Echo.Views.{pending, queued, IsValid, init_client-IsValid}
use linux_system_programing.Echo.Recv.{
  Fits, payload, Took, handle_recv-Took, handle_recv-IsValid, some_bytes, handle_recv-error,
}
use linux_system_programing.Echo.Send.{accepted, Takes, handle_send-queued}

-- `Stream c ins outs d`: from `c` to `d` the bytes `ins` have been received and `outs` sent.
pub data Stream (c : Client) : List ℕ → List ℕ → Client → Type 0 where
  start : Stream c [] [] c
  received :
      {ins outs : List ℕ} {d e : Client} (r : Received)
      → Stream c ins outs d
      → Fits (payload r)
      → handle_recv r d ≡ (e, ok)
      → Stream c (ins ++ payload r) outs e
  sent :
      {ins outs : List ℕ} {d e : Client} (s : Sent)
      → Stream c ins outs d
      → Takes s d
      → handle_send s d ≡ (e, ok)
      → Stream c ins (outs ++ accepted s d) e

-- what the handlers owe the stream
record Echoed (ins outs : List ℕ) (d : Client) : Type 0 where
  valid : IsValid d
  out : outs ++ queued d ≡ complete ins
  left : pending d ≡ partial ins

received-Echoed :
    {ins outs : List ℕ} {d e : Client} (r : Received)
    → Echoed ins outs d
    → Fits (payload r)
    → handle_recv r d ≡ (e, ok)
    → Echoed (ins ++ payload r) outs e
received-Echoed {ins} {outs} {d} {e} (bytes xs) owed few q = record {
  valid = rw client at (handle_recv-IsValid (bytes xs) owed.valid few);
  out =
      ap (λ (l : List ℕ). outs ++ l) (rw client at (took.all_out done))
      ∙ rw owed.left (
          sym (append_assoc outs (queued d) (complete (partial ins ++ xs)))
          ∙ ap (λ (l : List ℕ). l ++ complete (partial ins ++ xs)) owed.out
          ∙ sym (complete-append ins xs));
  left = (rw client at (took.all_left done)) ∙ rw owed.left (sym (partial-append ins xs));
}
  where
    client : (handle_recv (bytes xs) d).0 ≡ e
    client = ap (λ (p : Client × Ret). p.0) q

    done : (handle_recv (bytes xs) d).1 ≡ ok
    done = ap (λ (p : Client × Ret). p.1) q

    took : Took d xs (handle_recv (bytes xs) d)
    took = handle_recv-Took xs owed.valid few (some_bytes xs d done)
received-Echoed {ins} {outs} {d} {e} (recv_error x) owed few q =
    let same : e ≡ d = sym (ap (λ (p : Client × Ret). p.0) q) ∙ handle_recv-error x d in
    rw (append-nil ins, same) owed

sent-Echoed :
    {ins outs : List ℕ} {d e : Client} (s : Sent)
    → Echoed ins outs d
    → Takes s d
    → handle_send s d ≡ (e, ok)
    → Echoed ins (outs ++ accepted s d) e
sent-Echoed {ins} {outs} {d} {e} s owed few q =
    let p = handle_send-queued s owed.valid few in
    let client : (handle_send s d).0 ≡ e = ap (λ (p : Client × Ret). p.0) q in
    record {
      valid = rw client at (p.3);
      out =
          append_assoc outs (accepted s d) (queued e)
          ∙ ap (λ (l : List ℕ). outs ++ l) (rw client at (p.0))
          ∙ owed.out;
      left = (rw client at (p.1)) ∙ owed.left;
    }

Stream-Echoed :
    {c : Client} {ins outs : List ℕ} {d : Client}
    → Echoed [] [] c
    → Stream c ins outs d
    → Echoed ins outs d
Stream-Echoed first start = first
Stream-Echoed first (received r st few q) = received-Echoed r (Stream-Echoed first st) few q
Stream-Echoed first (sent s st few q) = sent-Echoed s (Stream-Echoed first st) few q

fresh-Echoed : Echoed [] [] init_client
unfolding init_client complete partial
fresh-Echoed = record { valid = init_client-IsValid; out = refl; left = refl }

-- From a fresh slot, while no handler fails, recv() fits its buffer and send() takes no more than it is
-- offered: what has been sent, followed by what is queued, is exactly the received bytes up to the
-- last newline; what follows it is kept, and the client is valid.
pub echo_stream :
    {ins outs : List ℕ} {d : Client}
    → Stream init_client ins outs d
    → (outs ++ queued d ≡ complete ins) × (pending d ≡ partial ins) × IsValid d
echo_stream {d = d} st =
    let owed : Echoed _ _ d = Stream-Echoed fresh-Echoed st in (owed.out, owed.left, owed.valid)
