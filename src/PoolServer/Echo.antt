-- ===== src/PoolServer/Echo.antt =====
-- What `handle_client` of socket_test/server_pthread_pool.c sends, against the framing of `Lines`.
use linux_system_programing.Prelude.{
  ℕ, zero, suc, ◌+◌, ◌-◌, ◌≤◌, ◌<◌, ◌≡◌, inl, inr, refl, ◌∙◌, sym, ap, List, ◌++◌, append-nil,
  append_assoc, length, take, drop, some, arith, Option-cases, sub_u64, length-append, length-take,
  take-take, subst,
}
use linux_system_programing.Bytes.{blit, slice, length-blit, take-shift_down}
use linux_system_programing.Lines.{
  complete, partial, first_line, first_line_split, first_line_bounds, has_newline-first_line-none,
  complete_of_no_newline, partial_of_no_newline,
}
use linux_system_programing.Kernel.{Sent}
use linux_system_programing.Echo.Client.{scan}
use linux_system_programing.Echo.Copy.{scan-eq-first_line}
use linux_system_programing.Stress.Sending.{Honest}
use linux_system_programing.PoolServer.Client.{
  Conn, SendAll, echo_line, echo_messages, message_size,
}
use linux_system_programing.PoolServer.Sends.{Moves, Faultless, Failing, send_all-SendEnd}

-- the bytes received that no line has taken yet
abbrev pub pending : Conn → List ℕ
pending c = take c.used c.message

pub record IsConn (c : Conn) : Type 0 where
  pub buf_room : length c.buf ≡ 1024
  pub message_room : length c.message ≡ message_size
  pub used_in : c.used ≤ message_size

pub length-pending : {c : Conn} → IsConn c → length (pending c) ≡ c.used
length-pending {c} v = omega (arith, length-take c.used c.message, v.message_room, v.used_in)

-- The lines `xs` were handed to `send_all`, and `zs` stay pending.
pub record Wrote (k : ℕ → ℕ → Sent) (xs zs : List ℕ) (c d : Conn) : Type 0 where
  pub valid : IsConn d
  pub left : pending d ≡ zs
  pub short : length d.out ≤ length c.out + length xs
  pub whole : Faultless k → d.out ≡ c.out ++ xs
  pub mute : Failing k → d.out ≡ c.out

pub Wrote-trans :
    {k : ℕ → ℕ → Sent} {xs ys zs zs' : List ℕ} {c d e : Conn}
    → Wrote k xs zs c d
    → Wrote k ys zs' d e
    → Wrote k (xs ++ ys) zs' c e
Wrote-trans {xs = xs} {ys = ys} {c = c} p q = record {
  valid = q.valid;
  left = q.left;
  short = omega (arith, p.short, q.short, length-append xs ys);
  whole = λ f. q.whole f ∙ ap (λ l. l ++ ys) (p.whole f) ∙ append_assoc c.out xs ys;
  mute = λ f. q.mute f ∙ p.mute f;
}

module _ (k : ℕ → ℕ → Sent) (tries : ℕ) (honest : Honest k) (moves : Moves k)
    (enough : message_size < tries) where
  echo_line-Wrote :
      (m : ℕ) (c : Conn)
      → IsConn c
      → m ≤ c.used
      → (d : Conn) × (echo_line k tries m c ≡ some d)
        × Wrote k (take m (pending c)) (drop m (pending c)) c d
        × (d.used ≡ c.used - m)
  unfolding echo_line
  echo_line-Wrote m c v h =
      let (r, e, s) =
        send_all-SendEnd k tries c.calls 0 m honest moves (omega arith) (omega (arith, v.used_in))
          (omega (arith, v.used_in)) in
      (
        next r,
        rw (e, echo_line) refl,
        record {
          valid = record {
            buf_room = v.buf_room;
            message_room = length-blit _ _ _ ∙ v.message_room;
            used_in = omega (arith, word, v.used_in);
          };
          left =
              rw word
                (take-shift_down c.message m c.used h (omega (arith, v.message_room, v.used_in)));
          short = omega (
            arith,
            length-append c.out (take r.sent (take m c.message)),
            length-take r.sent (take m c.message),
            length-take m c.message,
            ap (λ (l : List ℕ). length l) line,
            v.message_room,
            v.used_in,
          );
          whole = λ f.
              ap (λ n. c.out ++ take n (take m c.message)) (s.sure f)
              ∙ ap (λ l. c.out ++ l) (all_of ∙ sym line);
          mute = λ f. ap (λ n. c.out ++ take n (take m c.message)) (s.stuck f) ∙ append-nil c.out;
        },
        word,
      )
    where
      next : SendAll → Conn
      next r = record c {
        out = c.out ++ take r.sent (slice c.message 0 m);
        calls = r.calls;
        message = blit c.message 0 (slice c.message m (sub_u64 c.used m));
        used = sub_u64 c.used m;
      }

      word : sub_u64 c.used m ≡ c.used - m
      word = omega (arith, v.used_in)

      line : take m (pending c) ≡ take m c.message
      line = take-take m c.used c.message h

      all_of : take m (take m c.message) ≡ take m c.message
      all_of = take-take m m c.message (omega arith)

  pub echo_messages-Wrote :
      (fuel : ℕ) (c : Conn)
      → c.used < fuel
      → IsConn c
      → (d : Conn) × (echo_messages k tries fuel c ≡ some d)
        × Wrote k (complete (pending c)) (partial (pending c)) c d
  unfolding echo_messages
  echo_messages-Wrote zero c h v = absurd (omega arith)
  echo_messages-Wrote (suc fuel) c h v = elim (Option-cases (first_line (pending c))) [
    | inl e ↦
        let quiet = has_newline-first_line-none (pending c) e in
        (
          c,
          rw (found ∙ e, echo_messages) refl,
          rw (complete_of_no_newline (pending c) quiet, partial_of_no_newline (pending c) quiet)
              (record {
                valid = v;
                left = refl;
                short = omega arith;
                whole = λ f. sym (append-nil c.out);
                mute = λ f. refl;
              }),
        )
    | inr (m, e) ↦
        let b : (0 < m) × (m ≤ c.used) =
          omega (arith, first_line_bounds (pending c) m e, length-pending v) in
        let (d, q, w, u) = echo_line-Wrote m c v b.1 in
        let (x, r, w') = echo_messages-Wrote fuel d (omega (arith, u)) w.valid in
        let cut = first_line_split (pending c) m e in
        (
          x,
          rw (found ∙ e, q, echo_messages) r,
          rw (cut.0, cut.1)
              (Wrote-trans w (subst (λ l. Wrote k (complete l) (partial l) d x) w.left w')),
        )
  ]
    where
      found : scan c.message c.used 0 ≡ first_line (pending c)
      found = scan-eq-first_line c.message c.used (omega (arith, v.message_room, v.used_in))
