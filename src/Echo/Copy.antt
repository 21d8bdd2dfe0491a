-- ===== src/Echo/Copy.antt =====
-- The loop that copies whole lines from `recv_message` to `send_buf`, against the framing of `Lines`.
use linux_system_programing.Prelude.{
  ℕ, zero, suc, ◌+◌, ◌-◌, ◌≤◌, ◌<◌, ◌≡◌, refl, sym, ◌∙◌, ap, List, [], ◌++◌, append-nil,
  append_assoc, length, take, drop, Option, none, some, Bool-cases, Option-cases, inl, inr, ◌↔◌,
  arith, ltb, true, false, length-take, length-append, take-take, drop_of_lt, drop-append_left,
  take-append-drop, ◌≢◌, ltb→lt, ltb→le, add_u64, sub_u64,
}
use linux_system_programing.Bytes.{blit, length-blit, take-blit, take-shift_down}
use linux_system_programing.Lines.{
  has_newline, complete, partial, first_line, first_line_split, first_line_bounds,
  has_newline-first_line-none, complete_of_no_newline, partial_of_no_newline,
}
use linux_system_programing.Echo.Client.{
  Client, buf_size, scan, move_line, echo_lines, Ret, ok, failed, done,
}
use linux_system_programing.Echo.Views.{pending, queued, IsValid}

abbrev shift : ℕ → Option ℕ → Option ℕ
shift i none = none
shift i (some m) = some (i + m)

scan-first_line :
    (buf : List ℕ) (k i : ℕ)
    → i + k ≤ length buf
    → scan buf k i ≡ shift i (first_line (take k (drop i buf)))
unfolding scan first_line
scan-first_line buf zero i h = refl
scan-first_line buf (suc k) i h =
    let ih : scan buf k (i + 1) ≡ shift (i + 1) (first_line (take k (drop (suc i) buf))) =
      let e : i + 1 ≡ suc i = omega arith in rw e (scan-first_line buf k (suc i) (omega arith)) in
    rw (drop_of_lt i buf 0 (omega arith)) (ground (arith, ih))

-- The index loop finds the end of the first line of what is pending.
pub scan-eq-first_line :
    (buf : List ℕ) (k : ℕ) → k ≤ length buf → scan buf k 0 ≡ first_line (take k buf)
scan-eq-first_line buf k h = ground (arith, scan-first_line buf k 0)

-- One message is moved.
record Moved (m : ℕ) (c c' : Client) : Type 0 where
  valid : IsValid c'
  used_less : c'.used ≡ c.used - m
  len_more : c'.send_len ≡ c.send_len + m
  out : queued c' ≡ queued c ++ take m (pending c)
  left : pending c' ≡ drop m (pending c)

move_line-Moved :
    (m : ℕ) {c : Client}
    → IsValid c
    → m ≤ c.used
    → 0 < m
    → c.send_len + m ≤ buf_size
    → Moved m c (move_line m c)
unfolding move_line
move_line-Moved m {c} v h pos fits =
    rw (word_sub, word_add)
      (record {
        valid = record {
          recv_room = v.recv_room;
          message_room = length-blit _ _ _ ∙ v.message_room;
          used_in = omega (arith, v.used_in);
          send_room = length-blit _ _ _ ∙ v.send_room;
          len_in = fits;
          offset_in = omega (arith, v.offset_in);
          restarted = λ k. absurd (omega (arith, v.offset_in));
        };
        used_less = refl;
        len_more = refl;
        out = appended;
        left = take-shift_down c.recv_message m c.used h (omega (arith, v.message_room, v.used_in));
      })
  where
    word_sub : sub_u64 c.used m ≡ c.used - m
    word_sub = omega (arith, v.used_in)

    word_add : add_u64 c.send_len m ≡ c.send_len + m
    word_add = omega arith

    room : length (take c.send_len c.send_buf) ≡ c.send_len
    room = omega (arith, length-take c.send_len c.send_buf, v.send_room, v.len_in)

    line : length (take m c.recv_message) ≡ m
    line = omega (arith, length-take m c.recv_message, v.message_room, v.used_in)

    appended :
        drop c.send_offset
          (take (c.send_len + m) (blit c.send_buf c.send_len (take m c.recv_message)))
        ≡ queued c ++ take m (pending c)
    appended = rw (
      take-blit c.send_buf c.send_len (c.send_len + m) (take m c.recv_message) (omega (arith, line))
          (omega (arith, v.send_room)),
      take-take m c.used c.recv_message h,
      drop-append_left c.send_offset (take c.send_len c.send_buf) (take m c.recv_message)
          (omega (arith, room, v.offset_in)),
    )

-- How a run of the loop ends, in terms of the stream: `r` is its result.
pub record Copied (c : Client) (r : Client × Ret) : Type 0 where
  pub valid : IsValid r.0
  pub kept : queued r.0 ++ pending r.0 ≡ queued c ++ pending c
  pub fits : (r.1 ≡ ok) ↔ (c.send_len + length (complete (pending c)) ≤ buf_size)
  pub all_out : r.1 ≡ ok → queued r.0 ≡ queued c ++ complete (pending c)
  pub all_left : r.1 ≡ ok → pending r.0 ≡ partial (pending c)
  pub not_done : r.1 ≢ done

length-pending : {c : Client} → IsValid c → length (pending c) ≡ c.used
length-pending {c} v = omega (arith, length-take c.used c.recv_message, v.message_room, v.used_in)

-- No newline is left.
stop-Copied : {c : Client} → IsValid c → first_line (pending c) ≡ none → Copied c (c, ok)
stop-Copied {c} v e = record {
  valid = v;
  kept = refl;
  fits = (λ _. rw none_out (omega (arith, v.len_in)), λ _. refl);
  all_out = λ _. rw none_out (sym (append-nil (queued c)));
  all_left = λ _. sym (partial_of_no_newline (pending c) quiet);
  not_done = λ q. cc;
}
  where
    quiet : has_newline (pending c) ≡ false
    quiet = has_newline-first_line-none (pending c) e

    none_out : complete (pending c) ≡ []
    none_out = complete_of_no_newline (pending c) quiet

module _ {c : Client} (m : ℕ) (v : IsValid c) (e : first_line (pending c) ≡ some m) where
  split_length : length (complete (pending c)) ≡ m + length (complete (drop m (pending c)))
  split_length =
      ap length (first_line_split (pending c) m e).0
      ∙ omega (
        arith,
        length-append (take m (pending c)) (complete (drop m (pending c))),
        length-take m (pending c),
        first_line_bounds (pending c) m e,
      )

  -- The first line does not fit.
  full-Copied : buf_size < c.send_len + m → Copied c (c, failed)
  full-Copied h = record {
    valid = v;
    kept = refl;
    fits = (λ q. cc, λ q. absurd (omega (arith, split_length)));
    all_out = λ q. cc;
    all_left = λ q. cc;
    not_done = λ q. cc;
  }

  -- The first line is moved, and the loop goes on.
  more-Copied : (c' : Client) (r : Client × Ret) → Moved m c c' → Copied c' r → Copied c r
  more-Copied c' r moved rest = record {
    valid = rest.valid;
    kept =
        rest.kept
        ∙ rw (moved.out, moved.left)
            (append_assoc (queued c) (take m (pending c)) (drop m (pending c))
              ∙ ap (λ l. queued c ++ l) (take-append-drop m (pending c)));
    fits = (
      λ q. omega (arith, rest.fits.0 q, split_length, moved.len_more, left_length),
      λ q. rest.fits.1 (omega (arith, split_length, moved.len_more, left_length)),
    );
    all_out = λ q.
        rest.all_out q
        ∙ rw (moved.out, moved.left, (first_line_split (pending c) m e).0)
            (append_assoc (queued c) (take m (pending c)) (complete (drop m (pending c))));
    all_left = λ q. rest.all_left q ∙ rw moved.left (sym (first_line_split (pending c) m e).1);
    not_done = rest.not_done;
  }
    where
      left_length : length (complete (pending c')) ≡ length (complete (drop m (pending c)))
      left_length = ap (λ l. length (complete l)) moved.left

-- With fuel above the bytes pending, the loop ends by its own test.
pub echo_lines-Copied :
    (fuel : ℕ) {c : Client} → c.used < fuel → IsValid c → Copied c (echo_lines fuel c)
unfolding echo_lines
echo_lines-Copied zero h v = absurd (omega arith)
echo_lines-Copied (suc fuel) {c} h v = elim (Option-cases (first_line (pending c))) [
  | inl e ↦ rw (found ∙ e, echo_lines) (stop-Copied v e)
  | inr (m, e) ↦ elim (Bool-cases (ltb buf_size (add_u64 c.send_len m))) [
    | inl over ↦ rw (found ∙ e, over, echo_lines) (full-Copied m v e (too_long m e over))
    | inr fits ↦
        rw (found ∙ e, fits, echo_lines)
          (go m e (enough m e fits) (λ c' h' v'. echo_lines-Copied fuel {c = c'} h' v'))
  ]
]
  where
    found : scan c.recv_message c.used 0 ≡ first_line (pending c)
    found = scan-eq-first_line c.recv_message c.used (omega (arith, v.message_room, v.used_in))

    bounds : (m : ℕ) → first_line (pending c) ≡ some m → (0 < m) × (m ≤ c.used)
    bounds m e = omega (arith, first_line_bounds (pending c) m e, length-pending v)

    too_long :
        (m : ℕ)
        → first_line (pending c) ≡ some m
        → ltb buf_size (add_u64 c.send_len m) ≡ true
        → buf_size < c.send_len + m
    too_long m e over = omega (arith, ltb→lt _ _ over, bounds m e, v.used_in, v.len_in)

    enough :
        (m : ℕ)
        → first_line (pending c) ≡ some m
        → ltb buf_size (add_u64 c.send_len m) ≡ false
        → c.send_len + m ≤ buf_size
    enough m e fits = omega (arith, ltb→le _ _ fits, bounds m e, v.used_in, v.len_in)

    go :
        (m : ℕ)
        → first_line (pending c) ≡ some m
        → c.send_len + m ≤ buf_size
        → ((c' : Client) → c'.used < fuel → IsValid c' → Copied c' (echo_lines fuel c'))
        → Copied c (echo_lines fuel (move_line m c))
    go m e fits rest =
        let moved : Moved m c (move_line m c) =
          move_line-Moved m v (bounds m e).1 (bounds m e).0 fits in
        more-Copied m v e (move_line m c) _ moved
          (rest (move_line m c) (omega (arith, moved.used_less, bounds m e)) moved.valid)

pub client_fd-echo_lines : (fuel : ℕ) (c : Client) → (echo_lines fuel c).0.client_fd ≡ c.client_fd
unfolding echo_lines move_line
client_fd-echo_lines zero c = refl
client_fd-echo_lines (suc fuel) c = elim (Option-cases (scan c.recv_message c.used 0)) [
  | inl e ↦ rw (e, echo_lines)
  | inr (m, e) ↦ elim (Bool-cases (ltb buf_size (add_u64 c.send_len m))) [
    | inl over ↦ rw (e, over, echo_lines)
    | inr fits ↦ rw (e, fits, echo_lines) (client_fd-echo_lines fuel (move_line m c))
  ]
]
