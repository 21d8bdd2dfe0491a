-- ===== src/EchoThreads.antt =====
-- thread_test/pthread_create.c: one thread reads from the terminal, another prints what it has read; they
-- share BUF, `flag` and `running` without a lock. Each access is a step of its own; a result of -1 of read()
-- is left out.
use linux_system_programing.Prelude.{
  ℕ, ◌≡◌, ◌≢◌, ◌⊎◌, inr, refl, List, [], ◌∷◌, Bool, true, false, not, ◌&&◌, ◌||◌, arith, length,
  ◌==◌, if◌then◌else◌,
}
use linux_system_programing.Strings.{c_string}

-- Where `thread_input` is: at its test of `flag`, in read(), before it sets `flag`, before it clears
-- `running`, or gone.
pub data Input : Type 0 where
  testing reading filled ending gone : Input

-- Where `thread_echo` is: at its test of `running`, at that of `flag` behind it, at the test of its inner
-- loop, before its fprintf(), before it clears `flag`, or gone.
pub data Echo : Type 0 where
  checking checking_flag looking showing lowering gone : Echo

-- `buf` holds the bytes that read() has put into BUF, up to the zero byte that is written behind them.
-- `heard` are the results of read() and `shown` the texts that were printed, newest first.
pub record System : Type 0 where
  pub buf : List ℕ
  pub flag : Bool
  pub running : Bool
  pub input : Input
  pub echo : Echo
  pub heard : List (List ℕ)
  pub shown : List (List ℕ)

abbrev pub start : System
start = record {
  buf = [];
  flag = false;
  running = true;
  input = Input.testing;
  echo = checking;
  heard = [];
  shown = [];
}

-- Where `thread_input` goes once it has set `flag`, by the number `n` of bytes that read() has returned.
abbrev pub after_text : ℕ → Input
after_text n = if n == 0 then ending else Input.testing

-- Where `thread_echo` goes after a test.
abbrev pub after_running : Bool → Echo
after_running true = looking
after_running false = checking_flag

abbrev pub after_flag : Bool → Echo
after_flag true = Echo.gone
after_flag false = looking

abbrev pub after_look : Bool → Echo
after_look true = showing
after_look false = checking

pub data Step (s : System) : System → Type 0 where
  input_test : s.input ≡ Input.testing → s.flag ≡ false → Step s (record s { input = reading })
  read :
      (text : List ℕ)
      → s.input ≡ reading
      → Step s (record s { input = filled; buf = text; heard = text ∷ s.heard })
  raise : s.input ≡ filled → Step s (record s { flag = true; input = after_text (length s.buf) })
  stop : s.input ≡ ending → Step s (record s { running = false; input = Input.gone })
  check : s.echo ≡ checking → Step s (record s { echo = after_running s.running })
  check_flag : s.echo ≡ checking_flag → Step s (record s { echo = after_flag s.flag })
  look : s.echo ≡ looking → Step s (record s { echo = after_look s.flag })
  -- fprintf() prints BUF up to its first zero byte.
  show : s.echo ≡ showing → Step s (record s { echo = lowering; shown = c_string s.buf ∷ s.shown })
  lower : s.echo ≡ lowering → Step s (record s { echo = looking; flag = false })

-- `Reach s t`: the threads go from `s` to `t`.
pub data Reach (s : System) : System → Type 0 where
  here : Reach s s
  next : {t u : System} → Reach s t → Step t u → Reach s u

abbrev pub is_filled : Input → Bool
is_filled filled = true
is_filled _ = false

abbrev pub is_lowering : Echo → Bool
is_lowering lowering = true
is_lowering _ = false

-- The text in BUF has been read and not yet printed.
abbrev pub unshown : System → Bool
unshown s = is_filled s.input || (s.flag && not (is_lowering s.echo))

abbrev pub texts : Bool → List ℕ → List (List ℕ) → List (List ℕ)
texts true buf shown = buf ∷ shown
texts false buf shown = shown

-- what fprintf() prints of each
abbrev pub strings : List (List ℕ) → List (List ℕ)
strings [] = []
strings (xs ∷ heard) = c_string xs ∷ strings heard

pub record IsSystem (s : System) : Type 0 where
  pub in_order : strings s.heard ≡ texts (unshown s) (c_string s.buf) s.shown
  pub free : (s.input ≡ reading) ⊎ (s.input ≡ filled) → s.flag ≡ false
  pub busy : (s.echo ≡ showing) ⊎ (s.echo ≡ lowering) → s.flag ≡ true
  pub last : (s.input ≡ ending) ⊎ (s.input ≡ Input.gone) → s.buf ≡ []
  pub stopped : s.running ≡ false → s.input ≡ Input.gone
  pub checked : s.echo ≡ checking_flag → s.running ≡ false
  pub over : s.echo ≡ Echo.gone → (s.running ≡ false) × (s.flag ≡ true)

start-IsSystem : IsSystem start
start-IsSystem = record {
  in_order = refl;
  free = λ q. refl;
  busy = λ q. ground arith;
  last = λ q. refl;
  stopped = λ q. cc;
  checked = λ q. cc;
  over = λ q. cc;
}

Step-IsSystem : {s t : System} → Step s t → IsSystem s → IsSystem t
Step-IsSystem {s} (input_test at clear) v = record {
  in_order = ground arith;
  free = λ q. ground arith;
  busy = λ q. ground arith;
  last = λ q. ground arith;
  stopped = λ q. ground arith;
  checked = λ q. ground arith;
  over = λ q. ground arith;
}
Step-IsSystem {s} (read text at) v = record {
  in_order = ground arith;
  free = λ q. ground arith;
  busy = λ q. ground arith;
  last = λ q. ground arith;
  stopped = λ q. ground arith;
  checked = λ q. ground arith;
  over = λ q. ground arith;
}
Step-IsSystem {s} (raise at) v = record {
  in_order = ground arith;
  free = λ q. ground arith;
  busy = λ q. ground arith;
  last = λ q. ground arith;
  stopped = λ q. ground arith;
  checked = λ q. ground arith;
  over = λ q. ground arith;
}
Step-IsSystem {s} (stop at) v = record {
  in_order = ground arith;
  free = λ q. ground arith;
  busy = λ q. ground arith;
  last = λ q. ground arith;
  stopped = λ q. ground arith;
  checked = λ q. ground arith;
  over = λ q. ground arith;
}
Step-IsSystem {s} (check at) v = record {
  in_order = ground arith;
  free = λ q. ground arith;
  busy = λ q. ground arith;
  last = λ q. ground arith;
  stopped = λ q. ground arith;
  checked = λ q. ground arith;
  over = λ q. ground arith;
}
Step-IsSystem {s} (check_flag at) v = record {
  in_order = ground arith;
  free = λ q. ground arith;
  busy = λ q. ground arith;
  last = λ q. ground arith;
  stopped = λ q. ground arith;
  checked = λ q. ground arith;
  over = λ q. ground arith;
}
Step-IsSystem {s} (look at) v = record {
  in_order = ground arith;
  free = λ q. ground arith;
  busy = λ q. ground arith;
  last = λ q. ground arith;
  stopped = λ q. ground arith;
  checked = λ q. ground arith;
  over = λ q. ground arith;
}
Step-IsSystem {s} (show at) v = record {
  in_order = ground arith;
  free = λ q. ground arith;
  busy = λ q. ground arith;
  last = λ q. ground arith;
  stopped = λ q. ground arith;
  checked = λ q. ground arith;
  over = λ q. ground arith;
}
Step-IsSystem {s} (lower at) v = record {
  in_order = ground arith;
  free = λ q. ground arith;
  busy = λ q. ground arith;
  last = λ q. ground arith;
  stopped = λ q. ground arith;
  checked = λ q. ground arith;
  over = λ q. ground arith;
}

pub Reach-IsSystem : {s : System} → Reach start s → IsSystem s
Reach-IsSystem here = start-IsSystem
Reach-IsSystem (next run p) = Step-IsSystem p (Reach-IsSystem run)

-- In every state that the threads reach, the texts that were printed are, in order and each once, the results of
-- read(), each up to its first zero byte, all but the last one at most; and when `thread_echo` has left, only
-- the last, which is the end of the input, has not been printed.
pub Reach-texts :
    {s : System}
    → Reach start s
    → ((strings s.heard ≡ s.shown) ⊎ (strings s.heard ≡ c_string s.buf ∷ s.shown))
      × (s.echo ≡ Echo.gone → (s.buf ≡ []) × (strings s.heard ≡ c_string s.buf ∷ s.shown))
Reach-texts {s} run =
    let v : IsSystem s = Reach-IsSystem run in
    (
      ground (arith, v.in_order),
      λ q. (
        ground (arith, v.over, v.last, v.stopped),
        ground (arith, v.in_order, v.over, v.last, v.stopped),
      ),
    )

-- `thread_input` has left, and `thread_echo` has printed the empty text before `running` was cleared.
record IsStuck (s : System) : Type 0 where
  left : s.input ≡ Input.gone
  lowered : s.flag ≡ false
  loops : (s.echo ≡ checking) ⊎ (s.echo ≡ checking_flag) ⊎ (s.echo ≡ looking)

Step-IsStuck : {s t : System} → Step s t → IsStuck s → IsStuck t
Step-IsStuck (input_test at clear) v = absurd (cc (at, v.left))
Step-IsStuck (read text at) v = absurd (cc (at, v.left))
Step-IsStuck (raise at) v = absurd (cc (at, v.left))
Step-IsStuck (stop at) v = absurd (cc (at, v.left))
Step-IsStuck (check at) v = record { left = v.left; lowered = v.lowered; loops = ground arith }
Step-IsStuck (check_flag at) v = record {
  left = v.left;
  lowered = v.lowered;
  loops = ground (arith, v.lowered);
}
Step-IsStuck (look at) v = record {
  left = v.left;
  lowered = v.lowered;
  loops = ground (arith, v.lowered);
}
Step-IsStuck (show at) v = absurd (ground (arith, v.loops))
Step-IsStuck (lower at) v = absurd (ground (arith, v.loops))

stays-IsStuck : {s t : System} → Reach s t → IsStuck s → IsStuck t
stays-IsStuck here v = v
stays-IsStuck (next run p) v = Step-IsStuck p (stays-IsStuck run v)

-- The end of the input, printed before `thread_input` clears `running`.
abbrev late : System
late = record start {
  running = false;
  input = Input.gone;
  echo = looking;
  heard = [] ∷ [];
  shown = c_string [] ∷ [];
}

late_run : Reach start late
late_run =
    next
      (next
        (next
          (next
            (next (next (next (next here (input_test refl refl)) (read [] refl)) (raise refl))
              (check refl))
            (look refl))
          (show refl))
        (lower refl))
      (stop refl)

-- The threads can reach a state from which `thread_echo` never ends, and with it neither does the program:
-- `thread_input` sets `flag` for the empty text before it clears `running`.
pub stuck_state : (s : System) × Reach start s × ((t : System) → Reach s t → t.echo ≢ Echo.gone)
stuck_state = (
  late,
  late_run,
  λ t run q.
      let w = stays-IsStuck run (record { left = refl; lowered = refl; loops = inr (inr refl) }) in
      ground (arith, w.loops),
)
