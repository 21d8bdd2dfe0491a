-- ===== src/OneSlot.antt =====
-- thread_test/prod_cons_prob.c: a producer and a consumer share one variable. Each holds the mutex from its
-- test to pthread_mutex_unlock(), and prints the variable after that, without the mutex.
use linux_system_programing.Prelude.{
  ℕ, ◌+◌, ◌<◌, ◌≤◌, ◌≡◌, ◌≢◌, ◌∙◌, ◌⊎◌, inl, inr, refl, sym, ap, List, [], ◌∷◌, length, Bool, true,
  false, arith, if◌then◌else◌, Bool-cases,
}

-- how many rounds each thread makes
abbrev pub rounds : ℕ
rounds = 10

-- Where a thread is: at the mutex, in its pthread_cond_wait(), or before its printf().
pub data At : Type 0 where
  entering waiting printing : At

-- `shared` is the variable `data`; what the threads have printed stands newest first.
pub record System : Type 0 where
  pub shared : ℕ
  pub ready : Bool
  pub made : ℕ
  pub producer : At
  pub shown : List ℕ
  pub used : ℕ
  pub consumer : At
  pub printed : List ℕ

abbrev pub start : System
start = record {
  shared = 0;
  ready = false;
  made = 0;
  producer = entering;
  shown = [];
  used = 0;
  consumer = entering;
  printed = [];
}

-- pthread_cond_signal() for a thread, and a wait that ends with no signal
abbrev pub woken : At → At
woken entering = entering
woken waiting = entering
woken printing = printing

-- The producer has the mutex.
unfoldable pub produce : System → System
produce s = if s.ready then record s { producer = waiting } else record s {
  shared = s.made + 1;
  ready = true;
  producer = printing;
  consumer = woken s.consumer;
}

-- The consumer has the mutex.
unfoldable pub consume : System → System
consume s =
    if s.ready
    then record s { ready = false; consumer = printing; producer = woken s.producer }
    else record s { consumer = waiting }

pub data Step (s : System) : System → Type 0 where
  produced : s.producer ≡ entering → s.made < rounds → Step s (produce s)
  told :
      s.producer ≡ printing
      → Step s (record s { producer = entering; made = s.made + 1; shown = s.shared ∷ s.shown })
  consumed : s.consumer ≡ entering → s.used < rounds → Step s (consume s)
  written :
      s.consumer ≡ printing
      → Step s (record s { consumer = entering; used = s.used + 1; printed = s.shared ∷ s.printed })
  producer_woken : Step s (record s { producer = woken s.producer })
  consumer_woken : Step s (record s { consumer = woken s.consumer })

pub data Reach : System → Type 0 where
  started : Reach start
  next : {s t : System} → Reach s → Step s t → Reach t

-- 1 for a thread that has done its access, and has not yet printed
abbrev pub past : At → ℕ
past entering = 0
past waiting = 0
past printing = 1

abbrev pub filled : Bool → ℕ
filled true = 1
filled false = 0

-- The producer has printed 1, 2, 3, …
abbrev pub IsShown : List ℕ → Type 0
IsShown [] = Unit {0}
IsShown (x ∷ xs) = (x ≡ length xs + 1) × IsShown xs

-- The consumer's n-th line is n, or n + 1: the variable may have been written again.
abbrev pub IsPrinted : List ℕ → Type 0
IsPrinted [] = Unit {0}
IsPrinted (x ∷ xs) = ((x ≡ length xs + 1) ⊎ (x ≡ length xs + 2)) × IsPrinted xs

pub record IsSystem (s : System) : Type 0 where
  pub one_ahead : s.made + past s.producer ≡ s.used + past s.consumer + filled s.ready
  pub holds : s.shared ≡ s.made + past s.producer
  pub made_in : s.made + past s.producer ≤ rounds
  pub shown_in : IsShown s.shown × (length s.shown ≡ s.made)
  pub printed_in : IsPrinted s.printed × (length s.printed ≡ s.used)
  pub producer_waits : s.producer ≡ waiting → s.ready ≡ true
  pub consumer_waits : s.consumer ≡ waiting → s.ready ≡ false

past-woken : (a : At) → past (woken a) ≡ past a
past-woken entering = refl
past-woken waiting = refl
past-woken printing = refl

woken-ne-waiting : (a : At) → woken a ≢ waiting
woken-ne-waiting entering q = cc
woken-ne-waiting waiting q = cc
woken-ne-waiting printing q = cc

filled-le : (b : Bool) → filled b ≤ 1
filled-le true = omega arith
filled-le false = omega arith

produce-IsSystem :
    {s : System} → IsSystem s → s.producer ≡ entering → s.made < rounds → IsSystem (produce s)
unfolding produce
produce-IsSystem {s} v at more = elim (Bool-cases s.ready) [
  | inl full ↦
      rw (full, produce)
        (record {
          one_ahead = omega (arith, v.one_ahead, ap past at, ap filled full);
          holds = omega (arith, v.holds, ap past at);
          made_in = omega (arith, v.made_in);
          shown_in = v.shown_in;
          printed_in = v.printed_in;
          producer_waits = λ q. refl;
          consumer_waits = λ q. sym full ∙ v.consumer_waits q;
        })
  | inr free ↦
      rw (free, produce)
        (record {
          one_ahead = omega (arith, v.one_ahead, ap past at, ap filled free, past-woken s.consumer);
          holds = refl;
          made_in = omega arith;
          shown_in = v.shown_in;
          printed_in = v.printed_in;
          producer_waits = λ q. cc;
          consumer_waits = λ q. absurd (woken-ne-waiting s.consumer q);
        })
]

consume-IsSystem : {s : System} → IsSystem s → s.consumer ≡ entering → IsSystem (consume s)
unfolding consume
consume-IsSystem {s} v at = elim (Bool-cases s.ready) [
  | inl full ↦
      rw (full, consume)
        (record {
          one_ahead = omega (arith, v.one_ahead, ap past at, ap filled full, past-woken s.producer);
          holds = omega (arith, v.holds, past-woken s.producer);
          made_in = omega (arith, v.made_in, past-woken s.producer);
          shown_in = v.shown_in;
          printed_in = v.printed_in;
          producer_waits = λ q. absurd (woken-ne-waiting s.producer q);
          consumer_waits = λ q. refl;
        })
  | inr free ↦
      rw (free, consume)
        (record {
          one_ahead = omega (arith, v.one_ahead, ap past at, ap filled free);
          holds = v.holds;
          made_in = v.made_in;
          shown_in = v.shown_in;
          printed_in = v.printed_in;
          producer_waits = λ q. sym free ∙ v.producer_waits q;
          consumer_waits = λ q. refl;
        })
]

Step-IsSystem : {s t : System} → Step s t → IsSystem s → IsSystem t
Step-IsSystem (produced at more) v = produce-IsSystem v at more
Step-IsSystem (consumed at more) v = consume-IsSystem v at
Step-IsSystem {s} (told at) v = record {
  one_ahead = omega (arith, v.one_ahead, ap past at);
  holds = omega (arith, v.holds, ap past at);
  made_in = omega (arith, v.made_in, ap past at);
  shown_in = (
    (omega (arith, v.holds, ap past at, v.shown_in.1), v.shown_in.0),
    omega (arith, v.shown_in.1),
  );
  printed_in = v.printed_in;
  producer_waits = λ q. cc;
  consumer_waits = v.consumer_waits;
}
Step-IsSystem {s} (written at) v = record {
  one_ahead = omega (arith, v.one_ahead, ap past at);
  holds = v.holds;
  made_in = v.made_in;
  shown_in = v.shown_in;
  printed_in = ((one_of s.ready refl, v.printed_in.0), omega (arith, v.printed_in.1));
  producer_waits = v.producer_waits;
  consumer_waits = λ q. cc;
}
  where
    one_of :
        (b : Bool)
        → s.ready ≡ b
        → (s.shared ≡ length s.printed + 1) ⊎ (s.shared ≡ length s.printed + 2)
    one_of true e =
        inr (omega (arith, v.holds, v.one_ahead, ap past at, ap filled e, v.printed_in.1))
    one_of false e =
        inl (omega (arith, v.holds, v.one_ahead, ap past at, ap filled e, v.printed_in.1))
Step-IsSystem {s} producer_woken v = record {
  one_ahead = omega (arith, v.one_ahead, past-woken s.producer);
  holds = omega (arith, v.holds, past-woken s.producer);
  made_in = omega (arith, v.made_in, past-woken s.producer);
  shown_in = v.shown_in;
  printed_in = v.printed_in;
  producer_waits = λ q. absurd (woken-ne-waiting s.producer q);
  consumer_waits = v.consumer_waits;
}
Step-IsSystem {s} consumer_woken v = record {
  one_ahead = omega (arith, v.one_ahead, past-woken s.consumer);
  holds = v.holds;
  made_in = v.made_in;
  shown_in = v.shown_in;
  printed_in = v.printed_in;
  producer_waits = v.producer_waits;
  consumer_waits = λ q. absurd (woken-ne-waiting s.consumer q);
}

pub Reach-IsSystem : {s : System} → Reach s → IsSystem s
Reach-IsSystem started = record {
  one_ahead = refl;
  holds = refl;
  made_in = omega arith;
  shown_in = (tt, refl);
  printed_in = (tt, refl);
  producer_waits = λ q. cc;
  consumer_waits = λ q. cc;
}
Reach-IsSystem (next r p) = Step-IsSystem p (Reach-IsSystem r)

-- The consumer's first line is 2.
pub overtaken : (s : System) × Reach s × (s.printed ≡ 2 ∷ [])
unfolding produce consume
overtaken = (
  _,
  next
      (next
        (next (next (next started (produced refl (omega arith))) (told refl))
          (consumed refl (omega arith)))
        (produced refl (omega arith)))
      (written refl),
  refl,
)

-- The consumer's first line is 1.
on_time : (s : System) × Reach s × (s.printed ≡ 1 ∷ [])
unfolding produce consume
on_time = (
  _,
  next
      (next (next (next started (produced refl (omega arith))) (told refl))
        (consumed refl (omega arith)))
      (written refl),
  refl,
)

-- In every state that the threads reach: the producer has printed 1, 2, 3, … in order; the consumer's n-th
-- line is n or n + 1; and the two do not wait for each other. Both occur already in the first line, since the
-- consumer prints the variable after it has given up the mutex: a state is reached where it has printed just 1, and
-- another where it has printed just 2.
pub Reach-lines :
    {s : System}
    → Reach s
    → (IsShown s.shown × IsPrinted s.printed × (s.producer ≡ waiting → s.consumer ≢ waiting))
      × ((t : System) × Reach t × (t.printed ≡ 1 ∷ []))
      × ((t : System) × Reach t × (t.printed ≡ 2 ∷ []))
Reach-lines r =
    let v = Reach-IsSystem r in
    (
      (v.shown_in.0, v.printed_in.0, λ p q. cc (v.producer_waits p, v.consumer_waits q)),
      on_time,
      overtaken,
    )
