-- ===== src/ParentChild/Runs.antt =====
-- What the child of process_test/mq_p&s.c prints, and when both processes end.
use linux_system_programing.Prelude.{
  ℕ, zero, suc, ◌+◌, ◌≤◌, ◌<◌, ◌≡◌, ◌⊎◌, inl, inr, refl, sym, ◌∙◌, ap, List, [], ◌∷◌, ◌++◌,
  append_assoc, length, length-append, Bool, false, if◌then◌else◌, arith, Bool-cases,
}
use mathlib.Core.List.{map, map-append}
use linux_system_programing.ParentChild.Steps.{
  mq_maxmsg, text, message, shown, Parent, sending, waiting, Child, receiving, System, mq_send,
  Step, sent, all_sent, received, not_received, all_received, waitpid, Reach, started, next,
}
use linux_system_programing.ParentChild.Texts.{shown-message}

-- how many rounds of its loop the parent has made
abbrev pub rounds : Parent → ℕ
rounds (sending i) = i
rounds waiting = mq_maxmsg
rounds Parent.gone = mq_maxmsg

-- how many messages the child has received
abbrev pub Taken : Child → ℕ → Type 0
Taken (receiving j) n = (n ≡ j) × (j ≤ mq_maxmsg)
Taken Child.failed n = n < mq_maxmsg
Taken Child.gone n = n ≡ mq_maxmsg

-- The texts of the first `i` rounds whose mq_send() succeeds.
abbrev pub accepted : (ℕ → Bool) → ℕ → List (List ℕ)
accepted sends zero = []
accepted sends (suc i) = if sends i then accepted sends i ++ text (suc i) ∷ [] else accepted sends i

length-map_shown : (ms : List (List ℕ)) → length (map shown ms) ≡ length ms
length-map_shown [] = refl
length-map_shown (m ∷ ms) = ap suc (length-map_shown ms)

module _ (sends gets : ℕ → Bool) where
  pub length-accepted : (i : ℕ) → length (accepted sends i) ≤ i
  length-accepted zero = omega arith
  length-accepted (suc i) = elim (Bool-cases (sends i)) [
    | inl e ↦
        rw e
          (omega (arith, length-append (accepted sends i) (text (suc i) ∷ []), length-accepted i))
    | inr e ↦ rw e (omega (arith, length-accepted i))
  ]

  pub record IsSystem (s : System) : Type 0 where
    pub in_order : s.printed ++ map shown s.queue ≡ accepted sends (rounds s.parent)
    pub rounds_in : rounds s.parent ≤ mq_maxmsg
    pub taken : Taken s.child (length s.printed)
    pub waited : s.parent ≡ Parent.gone → (s.child ≡ Child.gone) ⊎ (s.child ≡ Child.failed)
    pub failure : s.child ≡ Child.failed → (j : ℕ) × (j < mq_maxmsg) × (gets j ≡ false)

  -- A message that mq_send() accepts stands behind the others.
  mq_send-accepted :
      (i : ℕ) (printed queue : List (List ℕ))
      → printed ++ map shown queue ≡ accepted sends i
      → printed ++ map shown (mq_send sends gets i queue) ≡ accepted sends (i + 1)
  unfolding mq_send
  mq_send-accepted i printed queue h =
      let e : i + 1 ≡ suc i = omega arith in
      elim (Bool-cases (sends i)) [
        | inl ok ↦
            rw (e, ok, map-append shown queue (message (suc i) ∷ []), shown-message (suc i))
              (sym (append_assoc printed (map shown queue) (text (suc i) ∷ []))
                ∙ ap (λ l. l ++ text (suc i) ∷ []) h)
        | inr lost ↦ rw (e, lost) h
      ]

  Step-IsSystem : {s t : System} → Step sends gets s t → IsSystem s → IsSystem t
  Step-IsSystem {s} (sent i at more room) v = record {
    in_order = mq_send-accepted i s.printed s.queue (rw at at v.in_order);
    rounds_in = omega arith;
    taken = v.taken;
    waited = λ q. cc;
    failure = v.failure;
  }
  Step-IsSystem {s} (all_sent at) v = record {
    in_order = rw at at v.in_order;
    rounds_in = omega arith;
    taken = v.taken;
    waited = λ q. cc;
    failure = v.failure;
  }
  Step-IsSystem {s} (received j m rest at more ok e) v = record {
    in_order = append_assoc s.printed (shown m ∷ []) (map shown rest) ∙ rw e at v.in_order;
    rounds_in = v.rounds_in;
    taken =
        let k : Taken (receiving j) (length s.printed) = rw at at v.taken in
        (omega (arith, k.0, length-append s.printed (shown m ∷ [])), omega arith);
    waited = λ q. ground (arith, v.waited q);
    failure = λ q. cc;
  }
  Step-IsSystem {s} (not_received j at more lost) v = record {
    in_order = v.in_order;
    rounds_in = v.rounds_in;
    taken = let k : Taken (receiving j) (length s.printed) = rw at at v.taken in omega (arith, k.0);
    waited = λ q. inr refl;
    failure = λ q. (j, more, lost);
  }
  Step-IsSystem {s} (all_received at) v = record {
    in_order = v.in_order;
    rounds_in = v.rounds_in;
    taken = let k : Taken (receiving mq_maxmsg) (length s.printed) = rw at at v.taken in k.0;
    waited = λ q. inl refl;
    failure = λ q. cc;
  }
  Step-IsSystem {s} (waitpid at over) v = record {
    in_order = rw at at v.in_order;
    rounds_in = omega arith;
    taken = v.taken;
    waited = λ q. over;
    failure = v.failure;
  }

  pub Reach-IsSystem : {s : System} → Reach sends gets s → IsSystem s
  Reach-IsSystem started = record {
    in_order = refl;
    rounds_in = omega arith;
    taken = (refl, omega arith);
    waited = λ q. cc;
    failure = λ q. cc;
  }
  Reach-IsSystem (next run p) = Step-IsSystem p (Reach-IsSystem run)

  pub length-queue :
      {s : System}
      → IsSystem s
      → length s.printed + length s.queue ≡ length (accepted sends (rounds s.parent))
  length-queue {s} v = omega (
    arith,
    sym (length-append s.printed (map shown s.queue)),
    length-map_shown s.queue,
    ap length v.in_order,
  )

  -- However the two processes are scheduled and whatever calls fail: the texts that the child has printed and
  -- those in the queue are, in order, the texts of the messages that mq_send() has accepted; the parent finds
  -- room in the queue whenever it sends, so that it never waits there; and it ends only after the child.
  pub Reach-accepted :
      {s : System}
      → Reach sends gets s
      → (s.printed ++ map shown s.queue ≡ accepted sends (rounds s.parent))
        × ((i : ℕ) → s.parent ≡ sending i → i < mq_maxmsg → length s.queue < mq_maxmsg)
        × (s.parent ≡ Parent.gone → (s.child ≡ Child.gone) ⊎ (s.child ≡ Child.failed))
  Reach-accepted {s} run =
      let v = Reach-IsSystem run in
      (
        v.in_order,
        λ i at more. omega (arith, length-queue v, length-accepted (rounds s.parent), ap rounds at),
        v.waited,
      )
