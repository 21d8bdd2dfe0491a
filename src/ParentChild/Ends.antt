-- ===== src/ParentChild/Ends.antt =====
-- When the two processes of process_test/mq_p&s.c end.
use linux_system_programing.Prelude.{
  ℕ, zero, suc, ◌+◌, ◌-◌, ◌<◌, ◌≡◌, ◌≢◌, ◌⊎◌, inl, inr, refl, sym, ◌∙◌, ap, List, [], ◌∷◌, ◌++◌,
  append-nil, length, length-append, Bool, true, false, ltb, ltb→lt, ltb→le, ◌==◌, ==_iff, arith,
  Bool-cases,
}
use mathlib.Core.List.{map}
use linux_system_programing.ParentChild.Steps.{
  mq_maxmsg, text, shown, Parent, sending, waiting, Child, receiving, System, Step, sent, all_sent,
  received, not_received, all_received, waitpid, Reach,
}
use linux_system_programing.ParentChild.Runs.{
  rounds, Taken, accepted, length-accepted, IsSystem, Reach-IsSystem, length-queue,
}

-- how many steps are left
abbrev pub parent_left : Parent → ℕ
parent_left (sending i) = mq_maxmsg + 2 - i
parent_left waiting = 1
parent_left Parent.gone = 0

abbrev pub child_left : Child → ℕ
child_left (receiving j) = mq_maxmsg + 1 - j
child_left Child.failed = 0
child_left Child.gone = 0

abbrev pub steps_left : System → ℕ
steps_left s = parent_left s.parent + child_left s.child

-- all ten texts
abbrev pub all_texts : ℕ → List (List ℕ)
all_texts zero = []
all_texts (suc i) = all_texts i ++ text (suc i) ∷ []

-- Both processes are gone, and the child has printed all ten texts.
pub record IsDone (s : System) : Type 0 where
  pub parent_gone : s.parent ≡ Parent.gone
  pub child_gone : s.child ≡ Child.gone
  pub all_printed : s.printed ≡ all_texts mq_maxmsg

empty : {A : Type 0} (xs : List A) → length xs ≡ 0 → xs ≡ []
empty [] h = refl
empty (x ∷ xs) h = absurd (omega arith)

first : {A : Type 0} (xs : List A) → 0 < length xs → (x : A) × (ys : List A) × (xs ≡ x ∷ ys)
first [] h = absurd (omega arith)
first (x ∷ xs) h = (x, xs, refl)

length-all_texts : (n : ℕ) → length (all_texts n) ≡ n
length-all_texts zero = refl
length-all_texts (suc n) =
    omega (arith, length-append (all_texts n) (text (suc n) ∷ []), length-all_texts n)

module _ (sends gets : ℕ → Bool) where
  Step-fewer : {s t : System} → Step sends gets s t → steps_left t < steps_left s
  Step-fewer {s} (sent i at more room) = omega (arith, ap parent_left at)
  Step-fewer {s} (all_sent at) = omega (arith, ap parent_left at)
  Step-fewer {s} (received j m rest at more ok e) = omega (arith, ap child_left at)
  Step-fewer {s} (not_received j at more lost) = omega (arith, ap child_left at)
  Step-fewer {s} (all_received at) = omega (arith, ap child_left at)
  Step-fewer {s} (waitpid at over) = omega (arith, ap parent_left at)

  accepted-all : (n : ℕ) → ((i : ℕ) → i < n → sends i ≡ true) → accepted sends n ≡ all_texts n
  accepted-all zero ok = refl
  accepted-all (suc n) ok =
      rw (ok n (omega arith))
        (ap (λ l. l ++ text (suc n) ∷ []) (accepted-all n (λ i h. ok i (omega arith))))

  -- A round whose mq_send() fails adds no text.
  accepted-fewer : (n i : ℕ) → i < n → sends i ≡ false → length (accepted sends n) < n
  accepted-fewer zero i h lost = absurd (omega arith)
  accepted-fewer (suc n) i h lost = elim (Bool-cases (i == n)) [
    | inl e ↦
        let here : sends n ≡ false = rw ((==_iff i n).0 e) at lost in
        rw here (omega (arith, length-accepted sends gets n))
    | inr e ↦
        let before = accepted-fewer n i (ground arith) lost in
        elim (Bool-cases (sends n)) [
          | inl ok ↦
              rw ok (omega (arith, before, length-append (accepted sends n) (text (suc n) ∷ [])))
          | inr q ↦ rw q (omega (arith, before))
        ]
  ]

  module _ (gets_all : (j : ℕ) → j < mq_maxmsg → gets j ≡ true) where
    not_failed : {s : System} → IsSystem sends gets s → s.child ≢ Child.failed
    not_failed v q = let (j, h, e) = v.failure q in absurd (cc (sym e ∙ gets_all j h))

    -- The parent is in waitpid().
    child_goes :
        {s : System}
        → IsSystem sends gets s
        → s.parent ≡ waiting
        → length (accepted sends mq_maxmsg) ≡ mq_maxmsg
        → (c : Child) → s.child ≡ c
        → (t : System) × Step sends gets s t
    child_goes {s} v at all (receiving j) here =
        let taken : Taken (receiving j) (length s.printed) = rw here at v.taken in
        elim (Bool-cases (ltb j mq_maxmsg)) [
          | inl more ↦
              let some_left : 0 < length s.queue = omega (
                arith,
                taken.0,
                ltb→lt _ _ more,
                length-queue sends gets v,
                all,
                ap (λ p. length (accepted sends (rounds p))) at,
              ) in
              let (m, rest, e) = first s.queue some_left in
              (_, received j m rest here (ltb→lt _ _ more) (gets_all j (ltb→lt _ _ more)) e)
          | inr over ↦
              let last : j ≡ mq_maxmsg = omega (arith, taken.1, ltb→le _ _ over) in
              (_, all_received (here ∙ ap receiving last))
        ]
    child_goes v at all Child.failed here = absurd (not_failed v here)
    child_goes v at all Child.gone here = (_, waitpid at (inl here))

    done :
        {s : System}
        → IsSystem sends gets s
        → accepted sends mq_maxmsg ≡ all_texts mq_maxmsg
        → s.parent ≡ Parent.gone
        → IsDone s
    done {s} v all at =
        let child_gone : s.child ≡ Child.gone = elim (v.waited at) [
          | inl q ↦ q
          | inr q ↦ absurd (not_failed v q)
        ] in
        let taken : length s.printed ≡ mq_maxmsg = rw child_gone at v.taken in
        let order : s.printed ++ map shown s.queue ≡ accepted sends mq_maxmsg =
          rw at at v.in_order in
        let none_left : s.queue ≡ [] = empty s.queue (
          omega (
            arith,
            taken,
            length-queue sends gets v,
            ap (λ p. length (accepted sends (rounds p))) at,
            length-accepted sends gets mq_maxmsg,
          )) in
        record {
          parent_gone = at;
          child_gone = child_gone;
          all_printed = sym (append-nil s.printed) ∙ rw none_left at order ∙ all;
        }

    parent_goes :
        {s : System}
        → IsSystem sends gets s
        → ((i : ℕ) → i < mq_maxmsg → sends i ≡ true)
        → (p : Parent) → s.parent ≡ p
        → IsDone s ⊎ ((t : System) × Step sends gets s t)
    parent_goes {s} v ok (sending i) at = elim (Bool-cases (ltb i mq_maxmsg)) [
      | inl more ↦ inr (
        _,
        sent i at (ltb→lt _ _ more) (
            omega (
              arith,
              ltb→lt _ _ more,
              length-queue sends gets v,
              length-accepted sends gets (rounds s.parent),
              ap rounds at,
            )),
      )
      | inr over ↦
          let last : i ≡ mq_maxmsg = omega (arith, ltb→le _ _ over, v.rounds_in, ap rounds at) in
          inr (_, all_sent (at ∙ ap sending last))
    ]
    parent_goes {s} v ok waiting at = inr (
        child_goes v at (ap length (accepted-all mq_maxmsg ok) ∙ length-all_texts mq_maxmsg) s.child
          refl)
    parent_goes v ok Parent.gone at = inl (done v (accepted-all mq_maxmsg ok) at)

    -- After a send that has failed the child waits for one message more than there are.
    child_stays :
        {s : System}
        → IsSystem sends gets s
        → (i : ℕ) → i < mq_maxmsg
        → sends i ≡ false
        → s.child ≢ Child.gone
    child_stays {s} v i h lost q =
        let taken : length s.printed ≡ mq_maxmsg = rw q at v.taken in
        let all : length (accepted sends (rounds s.parent)) ≡ mq_maxmsg = omega (
          arith,
          taken,
          length-queue sends gets v,
          length-accepted sends gets (rounds s.parent),
          v.rounds_in,
        ) in
        elim (Bool-cases (ltb i (rounds s.parent))) [
          | inl past ↦
              omega
                (arith, accepted-fewer (rounds s.parent) i (ltb→lt _ _ past) lost, all, v.rounds_in)
          | inr before ↦
              omega (arith, ltb→le _ _ before, length-accepted sends gets (rounds s.parent), all)
        ]

-- Where all calls of mq_receive() succeed, each step leaves fewer steps to go; when all calls of mq_send()
-- succeed too, a state that the processes reach has a step to go on with until both are gone and the child
-- has printed all ten texts; but when one of them fails, in no state that they reach the child or the parent
-- is gone.
pub Reach-ends :
    (sends gets : ℕ → Bool)
    → ((j : ℕ) → j < mq_maxmsg → gets j ≡ true)
    → {s : System} → Reach sends gets s
    → ((t : System) → Step sends gets s t → steps_left t < steps_left s)
      × (((i : ℕ) → i < mq_maxmsg → sends i ≡ true)
          → IsDone s ⊎ ((t : System) × Step sends gets s t))
      × ((i : ℕ)
          → i < mq_maxmsg
          → sends i ≡ false
          → (s.child ≢ Child.gone) × (s.parent ≢ Parent.gone))
Reach-ends sends gets gets_all {s} run =
    let v = Reach-IsSystem sends gets run in
    (
      λ t p. Step-fewer sends gets p,
      λ ok. parent_goes sends gets gets_all v ok s.parent refl,
      λ i h lost.
          let stays = child_stays sends gets gets_all v i h lost in
          (
            stays,
            λ q. elim (v.waited q) [ inl c ↦ stays c | inr c ↦ not_failed sends gets gets_all v c ],
          ),
    )
