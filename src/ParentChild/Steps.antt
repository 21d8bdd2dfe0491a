-- ===== src/ParentChild/Steps.antt =====
-- The two processes of process_test/mq_p&s.c after fork(), by the calls of the queue.
use linux_system_programing.Prelude.{
  ℕ, ◌+◌, ◌<◌, ◌≡◌, ◌⊎◌, List, [], ◌∷◌, ◌++◌, length, replicate, Bool, true, false, if◌then◌else◌,
}
use linux_system_programing.Bytes.{blit}
use linux_system_programing.Strings.{c_string}
use linux_system_programing.Stress.Request.{decimal}

-- `attr.mq_maxmsg`, and the size of `a_buf` and of `b_buf`
abbrev pub mq_maxmsg : ℕ
mq_maxmsg = 10

abbrev pub buf_size : ℕ
buf_size = 128

-- "这是第%d条消息\n", in UTF-8
abbrev pub before_number : List ℕ
before_number = 0xe8 ∷ 0xbf ∷ 0x99 ∷ 0xe6 ∷ 0x98 ∷ 0xaf ∷ 0xe7 ∷ 0xac ∷ 0xac ∷ []

abbrev pub after_number : List ℕ
after_number = 0xe6 ∷ 0x9d ∷ 0xa1 ∷ 0xe6 ∷ 0xb6 ∷ 0x88 ∷ 0xe6 ∷ 0x81 ∷ 0xaf ∷ b'\n' ∷ []

abbrev pub text : ℕ → List ℕ
text n = before_number ++ decimal n ++ after_number

-- What mq_send() sends: the string in the cleared `a_buf`, and its zero.
unfoldable pub message : ℕ → List ℕ
message n = c_string (blit (replicate buf_size 0) 0 (text n)) ++ 0 ∷ []

-- What printf() prints of the cleared `b_buf` after mq_receive().
unfoldable pub shown : List ℕ → List ℕ
shown m = c_string (blit (replicate buf_size 0) 0 m)

-- The parent in its loop with `i` and in waitpid(), and each process when it is gone.
pub data Parent : Type 0 where
  sending : ℕ → Parent
  waiting gone : Parent

pub data Child : Type 0 where
  receiving : ℕ → Child
  failed gone : Child

-- `queue` holds the messages, the oldest first, and `printed` what the child has printed of them.
pub record System : Type 0 where
  pub queue : List (List ℕ)
  pub parent : Parent
  pub child : Child
  pub printed : List (List ℕ)
  pub named : Bool

abbrev pub start : System
start = record { queue = []; parent = sending 0; child = receiving 0; printed = []; named = true }

-- `sends i` and `gets i` say whether mq_send() and mq_receive() succeed in the round `i` of their loops. On a
-- full queue mq_send() waits, and on an empty one mq_receive().
module _ (sends gets : ℕ → Bool) where
  unfoldable pub mq_send : ℕ → List (List ℕ) → List (List ℕ)
  mq_send i queue = if sends i then queue ++ message (i + 1) ∷ [] else queue

  pub data Step (s : System) : System → Type 0 where
    sent :
        (i : ℕ)
        → s.parent ≡ sending i
        → i < mq_maxmsg
        → length s.queue < mq_maxmsg
        → Step s (record s { queue = mq_send i s.queue; parent = sending (i + 1) })
    all_sent : s.parent ≡ sending mq_maxmsg → Step s (record s { parent = waiting })
    received :
        (j : ℕ) (m : List ℕ) (rest : List (List ℕ))
        → s.child ≡ receiving j
        → j < mq_maxmsg
        → gets j ≡ true
        → s.queue ≡ m ∷ rest
        → Step s (record s {
          queue = rest;
          child = receiving (j + 1);
          printed = s.printed ++ shown m ∷ [];
        })
    not_received :
        (j : ℕ)
        → s.child ≡ receiving j
        → j < mq_maxmsg
        → gets j ≡ false
        → Step s (record s { child = Child.failed })
    all_received : s.child ≡ receiving mq_maxmsg → Step s (record s { child = Child.gone })
    waitpid :
        s.parent ≡ waiting
        → (s.child ≡ Child.gone) ⊎ (s.child ≡ Child.failed)
        → Step s (record s { parent = Parent.gone; named = false })

  pub data Reach : System → Type 0 where
    started : Reach start
    next : {s t : System} → Reach s → Step s t → Reach t
