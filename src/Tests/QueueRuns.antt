-- ===== src/Tests/QueueRuns.antt =====
-- Two lines through the queue of process_test/mq_producer.c.
use linux_system_programing.Prelude.{
  ℕ, ◌≡◌, refl, List, [], ◌∷◌, ◌++◌, replicate, drop, some, true, arith,
}
use linux_system_programing.Strings.{AreTexts, has_zero}
use linux_system_programing.MessageQueue.Texts.{msg_size, produce, consume}
use linux_system_programing.MessageQueue.Relay.{AllLines, Growing, with_end, produce-consume}

-- an array that holds letters, and a zero byte at its end
abbrev letters : List ℕ
letters = replicate 255 65 ++ 0 ∷ []

-- "hi" and "yes"
abbrev lines : List (List ℕ)
lines = (104 ∷ 105 ∷ 10 ∷ []) ∷ (121 ∷ 101 ∷ 115 ∷ 10 ∷ []) ∷ []

lines-AllLines : AllLines lines
lines-AllLines = (
  λ q. omega arith,
  (λ q. omega arith, (λ q. omega arith, (λ q. omega arith, tt))),
  omega arith,
  (
    λ q. omega arith,
    (λ q. omega arith, (λ q. omega arith, (λ q. omega arith, (λ q. omega arith, tt)))),
    omega arith,
    tt,
  ),
)

letters_end : has_zero (drop 4 letters) ≡ true
unfolding has_zero
letters_end = refl

produce-consume_example :
    (produce (lines ++ [] ∷ []) ≡ some (with_end lines))
    × ((texts : List (List ℕ)) × (consume letters (with_end lines) ≡ some (texts, true))
        × AreTexts letters lines texts)
    × (Growing 0 lines → consume (replicate msg_size 0) (with_end lines) ≡ some (lines, true))
produce-consume_example =
    produce-consume 4 letters lines refl lines-AllLines (omega arith, (omega arith, tt)) letters_end
