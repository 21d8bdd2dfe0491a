-- ===== src/MessageQueue/Relay.antt =====
-- Lines on their way from the terminal of the producer to that of the consumer.
use linux_system_programing.Prelude.{
  ℕ, zero, suc, ◌≤◌, ◌<◌, ◌≡◌, ◌≢◌, refl, ◌∙◌, ap, ap₂, get_or, ◌==◌, false, List, [], ◌∷◌, ◌++◌,
  length, drop, replicate, some, true, arith, append-nil, length-replicate,
}
use linux_system_programing.Bytes.{blit, length-blit}
use linux_system_programing.Strings.{
  IsText, AreTexts, c_string, has_zero, c_string-blit, has_zero-blit, c_string-cleared, zeros-text,
  zeros-has_zero,
}
use linux_system_programing.MessageQueue.Texts.{msg_size, eof, send_buf, produce, consume}

-- Lines that fit `send_buf` with a zero behind them, and do not begin like the end of the input.
abbrev pub AllLines : List (List ℕ) → Type 0
AllLines [] = Unit {0}
AllLines ([] ∷ ls) = ⊥
AllLines ((x ∷ xs) ∷ ls) = (x ≢ eof) × IsText (x ∷ xs) × (length (x ∷ xs) < msg_size) × AllLines ls

-- From `n` bytes on, no line is shorter than the one before it.
abbrev pub Growing : ℕ → List (List ℕ) → Type 0
Growing n [] = Unit {0}
Growing n (l ∷ ls) = (n ≤ length l) × Growing (length l) ls

drop-blit : (buf xs : List ℕ) (k : ℕ) → length xs ≤ k → drop k (blit buf 0 xs) ≡ drop k buf
unfolding blit
drop-blit [] xs k h = refl
drop-blit (b ∷ bs) [] k h = refl
drop-blit (b ∷ bs) (x ∷ xs) zero h = absurd (omega arith)
drop-blit (b ∷ bs) (x ∷ xs) (suc k) h = drop-blit bs xs k (omega arith)

-- The producer sends each line as it is.
send_buf-text : (xs : List ℕ) → IsText xs → length xs < msg_size → c_string (send_buf xs) ≡ xs
unfolding send_buf
send_buf-text xs h few = c_string-cleared msg_size xs h (omega arith)

has_zero-send_buf : (xs : List ℕ) → length xs < msg_size → has_zero (send_buf xs) ≡ true
unfolding send_buf
has_zero-send_buf xs few =
    has_zero-blit (replicate msg_size 0) xs (zeros-has_zero msg_size (length xs) few)

-- the messages of the lines and of the end
abbrev pub with_end : List (List ℕ) → List (List ℕ)
with_end ls = ls ++ (eof ∷ []) ∷ []

produce-lines : (ls : List (List ℕ)) → AllLines ls → produce (ls ++ [] ∷ []) ≡ some (with_end ls)
unfolding produce
produce-lines [] h = refl
produce-lines ([] ∷ ls) h = absurd h
produce-lines ((x ∷ xs) ∷ ls) (ne, text, few, more) =
    rw (has_zero-send_buf (x ∷ xs) few, produce-lines ls more, send_buf-text (x ∷ xs) text few) refl

-- Each line has `n` bytes at most.
abbrev pub AllWithin : ℕ → List (List ℕ) → Type 0
AllWithin n [] = Unit {0}
AllWithin n (l ∷ ls) = (length l ≤ n) × AllWithin n ls

drop-nil : (n : ℕ) → drop {A = ℕ} n [] ≡ []
drop-nil zero = refl
drop-nil (suc n) = refl

has_zero-earlier :
    (buf : List ℕ) (k n : ℕ) → k ≤ n → has_zero (drop n buf) ≡ true → has_zero (drop k buf) ≡ true
unfolding has_zero
has_zero-earlier [] zero n h q = rw (drop-nil n) at q
has_zero-earlier [] (suc k) n h q = rw (drop-nil n) at q
has_zero-earlier (b ∷ bs) zero zero h q = q
has_zero-earlier (b ∷ bs) zero (suc n) h q =
    let ih = has_zero-earlier bs zero n (omega arith) q in ground (arith, ih)
has_zero-earlier (b ∷ bs) (suc k) zero h q = absurd (omega arith)
has_zero-earlier (b ∷ bs) (suc k) (suc n) h q = has_zero-earlier bs k n (omega arith) q

starts :
    (buf : List ℕ) (x : ℕ) (xs : List ℕ)
    → x ≢ eof
    → length (x ∷ xs) ≤ length buf
    → (get_or (blit buf 0 (x ∷ xs)) 0 0 == eof) ≡ false
unfolding blit
starts [] x xs ne few = absurd (omega arith)
starts (b ∷ bs) x xs ne few = ground (arith, ne)

-- One line at the consumer, on an array that has room for it and a zero byte behind it.
consume-line :
    (buf : List ℕ) (x : ℕ) (xs : List ℕ) (ms texts : List (List ℕ))
    → x ≢ eof
    → length (x ∷ xs) ≤ length buf
    → has_zero (blit buf 0 (x ∷ xs)) ≡ true
    → consume (blit buf 0 (x ∷ xs)) ms ≡ some (texts, true)
    → consume buf ((x ∷ xs) ∷ ms) ≡ some (c_string (blit buf 0 (x ∷ xs)) ∷ texts, true)
unfolding consume
consume-line buf x xs ms texts ne few ended rest =
    rw (starts buf x xs ne few, ended, rest, consume) refl

consume-end : (buf : List ℕ) → 0 < length buf → consume buf ((eof ∷ []) ∷ []) ≡ some ([], true)
unfolding consume blit
consume-end [] h = absurd (omega arith)
consume-end (b ∷ bs) h = refl

-- The texts that the consumer prints, where the array has a zero byte from index `n` on.
consume-starts :
    (n : ℕ) (buf : List ℕ) (ls : List (List ℕ))
    → length buf ≡ msg_size
    → AllLines ls
    → AllWithin n ls
    → has_zero (drop n buf) ≡ true
    → (texts : List (List ℕ)) × (consume buf (with_end ls) ≡ some (texts, true))
      × AreTexts buf ls texts
consume-starts n buf [] full h within ended = ([], consume-end buf (omega arith), tt)
consume-starts n buf ([] ∷ ls) full h within ended = absurd h
consume-starts n buf ((x ∷ xs) ∷ ls) full (ne, text, few, more) within ended =
    let l = x ∷ xs in
    let still : has_zero (drop n (blit buf 0 l)) ≡ true =
      ap has_zero (drop-blit buf l n within.0) ∙ ended in
    let (texts, e, are) =
      consume-starts n (blit buf 0 l) ls (length-blit buf 0 l ∙ full) more within.1 still in
    (
      c_string (blit buf 0 l) ∷ texts,
      consume-line buf x xs (with_end ls) texts ne (omega arith)
          (has_zero-blit buf l (has_zero-earlier buf (length l) n within.0 ended)) e,
      (c_string-blit buf l text (omega arith), are),
    )

-- Nothing is left in the array from index `n` on.
abbrev IsClean : ℕ → List ℕ → Type 0
IsClean n buf = (k : ℕ) → n ≤ k → c_string (drop k buf) ≡ []

blit-IsClean :
    (n : ℕ) (buf xs : List ℕ) → n ≤ length xs → IsClean n buf → IsClean (length xs) (blit buf 0 xs)
blit-IsClean n buf xs h clean = λ k q. ap c_string (drop-blit buf xs k q) ∙ clean k (omega arith)

-- From an array with nothing left in it, lines that do not get shorter are printed as they are.
AreTexts-exact :
    (n : ℕ) (buf : List ℕ) (ls texts : List (List ℕ))
    → IsClean n buf
    → Growing n ls
    → AreTexts buf ls texts
    → texts ≡ ls
AreTexts-exact n buf [] [] clean grows are = refl
AreTexts-exact n buf [] (t ∷ texts) clean grows are = absurd are
AreTexts-exact n buf (l ∷ ls) [] clean grows are = absurd are
AreTexts-exact n buf (l ∷ ls) (t ∷ texts) clean grows are =
    let text : t ≡ l = are.0 ∙ ap (λ u. l ++ u) (clean (length l) grows.0) ∙ append-nil l in
    let rest =
      AreTexts-exact (length l) (blit buf 0 l) ls texts (blit-IsClean n buf l grows.0 clean) grows.1
        are.1 in
    ap₂ (λ u us. u ∷ us) text rest

AllLines-AllWithin : (ls : List (List ℕ)) → AllLines ls → AllWithin 255 ls
AllLines-AllWithin [] h = tt
AllLines-AllWithin ([] ∷ ls) h = absurd h
AllLines-AllWithin ((x ∷ xs) ∷ ls) (ne, text, few, more) = (omega arith, AllLines-AllWithin ls more)

consume-exact :
    (ls : List (List ℕ))
    → AllLines ls
    → Growing 0 ls
    → consume (replicate msg_size 0) (with_end ls) ≡ some (ls, true)
consume-exact ls h grows =
    let zeros : List ℕ = replicate msg_size 0 in
    let (texts, e, are) =
      consume-starts 255 zeros ls (length-replicate {A = ℕ} msg_size 0) h (AllLines-AllWithin ls h)
        (zeros-has_zero msg_size 255 (omega arith)) in
    e
    ∙ ap (λ ts. some (ts, true))
        (AreTexts-exact 0 zeros ls texts (λ k q. zeros-text msg_size k) grows are)

-- For lines of 1 to 255 bytes with no zero byte and not beginning with the byte 255, followed by the end of the
-- input, the producer sends them and the end. Where no line is longer than `n` and the consumer's array has a
-- zero byte from index `n` on, the consumer prints one text for each line, the line and what the array still
-- holds behind it up to a zero byte, and then ends. From an array of zeros it prints the lines, when none is
-- shorter than the one before.
pub produce-consume :
    (n : ℕ) (buf : List ℕ) (ls : List (List ℕ))
    → length buf ≡ msg_size
    → AllLines ls
    → AllWithin n ls
    → has_zero (drop n buf) ≡ true
    → (produce (ls ++ [] ∷ []) ≡ some (with_end ls))
      × ((texts : List (List ℕ)) × (consume buf (with_end ls) ≡ some (texts, true))
          × AreTexts buf ls texts)
      × (Growing 0 ls → consume (replicate msg_size 0) (with_end ls) ≡ some (ls, true))
produce-consume n buf ls full h within ended =
    (produce-lines ls h, consume-starts n buf ls full h within ended, consume-exact ls h)
