-- ===== src/Epoll/Ends.antt =====
-- What becomes of a client of the epoll servers whose peer has closed the connection.
use linux_system_programing.Prelude.{
  ℕ, ◌≡◌, ◌≢◌, refl, subst, ◌∙◌, ap, List, [], ◌∷◌, Bool, true, false, Bool-cases, inl, inr,
}
use linux_system_programing.Kernel.{bytes, Sent}
use linux_system_programing.Echo.Client.{ok}
use linux_system_programing.Epoll.Conn.{Conn, Version, Revents, Verdict, kept, broken, closed, turn}
use linux_system_programing.Epoll.Turns.{turn_at_end}

-- The events of one client as long as it is kept; recv() returns the end of the stream each time.
abbrev pub turns : Version → (List ℕ → Sent) → List Revents → Conn → Verdict
turns v s [] d = kept d
turns v s (ev ∷ evs) d = elim (turn v ev (bytes []) s d) [
  | kept e ↦ turns v s evs e
  | broken e ↦ broken e
  | closed e ↦ closed e
]

-- Each event has EPOLLIN and EPOLLRDHUP, and EPOLLOUT only if that is watched.
abbrev pub AllEnded : Bool → List Revents → Type 0
AllEnded watched [] = Unit {0}
AllEnded watched (ev ∷ evs) =
    ((ev.epollin ≡ true) × (ev.epollrdhup ≡ true) × (ev.epollout ≡ true → watched ≡ true))
    × AllEnded watched evs

end_event :
    (ev : Revents)
    → (ev.epollin ≡ true) × (ev.epollrdhup ≡ true) × (ev.epollout ≡ true → false ≡ true)
    → ev ≡ record { epollin = true; epollout = false; epollrdhup = true }
end_event ev (readable, ended, reported) =
    let quiet : ev.epollout ≡ false = elim (Bool-cases ev.epollout) [
      | inl out ↦ absurd (cc (reported out))
      | inr q ↦ q
    ] in
    cc

one_more :
    (v : Version) (s : List ℕ → Sent) (d : Conn) (ev : Revents) (evs : List Revents)
    → v.eof ≢ ok
    → (ev.epollin ≡ true) × (ev.epollrdhup ≡ true) × (ev.epollout ≡ true → false ≡ true)
    → turns v s (ev ∷ evs) d ≡ turns v s evs (record d { should_close = true })
one_more v s d ev evs ne e =
    ap
      (λ (x : Verdict). elim x as (λ _. Verdict) [
        | kept c ↦ turns v s evs c
        | broken c ↦ broken c
        | closed c ↦ closed c
      ])
      (ap (λ (x : Revents). turn v x (bytes []) s d) (end_event ev e) ∙ turn_at_end v s d ne)

-- A client whose EPOLLOUT is not watched, in a version for which the end of the stream is not a success:
-- when its peer has closed the connection, however many events with EPOLLIN and EPOLLRDHUP follow, none with
-- EPOLLOUT unless that is watched, after one or more of them it is marked to be closed, but still kept, and
-- otherwise as it was.
pub turns_at_end :
    (v : Version) (s : List ℕ → Sent) (d : Conn) (ev : Revents) (evs : List Revents)
    → v.eof ≢ ok
    → d.epollout ≡ false
    → AllEnded d.epollout (ev ∷ evs)
    → turns v s (ev ∷ evs) d ≡ kept (record d { should_close = true })
turns_at_end v s d ev evs ne unwatched ended =
    let all : AllEnded false (ev ∷ evs) = subst (λ b. AllEnded b (ev ∷ evs)) unwatched ended in
    one_more v s d ev evs ne all.0 ∙ rest evs all.1
  where
    rest :
        (l : List Revents)
        → AllEnded false l
        → turns v s l (record d { should_close = true }) ≡ kept (record d { should_close = true })
    rest [] h = refl
    rest (e ∷ l) h = one_more v s (record d { should_close = true }) e l ne h.0 ∙ rest l h.1
