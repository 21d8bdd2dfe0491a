-- ===== src/Rings.antt =====
-- The ring buffers of thread_test/thread_pool.c and socket_test/server_pthread_pool.c: a C array of
-- MAX_TASK elements, a first index and a number of elements, against the list that they stand for.
use linux_system_programing.Prelude.{
  ℕ, zero, suc, ◌+◌, ◌-◌, ◌%◌, ◌<◌, ◌≡◌, ◌≢◌, refl, ◌∙◌, ap, ap₂, List, [], ◌∷◌, ◌++◌, length,
  get_or, set, arith, get_or-set_self, get_or-set_ne,
}

-- MAX_TASK
abbrev pub max_task : ℕ
max_task = 100

module _ {ℓ} {A : Type ℓ} (d : A) where
  -- the `n` elements from index `i` on, around the end of the array; `d` stands past its end
  abbrev pub window : List A → ℕ → ℕ → List A
  window xs i zero = []
  window xs i (suc n) = get_or xs (i % max_task) d ∷ window xs (i + 1) n

  pub window-mod :
      (xs : List A) (i j n : ℕ) → i % max_task ≡ j % max_task → window xs i n ≡ window xs j n
  window-mod xs i j zero e = refl
  window-mod xs i j (suc n) e =
      ap₂ (λ k l. get_or xs k d ∷ l) e (window-mod xs (i + 1) (j + 1) n (omega arith))

  window-snoc :
      (xs : List A) (i n : ℕ)
      → window xs i (suc n) ≡ window xs i n ++ get_or xs ((i + n) % max_task) d ∷ []
  window-snoc xs i zero = let e : i + 0 ≡ i = omega arith in rw e
  window-snoc xs i (suc n) =
      let e : i + 1 + n ≡ i + suc n = omega arith in
      ap (λ l. get_or xs (i % max_task) d ∷ l)
        (window-snoc xs (i + 1) n
          ∙ ap (λ k. window xs (i + 1) n ++ get_or xs (k % max_task) d ∷ []) e)

  window-set :
      (xs : List A) (j : ℕ) (v : A) (i n : ℕ)
      → ((k : ℕ) → k < n → j ≢ (i + k) % max_task)
      → window (set xs j v) i n ≡ window xs i n
  window-set xs j v i zero away = refl
  window-set xs j v i (suc n) away =
      ap₂ (λ x l. x ∷ l)
        (get_or-set_ne xs j (i % max_task) v d (λ e. away 0 (omega arith) (omega arith)))
        (window-set xs j v (i + 1) n (λ k h e. away (suc k) (omega arith) (omega arith)))

  -- An element written behind the last one is the new last one.
  pub window-push :
      (xs : List A) (i n : ℕ) (v : A)
      → length xs ≡ max_task
      → n < max_task
      → window (set xs ((i + n) % max_task) v) i (suc n) ≡ window xs i n ++ v ∷ []
  window-push xs i n v whole room =
      window-snoc (set xs ((i + n) % max_task) v) i n
      ∙ ap₂ (λ l x. l ++ x ∷ [])
          (window-set xs ((i + n) % max_task) v i n (λ k h e. absurd (omega arith)))
          (get_or-set_self xs ((i + n) % max_task) v d (omega arith))

  -- The first element is taken off at its index.
  pub window-pop :
      (xs : List A) (i n : ℕ)
      → i < max_task
      → 0 < n
      → window xs i n ≡ get_or xs i d ∷ window xs ((i + 1) % max_task) (n - 1)
  window-pop xs i n in_range some_left =
      let p : n ≡ suc (n - 1) = omega arith in
      let here : i % max_task ≡ i = omega arith in
      ap (window xs i) p
      ∙ ap₂ (λ j l. get_or xs j d ∷ l) here
          (window-mod xs (i + 1) ((i + 1) % max_task) (n - 1) (omega arith))
