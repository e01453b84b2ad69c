-- ===== src/Matrix/Schedule.antt =====
-- Threads whose only shared writes are additions made under the mutex: a thread is the list of its
-- critical sections, and the scheduler picks any interleaving of the threads.
use cse4300_project.Prelude.{
  ℕ, zero, suc, ◌+◌, ◌^◌, ◌<◌, ◌≡◌, refl, ap, ◌∙◌, arith, if◌then◌else◌, Bool, inl, inr, Bool-cases,
  List, [], ◌∷◌, ◌++◌,
}
use cse4300_project.Kernel.{int32}
use cse4300_project.Matrix.Sum.{sum_range}

-- `result[at] = result[at] + value` between lock and unlock.
pub record Update (L : Type 0) : Type 0 where
  pub at : L
  pub value : ℕ

-- The bodies of `for (j = i; j < i + n; j++)`, one after the other.
abbrev pub rounds {ℓ} : {A : Type ℓ} → ℕ → ℕ → (ℕ → List A) → List A
rounds zero i body = []
rounds (suc n) i body = body i ++ rounds n (i + 1) body

-- Every order in which the threads can go through their critical sections to the end.
pub data Interleaving {A : Type 0} : List (List A) → List A → Type 0 where
  finished : Interleaving [] []
  retire :
      {threads : List (List A)} {order : List A}
      → Interleaving threads order
      → Interleaving ([] ∷ threads) order
  pick :
      {threads : List (List A)} {order : List A} (before after : List (List A)) (x : A)
      (rest : List A)
      → threads ≡ before ++ (x ∷ rest) ∷ after
      → Interleaving (before ++ rest ∷ after) order
      → Interleaving threads (x ∷ order)

module _ {L : Type 0} (same : L → L → Bool) where
  unfoldable pub apply_update : Update L → (L → ℕ) → L → ℕ
  apply_update u result l = if same u.at l then int32 (result l + u.value) else result l

  unfoldable pub run : List (Update L) → (L → ℕ) → L → ℕ
  run [] result = result
  run (u ∷ us) result = run us (apply_update u result)

  -- What a list of updates adds at `l`.
  abbrev pub added : L → List (Update L) → ℕ
  added l [] = 0
  added l (u ∷ us) = (if same u.at l then u.value else 0) + added l us

  abbrev pub added_all : L → List (List (Update L)) → ℕ
  added_all l [] = 0
  added_all l (t ∷ ts) = added l t + added_all l ts

  pub added-append :
      (l : L) (us vs : List (Update L)) → added l (us ++ vs) ≡ added l us + added l vs
  added-append l [] vs = omega arith
  added-append l (u ∷ us) vs = omega (arith, added-append l us vs)

  pub added-rounds :
      (l : L) (n i : ℕ) (body : ℕ → List (Update L))
      → added l (rounds n i body) ≡ sum_range n i (λ j. added l (body j))
  added-rounds l zero i body = refl
  added-rounds l (suc n) i body =
      omega (arith, added-append l (body i) (rounds n (i + 1) body), added-rounds l n (i + 1) body)

  pub added_all-append :
      (l : L) (ts vs : List (List (Update L)))
      → added_all l (ts ++ vs) ≡ added_all l ts + added_all l vs
  added_all-append l [] vs = omega arith
  added_all-append l (t ∷ ts) vs = omega (arith, added_all-append l ts vs)

  -- A loop that adds to one location.
  pub added-rounds_at :
      (l a : L) (n i : ℕ) (value : ℕ → ℕ)
      → added l (rounds n i (λ j. record { at = a; value = value j } ∷ []))
        ≡ (if same a l then sum_range n i value else 0)
  added-rounds_at l a zero i value = ground arith
  added-rounds_at l a (suc n) i value = ground (arith, added-rounds_at l a n (i + 1) value)

  pub added_all-rounds :
      (l : L) (n i : ℕ) (body : ℕ → List (Update L))
      → added_all l (rounds n i (λ me. body me ∷ [])) ≡ sum_range n i (λ me. added l (body me))
  added_all-rounds l zero i body = refl
  added_all-rounds l (suc n) i body = omega (arith, added_all-rounds l n (i + 1) body)

  added-Interleaving :
      (l : L) {threads : List (List (Update L))} {order : List (Update L)}
      → Interleaving threads order
      → added l order ≡ added_all l threads
  added-Interleaving l finished = refl
  added-Interleaving l (retire s) = omega (arith, added-Interleaving l s)
  added-Interleaving l (pick before after x rest e s) = omega (
    arith,
    added-Interleaving l s,
    ap (added_all l) e,
    added_all-append l before ((x ∷ rest) ∷ after),
    added_all-append l before (rest ∷ after),
  )

  pub run-added :
      (l : L) (us : List (Update L)) (result : L → ℕ)
      → result l < 2 ^ 32
      → run us result l ≡ int32 (result l + added l us)
  unfolding run apply_update
  run-added l [] result h = omega arith
  run-added l (u ∷ us) result h = elim (Bool-cases (same u.at l)) [
    | inl hit ↦
        let here : apply_update u result l ≡ int32 (result l + u.value) = rw hit in
        rw hit (omega (arith, run-added l us (apply_update u result) (omega (arith, here)), here))
    | inr miss ↦
        let there : apply_update u result l ≡ result l = rw miss in
        rw miss
          (omega (arith, run-added l us (apply_update u result) (omega (arith, there)), there))
  ]

  -- Whatever the order in which the threads go through their critical sections, a location ends
  -- with its start value and all that the threads add to it, modulo 2^32, if its start value is a
  -- 32-bit number.
  pub run-Interleaving :
      (l : L) {threads : List (List (Update L))} {order : List (Update L)} (result : L → ℕ)
      → result l < 2 ^ 32
      → Interleaving threads order
      → run order result l ≡ int32 (result l + added_all l threads)
  run-Interleaving l {order} result h s =
      run-added l order result h ∙ ap (λ t. int32 (result l + t)) (added-Interleaving l s)
