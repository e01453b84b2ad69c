-- ===== src/Matrix/PartB/Product.antt =====
-- Whatever the scheduler does, partB_take2.c computes the product.
use cse4300_project.Prelude.{
  ℕ, ◌+◌, ◌*◌, ◌^◌, ◌≤◌, ◌<◌, ◌≡◌, ap, ◌∙◌, sym, arith, List, [], ◌∷◌, ◌==◌, if◌then◌else◌, inl,
  inr, Bool-cases,
}
use native.Mathlib.Nat.{add-zero, zero-add}
use cse4300_project.Kernel.{int32}
use cse4300_project.Matrix.Sum.{
  sum_range, sum_range-ext, sum_range-single, sum_range-blocks_all, sum_range-swap, sum_range-le,
  sum_range-if,
}
use cse4300_project.Matrix.Schedule.{
  Update, rounds, Interleaving, run, run-added, added, added_all, added-rounds, run-Interleaving,
  added_all-rounds,
}
use cse4300_project.Matrix.PartB.{
  Sizes, Entry, same_entry, entry_update, chunk, matvec_dotproduct, matvec_saxpy, thread_function,
  split_columns, init_matrix_a, init_matrix_b, init_result, threads, main_result,
}

module _ (z : Sizes) (me : ℕ) (a b : ℕ → ℕ → ℕ) (i0 k0 : ℕ) (row : i0 < z.m) where
  abbrev pub at_entry : List (Update Entry) → ℕ
  at_entry = added same_entry (i0, k0)

  -- What the update at `i`, `j`, `k` adds to the entry if its row is the entry's.
  abbrev pub share : ℕ → ℕ → ℕ
  share k j = if k + me * chunk z == k0 then int32 (a i0 j * b j k) else 0

  -- What thread `me` owes to the entry.
  abbrev pub partial : ℕ
  partial = sum_range (chunk z) 0 (λ k. sum_range z.n 0 (share k))

  one_update :
      (i j k : ℕ) → at_entry (entry_update z me a b i j k ∷ []) ≡ (if i == i0 then share k j else 0)
  one_update i j k = elim (Bool-cases (i == i0)) [
    | inl hit ↦ let same : i ≡ i0 = ground arith in rw (hit, same) (add-zero _)
    | inr miss ↦ rw miss (add-zero _)
  ]

  pub added-dotproduct : at_entry (matvec_dotproduct z me a b) ≡ partial
  unfolding matvec_dotproduct
  added-dotproduct =
      added-rounds same_entry (i0, k0) z.m 0 _
      ∙ sum_range-ext z.m 0 _ _ (λ i p q. one_row i)
      ∙ sum_range-single z.m 0 i0
          (λ _. sum_range z.n 0 (λ j. sum_range (chunk z) 0 (λ k. share k j))) (omega arith)
          (omega arith)
      ∙ sum_range-swap z.n (chunk z) 0 0 (λ j k. share k j)
    where
      one_line :
          (i j : ℕ)
          → at_entry (rounds (chunk z) 0 λ k. entry_update z me a b i j k ∷ [])
            ≡ (if i == i0 then sum_range (chunk z) 0 (λ k. share k j) else 0)
      one_line i j =
          added-rounds same_entry (i0, k0) (chunk z) 0 _
          ∙ sum_range-ext (chunk z) 0 _ _ (λ k p q. one_update i j k)
          ∙ sum_range-if (i == i0) (chunk z) 0 (λ k. share k j)

      one_row :
          (i : ℕ)
          → at_entry (rounds z.n 0 λ j. rounds (chunk z) 0 λ k. entry_update z me a b i j k ∷ [])
            ≡ (if i == i0 then sum_range z.n 0 (λ j. sum_range (chunk z) 0 (λ k. share k j)) else 0)
      one_row i =
          added-rounds same_entry (i0, k0) z.n 0 _
          ∙ sum_range-ext z.n 0 _ _ (λ j p q. one_line i j)
          ∙ sum_range-if (i == i0) z.n 0 (λ j. sum_range (chunk z) 0 (λ k. share k j))

  pub added-saxpy : at_entry (matvec_saxpy z me a b) ≡ partial
  unfolding matvec_saxpy
  added-saxpy =
      added-rounds same_entry (i0, k0) (chunk z) 0 _
      ∙ sum_range-ext (chunk z) 0 _ _ (λ k p q.
        added-rounds same_entry (i0, k0) z.n 0 _
        ∙ sum_range-ext z.n 0 _ _ (λ j p q. one_column j k))
    where
      one_column :
          (j k : ℕ) → at_entry (rounds z.m 0 λ i. entry_update z me a b i j k ∷ []) ≡ share k j
      one_column j k =
          added-rounds same_entry (i0, k0) z.m 0 _
          ∙ sum_range-ext z.m 0 _ _ (λ i p q. one_update i j k)
          ∙ sum_range-single z.m 0 i0 (λ _. share k j) (omega arith) (omega arith)

  -- Matvec_SAXPY and matvec_DOTPRODUCT of partB_take2.c leave the same value in every entry of the
  -- matrix's rows, whatever 32-bit number it held before.
  pub matrix_saxpy-eq-dotproduct :
      (result : Entry → ℕ)
      → result (i0, k0) < 2 ^ 32
      → run same_entry (matvec_saxpy z me a b) result (i0, k0)
        ≡ run same_entry (matvec_dotproduct z me a b) result (i0, k0)
  matrix_saxpy-eq-dotproduct result h =
      run-added same_entry (i0, k0) (matvec_saxpy z me a b) result h
      ∙ ap (λ t. int32 (result (i0, k0) + t)) (added-saxpy ∙ sym added-dotproduct)
      ∙ sym (run-added same_entry (i0, k0) (matvec_dotproduct z me a b) result h)

-- The columns that the threads cover.
abbrev pub covered : Sizes → ℕ
covered z = z.thread_count * chunk z

module _ (z : Sizes) (a b : ℕ → ℕ → ℕ) (i k : ℕ) (row : i < z.m) (column : k < covered z) where
  -- The term of `q` counts for column `k` only.
  abbrev column_sum : ℕ → ℕ
  column_sum q = sum_range z.n 0 (λ j. if q == k then int32 (a i j * b j q) else 0)

  column_sum-if :
      (q : ℕ) → column_sum q ≡ (if q == k then sum_range z.n 0 (λ j. int32 (a i j * b j q)) else 0)
  column_sum-if q = sum_range-if (q == k) z.n 0 (λ j. int32 (a i j * b j q))

  pub sum-partials :
      sum_range z.thread_count 0 (λ me. partial z me a (split_columns z me b) i k row)
      ≡ sum_range z.n 0 (λ j. int32 (a i j * b j k))
  sum-partials =
      sum_range-blocks_all z.thread_count (chunk z) column_sum
      ∙ sum_range-ext (covered z) 0 _ _ (λ q _ _. column_sum-if q)
      ∙ sum_range-single (covered z) 0 k (λ q. sum_range z.n 0 (λ j. int32 (a i j * b j q)))
          (omega arith) (omega arith)

  added_all-threads :
      added_all same_entry (i, k) (rounds z.thread_count 0 λ me. thread_function z a b me ∷ [])
      ≡ sum_range z.n 0 (λ j. int32 (a i j * b j k))
  unfolding thread_function
  added_all-threads =
      added_all-rounds same_entry (i, k) z.thread_count 0 (thread_function z a b)
      ∙ sum_range-ext z.thread_count 0 _ _
          (λ me p q. added-saxpy z me a (split_columns z me b) i k row)
      ∙ sum-partials

pub product_small :
    (z : Sizes) (rand : ℕ → ℕ) (i j k : ℕ)
    → init_matrix_a z rand i j * init_matrix_b z rand j k ≤ 81
unfolding init_matrix_a init_matrix_b
product_small z rand i j k = grind arith

-- In every order of the critical sections of partB_take2.c, each entry of the result in one of the
-- rows and in a column that the threads cover ends as the entry of the matrix product of the two
-- random matrices, provided 81 * N < 2^31.
pub main_result-matrix_product :
    (z : Sizes) (rand : ℕ → ℕ) (i k : ℕ) {order : List (Update Entry)}
    → i < z.m
    → k < covered z
    → 81 * z.n < 2 ^ 31
    → Interleaving (threads z rand) order
    → main_result order (i, k)
      ≡ sum_range z.n 0 (λ j. init_matrix_a z rand i j * init_matrix_b z rand j k)
unfolding threads main_result
main_result-matrix_product z rand i k row column small s =
    run-Interleaving same_entry (i, k) init_result (omega arith) s
    ∙ ap int32 (
        zero-add _
        ∙ added_all-threads z (init_matrix_a z rand) (init_matrix_b z rand) i k row column
        ∙ exact)
    ∙ omega (arith, sum_range-le z.n 0 81 term (λ j. product_small z rand i j k))
  where
    term : ℕ → ℕ
    term j = init_matrix_a z rand i j * init_matrix_b z rand j k

    exact : sum_range z.n 0 (λ j. int32 (term j)) ≡ sum_range z.n 0 term
    exact = sum_range-ext z.n 0 _ _ (λ j p q. omega (arith, product_small z rand i j k))
