-- ===== src/Matrix/PartA/Product.antt =====
-- Whatever the scheduler does, partA.c computes the product.
use cse4300_project.Prelude.{
  ℕ, ◌+◌, ◌*◌, ◌^◌, ◌≤◌, ◌<◌, ◌≡◌, ap, ◌∙◌, sym, arith, List, [], ◌∷◌, ◌==◌,
}
use native.Mathlib.Nat.{add-zero, zero-add}
use cse4300_project.Kernel.{int32}
use cse4300_project.Matrix.Sum.{
  sum_range, sum_range-ext, sum_range-single, sum_range-blocks_all, sum_range-le,
}
use cse4300_project.Matrix.Schedule.{
  Update, rounds, Interleaving, run, run-added, added-rounds_at, added, added_all, added-rounds,
  run-Interleaving, added_all-rounds,
}
use cse4300_project.Matrix.PartA.{
  Sizes, chunk, matvec_dotproduct, matvec_saxpy, thread_function, init_matrix, init_vvector,
  init_result, threads, main_result, split,
}

module _ (z : Sizes) (me : ℕ) (matrix : ℕ → ℕ → ℕ) (vvector : ℕ → ℕ) (i : ℕ) (row : i < z.m) where
  -- What thread `me` owes to row `i`.
  abbrev pub partial : ℕ
  partial = sum_range (chunk z) 0 (λ j. int32 (matrix i j * vvector (j + me * chunk z)))

  pub added-dotproduct : added ◌==◌ i (matvec_dotproduct z me matrix vvector) ≡ partial
  unfolding matvec_dotproduct
  added-dotproduct =
      added-rounds ◌==◌ i z.m 0 _
      ∙ sum_range-ext z.m 0 _ _ (λ i' p q. added-rounds_at ◌==◌ i i' (chunk z) 0 _)
      ∙ sum_range-single z.m 0 i
          (λ i'. sum_range (chunk z) 0 (λ j. int32 (matrix i' j * vvector (j + me * chunk z))))
          (omega arith) (omega arith)

  pub added-saxpy : added ◌==◌ i (matvec_saxpy z me matrix vvector) ≡ partial
  unfolding matvec_saxpy
  added-saxpy =
      added-rounds ◌==◌ i (chunk z) 0 _ ∙ sum_range-ext (chunk z) 0 _ _ (λ j p q. column j)
    where
      column :
          (j : ℕ)
          → added ◌==◌ i (
              rounds z.m 0 λ i'.
                record { at = i'; value = int32 (matrix i' j * vvector (j + me * chunk z)) } ∷ [])
            ≡ int32 (matrix i j * vvector (j + me * chunk z))
      column j =
          added-rounds ◌==◌ i z.m 0 _
          ∙ sum_range-ext z.m 0 _ _ (λ i' p q. add-zero _)
          ∙ sum_range-single z.m 0 i (λ i'. int32 (matrix i' j * vvector (j + me * chunk z)))
              (omega arith) (omega arith)

  -- Matvec_SAXPY and matvec_DOTPRODUCT of partA.c leave the same value in every row of the matrix,
  -- whatever 32-bit number the row held before.
  pub saxpy-eq-dotproduct :
      (result : ℕ → ℕ)
      → result i < 2 ^ 32
      → run ◌==◌ (matvec_saxpy z me matrix vvector) result i
        ≡ run ◌==◌ (matvec_dotproduct z me matrix vvector) result i
  saxpy-eq-dotproduct result h =
      run-added ◌==◌ i (matvec_saxpy z me matrix vvector) result h
      ∙ ap (λ t. int32 (result i + t)) (added-saxpy ∙ sym added-dotproduct)
      ∙ sym (run-added ◌==◌ i (matvec_dotproduct z me matrix vvector) result h)

-- The columns that the threads cover.
abbrev pub covered : Sizes → ℕ
covered z = z.thread_count * chunk z

module _ (z : Sizes) (matrix : ℕ → ℕ → ℕ) (vvector : ℕ → ℕ) (i : ℕ) (row : i < z.m) where
  pub sum-partials :
      sum_range z.thread_count 0 (λ me. partial z me (split z me matrix) vvector i row)
      ≡ sum_range (covered z) 0 (λ j. int32 (matrix i j * vvector j))
  sum-partials = sum_range-blocks_all z.thread_count (chunk z) (λ j. int32 (matrix i j * vvector j))

  added_all-threads :
      added_all ◌==◌ i (rounds z.thread_count 0 λ me. thread_function z matrix vvector me ∷ [])
      ≡ sum_range (covered z) 0 (λ j. int32 (matrix i j * vvector j))
  unfolding thread_function
  added_all-threads =
      added_all-rounds ◌==◌ i z.thread_count 0 (thread_function z matrix vvector)
      ∙ sum_range-ext z.thread_count 0 _ _
          (λ me p q. added-dotproduct z me (split z me matrix) vvector i row)
      ∙ sum-partials

-- In every order of the critical sections of partA.c, each row of the result ends as the sum, over
-- the columns that the threads cover, of the matrix entries times the vector entries, modulo 2^32.
pub main_result-covered :
    (z : Sizes) (rand : ℕ → ℕ) (i : ℕ) {order : List (Update ℕ)}
    → i < z.m
    → Interleaving (threads z rand) order
    → main_result order i
      ≡ int32
          (sum_range (covered z) 0 (λ j. int32 (init_matrix z rand i j * init_vvector z rand j)))
unfolding threads main_result
main_result-covered z rand i row s =
    run-Interleaving ◌==◌ i init_result (omega arith) s
    ∙ ap int32 (zero-add _ ∙ added_all-threads z (init_matrix z rand) (init_vvector z rand) i row)

pub product_small :
    (z : Sizes) (rand : ℕ → ℕ) (i j : ℕ) → init_matrix z rand i j * init_vvector z rand j ≤ 81
unfolding init_matrix init_vvector
product_small z rand i j = grind arith

-- Where the threads of partA.c cover all N columns and 81 * N < 2^31, no sum overflows: in every
-- order of the critical sections each row of the result ends as the exact matrix-vector product.
pub main_result-product :
    (z : Sizes) (rand : ℕ → ℕ) (i : ℕ) {order : List (Update ℕ)}
    → covered z ≡ z.n
    → 81 * z.n < 2 ^ 31
    → i < z.m
    → Interleaving (threads z rand) order
    → main_result order i ≡ sum_range z.n 0 (λ j. init_matrix z rand i j * init_vvector z rand j)
main_result-product z rand i whole small row s =
    main_result-covered z rand i row s
    ∙ ap int32 exact
    ∙ omega (arith, sum_range-le z.n 0 81 term (λ j. product_small z rand i j))
  where
    term : ℕ → ℕ
    term j = init_matrix z rand i j * init_vvector z rand j

    exact : sum_range (covered z) 0 (λ j. int32 (term j)) ≡ sum_range z.n 0 term
    exact =
        ap (λ c. sum_range c 0 (λ j. int32 (term j))) whole
        ∙ sum_range-ext z.n 0 _ _ (λ j p q. omega (arith, product_small z rand i j))
