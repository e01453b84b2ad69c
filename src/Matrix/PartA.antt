-- ===== src/Matrix/PartA.antt =====
-- project_3/partA.c: an M by N matrix times a vector. Thread `me` owns the columns
-- `me * chunk .. (me + 1) * chunk - 1`, with `chunk = N / THREAD_COUNT`.
pub mod Product
use cse4300_project.Prelude.{ℕ, zero, suc, ◌+◌, ◌*◌, ◌/◌, ◌%◌, ◌<◌, ◌≡◌, Bool, List, [], ◌∷◌, ◌==◌}
use cse4300_project.Kernel.{int32}
use cse4300_project.Matrix.Schedule.{Update, rounds, run}

-- The #define lines.
pub record Sizes : Type 0 where
  pub m : ℕ
  pub n : ℕ
  pub thread_count : ℕ

abbrev pub part_a_sizes : Sizes
part_a_sizes = record { m = 4; n = 4; thread_count = 2 }

-- gen_rand on what rand() returned
unfoldable pub gen_rand : ℕ → ℕ
gen_rand r = r % 10

-- N / THREAD_COUNT
abbrev pub chunk : Sizes → ℕ
chunk z = z.n / z.thread_count

-- The updates of matvec_DOTPRODUCT: `result[i] += matrix[i][j] * vvector[j + thread_id * chunk]`.
unfoldable pub matvec_dotproduct : Sizes → ℕ → (ℕ → ℕ → ℕ) → (ℕ → ℕ) → List (Update ℕ)
matvec_dotproduct z thread_id matrix vvector = rounds z.m 0 λ i.
    rounds (chunk z) 0
      λ j. record { at = i; value = int32 (matrix i j * vvector (j + thread_id * chunk z)) } ∷ []

-- matvec_SAXPY: the loops exchanged.
unfoldable pub matvec_saxpy : Sizes → ℕ → (ℕ → ℕ → ℕ) → (ℕ → ℕ) → List (Update ℕ)
matvec_saxpy z thread_id matrix vvector = rounds (chunk z) 0 λ j.
    rounds z.m 0
      λ i. record { at = i; value = int32 (matrix i j * vvector (j + thread_id * chunk z)) } ∷ []

-- The sub-matrix that thread `me` copies.
abbrev pub split : Sizes → ℕ → (ℕ → ℕ → ℕ) → ℕ → ℕ → ℕ
split z me matrix i j = matrix i (j + me * chunk z)

-- Function, the start routine of thread `me`
unfoldable pub thread_function : Sizes → (ℕ → ℕ → ℕ) → (ℕ → ℕ) → ℕ → List (Update ℕ)
unfolding matvec_dotproduct
thread_function z matrix vvector me = matvec_dotproduct z me (split z me matrix) vvector

-- The globals as `main` fills them from the numbers that rand() returns, in order.
unfoldable pub init_matrix : Sizes → (ℕ → ℕ) → ℕ → ℕ → ℕ
unfolding gen_rand
init_matrix z rand i j = gen_rand (rand (i * z.n + j))

unfoldable pub init_vvector : Sizes → (ℕ → ℕ) → ℕ → ℕ
unfolding gen_rand
init_vvector z rand i = gen_rand (rand (z.m * z.n + i))

abbrev pub init_result : ℕ → ℕ
init_result i = 0

-- The threads that `main` creates, and the result after it has joined them, where `order` is the
-- order in which their critical sections came.
unfoldable pub threads : Sizes → (ℕ → ℕ) → List (List (Update ℕ))
unfolding thread_function init_matrix init_vvector
threads z rand =
    rounds z.thread_count 0 λ i. thread_function z (init_matrix z rand) (init_vvector z rand) i ∷ []

unfoldable pub main_result : List (Update ℕ) → ℕ → ℕ
main_result order = run ◌==◌ order init_result
