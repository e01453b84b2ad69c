-- ===== src/Matrix/PartB.antt =====
-- project_3/partB_take2.c: an M by N matrix times an N by K matrix. Thread `me` owns the columns
-- `me * chunk .. (me + 1) * chunk - 1` of the result, with `chunk = K / THREAD_COUNT`.
pub mod Product
use cse4300_project.Prelude.{ℕ, ◌+◌, ◌*◌, ◌/◌, Bool, ◌&&◌, List, [], ◌∷◌, ◌==◌}
use cse4300_project.Kernel.{int32}
use cse4300_project.Matrix.Schedule.{Update, rounds, run}
use cse4300_project.Matrix.PartA.{gen_rand}

-- The #define lines.
pub record Sizes : Type 0 where
  pub m : ℕ
  pub n : ℕ
  pub k : ℕ
  pub thread_count : ℕ

abbrev pub part_b_sizes : Sizes
part_b_sizes = record { m = 1000; n = 800; k = 400; thread_count = 16 }

-- An entry of result_matrix: row and column.
abbrev pub Entry : Type 0
Entry = ℕ × ℕ

abbrev pub same_entry : Entry → Entry → Bool
same_entry (i, k) (i', k') = i == i' && k == k'

-- K / THREAD_COUNT
abbrev pub chunk : Sizes → ℕ
chunk z = z.k / z.thread_count

-- `result[i][q] = result[i][q] + split_A[i][j] * split_B[j][k]`, with `q = k + thread_id * chunk`
abbrev pub entry_update : Sizes → ℕ → (ℕ → ℕ → ℕ) → (ℕ → ℕ → ℕ) → ℕ → ℕ → ℕ → Update Entry
entry_update z thread_id split_a split_b i j k = record {
  at = (i, k + thread_id * chunk z);
  value = int32 (split_a i j * split_b j k);
}

-- The updates of matvec_DOTPRODUCT.
unfoldable pub matvec_dotproduct : Sizes → ℕ → (ℕ → ℕ → ℕ) → (ℕ → ℕ → ℕ) → List (Update Entry)
matvec_dotproduct z thread_id split_a split_b = rounds z.m 0 λ i.
    rounds z.n 0 λ j. rounds (chunk z) 0 λ k. entry_update z thread_id split_a split_b i j k ∷ []

-- matvec_SAXPY: the loops in the opposite order.
unfoldable pub matvec_saxpy : Sizes → ℕ → (ℕ → ℕ → ℕ) → (ℕ → ℕ → ℕ) → List (Update Entry)
matvec_saxpy z thread_id split_a split_b =
    rounds (chunk z) 0
      λ k. rounds z.n 0 λ j. rounds z.m 0 λ i. entry_update z thread_id split_a split_b i j k ∷ []

-- The columns of B that thread `me` copies.
abbrev pub split_columns : Sizes → ℕ → (ℕ → ℕ → ℕ) → ℕ → ℕ → ℕ
split_columns z me matrix_b i j = matrix_b i (j + me * chunk z)

-- Function, the start routine of thread `me`
unfoldable pub thread_function : Sizes → (ℕ → ℕ → ℕ) → (ℕ → ℕ → ℕ) → ℕ → List (Update Entry)
unfolding matvec_saxpy
thread_function z matrix_a matrix_b me = matvec_saxpy z me matrix_a (split_columns z me matrix_b)

-- The globals as `main` fills them from the numbers that rand() returns, in order.
unfoldable pub init_matrix_a : Sizes → (ℕ → ℕ) → ℕ → ℕ → ℕ
unfolding gen_rand
init_matrix_a z rand i j = gen_rand (rand (i * z.n + j))

unfoldable pub init_matrix_b : Sizes → (ℕ → ℕ) → ℕ → ℕ → ℕ
unfolding gen_rand
init_matrix_b z rand i j = gen_rand (rand (z.m * z.n + (i * z.k + j)))

abbrev pub init_result : Entry → ℕ
init_result e = 0

unfoldable pub threads : Sizes → (ℕ → ℕ) → List (List (Update Entry))
unfolding thread_function init_matrix_a init_matrix_b
threads z rand =
    rounds z.thread_count 0
      λ i. thread_function z (init_matrix_a z rand) (init_matrix_b z rand) i ∷ []

-- The result after `main` has joined the threads.
unfoldable pub main_result : List (Update Entry) → Entry → ℕ
main_result order = run same_entry order init_result
