-- ===== src/Matrix/PartC.antt =====
-- project_3/partC.c: the two products of partA.c and partB_take2.c in one program. Its four product
-- routines have the text of theirs; each thread first adds to the vector, then to the matrix.
pub mod Product
pub mod Saxpy
use cse4300_project.Prelude.{ℕ, ◌+◌, ◌*◌, Bool, false, ◌&&◌, List, [], ◌∷◌, ◌++◌, map, ◌==◌}
use cse4300_project.Matrix.Schedule.{Update, rounds, run}
use cse4300_project.Matrix.PartA
use cse4300_project.Matrix.PartA.{gen_rand}
use cse4300_project.Matrix.PartB
use cse4300_project.Matrix.PartB.{Sizes}

-- A place that the threads add to: result_vector[i] or result_matrix[i][k].
pub data Slot : Type 0 where
  vector : ℕ → Slot
  entry : ℕ → ℕ → Slot

abbrev pub same_slot : Slot → Slot → Bool
same_slot (vector i) (vector j) = i == j
same_slot (entry i k) (entry i' k') = i == i' && k == k'
same_slot _ _ = false

abbrev pub vector_sizes : Sizes → PartA.Sizes
vector_sizes z = record { m = z.m; n = z.n; thread_count = z.thread_count }

abbrev pub on_vector : Update ℕ → Update Slot
on_vector u = record { at = vector u.at; value = u.value }

abbrev pub on_matrix : Update PartB.Entry → Update Slot
on_matrix u = record { at = entry u.at.0 u.at.1; value = u.value }

-- matvec_DOTPRODUCT and matvec_matrix_DOTPRODUCT
unfoldable pub vector_dotproduct : Sizes → ℕ → (ℕ → ℕ → ℕ) → (ℕ → ℕ) → List (Update Slot)
vector_dotproduct z thread_id matrix vvector =
    map on_vector (PartA.matvec_dotproduct (vector_sizes z) thread_id matrix vvector)

unfoldable pub matrix_dotproduct : Sizes → ℕ → (ℕ → ℕ → ℕ) → (ℕ → ℕ → ℕ) → List (Update Slot)
matrix_dotproduct z thread_id split_a split_b =
    map on_matrix (PartB.matvec_dotproduct z thread_id split_a split_b)

-- matvec_SAXPY and matvec_matrix_SAXPY, which nothing calls
unfoldable pub vector_saxpy : Sizes → ℕ → (ℕ → ℕ → ℕ) → (ℕ → ℕ) → List (Update Slot)
vector_saxpy z thread_id matrix vvector =
    map on_vector (PartA.matvec_saxpy (vector_sizes z) thread_id matrix vvector)

unfoldable pub matrix_saxpy : Sizes → ℕ → (ℕ → ℕ → ℕ) → (ℕ → ℕ → ℕ) → List (Update Slot)
matrix_saxpy z thread_id split_a split_b =
    map on_matrix (PartB.matvec_saxpy z thread_id split_a split_b)

-- Function, the start routine of thread `me`
unfoldable pub thread_function :
    Sizes → (ℕ → ℕ → ℕ) → (ℕ → ℕ → ℕ) → (ℕ → ℕ) → ℕ → List (Update Slot)
unfolding vector_dotproduct matrix_dotproduct
thread_function z matrix_a matrix_b vvector me =
    vector_dotproduct z me (PartA.split (vector_sizes z) me matrix_a) vvector
    ++ matrix_dotproduct z me matrix_a (PartB.split_columns z me matrix_b)

-- vvector is filled after the two matrices, which are those of partB_take2.c.
unfoldable pub init_vvector : Sizes → (ℕ → ℕ) → ℕ → ℕ
unfolding gen_rand
init_vvector z rand i = gen_rand (rand (z.m * z.n + z.n * z.k + i))

abbrev pub init_result : Slot → ℕ
init_result s = 0

unfoldable pub threads : Sizes → (ℕ → ℕ) → List (List (Update Slot))
unfolding thread_function init_vvector
threads z rand = rounds z.thread_count 0 λ i.
    thread_function z (PartB.init_matrix_a z rand) (PartB.init_matrix_b z rand)
      (init_vvector z rand) i
    ∷ []

-- The results after `main` has joined the threads.
unfoldable pub main_result : List (Update Slot) → Slot → ℕ
main_result order = run same_slot order init_result
