-- ===== src/Matrix/PartC/Product.antt =====
-- Whatever the scheduler does, partC.c computes both products.
use cse4300_project.Prelude.{
  ℕ, ◌*◌, ◌^◌, ◌≤◌, ◌<◌, ◌≡◌, refl, ap, ◌∙◌, arith, List, [], ◌∷◌, ◌==◌, map,
}
use native.Mathlib.Nat.{zero-add}
use cse4300_project.Kernel.{int32}
use cse4300_project.Matrix.Sum.{sum_range, sum_range-ext, sum_range-le}
use cse4300_project.Matrix.Schedule.{
  Update, rounds, Interleaving, added, added_all, added-append, run-Interleaving, added_all-rounds,
}
use cse4300_project.Matrix.PartA
use cse4300_project.Matrix.PartA.{gen_rand}
use cse4300_project.Matrix.PartB
use cse4300_project.Matrix.PartB.{Sizes, Entry, same_entry}
use cse4300_project.Matrix.PartC.{
  Slot, vector, entry, same_slot, vector_sizes, on_vector, on_matrix, vector_dotproduct,
  matrix_dotproduct, thread_function, init_vvector, init_result, threads, main_result,
}

-- The two parts of a thread do not touch each other's places.
pub vector_vector :
    (i : ℕ) (us : List (Update ℕ)) → added same_slot (vector i) (map on_vector us) ≡ added ◌==◌ i us
vector_vector i [] = refl
vector_vector i (u ∷ us) = omega (arith, vector_vector i us)

vector_matrix :
    (i : ℕ) (us : List (Update Entry)) → added same_slot (vector i) (map on_matrix us) ≡ 0
vector_matrix i [] = refl
vector_matrix i (u ∷ us) = omega (arith, vector_matrix i us)

entry_vector : (i k : ℕ) (us : List (Update ℕ)) → added same_slot (entry i k) (map on_vector us) ≡ 0
entry_vector i k [] = refl
entry_vector i k (u ∷ us) = omega (arith, entry_vector i k us)

pub entry_matrix :
    (i k : ℕ) (us : List (Update Entry))
    → added same_slot (entry i k) (map on_matrix us) ≡ added same_entry (i, k) us
entry_matrix i k [] = refl
entry_matrix i k (u ∷ us) = omega (arith, entry_matrix i k us)

module _ (z : Sizes) (a b : ℕ → ℕ → ℕ) (v : ℕ → ℕ) where
  vector_total :
      (i : ℕ)
      → i < z.m
      → added_all same_slot
          (vector i)
          (rounds z.thread_count 0 λ me. thread_function z a b v me ∷ [])
        ≡ sum_range (PartA.Product.covered (vector_sizes z)) 0 (λ j. int32 (a i j * v j))
  unfolding thread_function
  vector_total i row =
      added_all-rounds same_slot (vector i) z.thread_count 0 (thread_function z a b v)
      ∙ sum_range-ext z.thread_count 0 _ _ (λ me p q. omega (
        arith,
        added-append same_slot (vector i)
            (vector_dotproduct z me (PartA.split (vector_sizes z) me a) v)
            (matrix_dotproduct z me a (PartB.split_columns z me b)),
        vector_vector i
            (PartA.matvec_dotproduct (vector_sizes z) me (PartA.split (vector_sizes z) me a) v),
        vector_matrix i (PartB.matvec_dotproduct z me a (PartB.split_columns z me b)),
        PartA.Product.added-dotproduct (vector_sizes z) me (PartA.split (vector_sizes z) me a) v i
            row,
      ))
      ∙ PartA.Product.sum-partials (vector_sizes z) a v i row

  entry_total :
      (i k : ℕ)
      → i < z.m
      → k < PartB.Product.covered z
      → added_all same_slot
          (entry i k)
          (rounds z.thread_count 0 λ me. thread_function z a b v me ∷ [])
        ≡ sum_range z.n 0 (λ j. int32 (a i j * b j k))
  unfolding thread_function
  entry_total i k row column =
      added_all-rounds same_slot (entry i k) z.thread_count 0 (thread_function z a b v)
      ∙ sum_range-ext z.thread_count 0 _ _ (λ me p q. omega (
        arith,
        added-append same_slot (entry i k)
            (vector_dotproduct z me (PartA.split (vector_sizes z) me a) v)
            (matrix_dotproduct z me a (PartB.split_columns z me b)),
        entry_vector i k
            (PartA.matvec_dotproduct (vector_sizes z) me (PartA.split (vector_sizes z) me a) v),
        entry_matrix i k (PartB.matvec_dotproduct z me a (PartB.split_columns z me b)),
        PartB.Product.added-dotproduct z me a (PartB.split_columns z me b) i k row,
      ))
      ∙ PartB.Product.sum-partials z a b i k row column

vector_product_small :
    (z : Sizes) (rand : ℕ → ℕ) (i j : ℕ)
    → PartB.init_matrix_a z rand i j * init_vvector z rand j ≤ 81
unfolding init_vvector PartB.init_matrix_a
vector_product_small z rand i j = grind arith

-- A sum of small terms does not wrap.
sum_exact :
    (n : ℕ) (term : ℕ → ℕ)
    → ((j : ℕ) → term j ≤ 81)
    → 81 * n < 2 ^ 31
    → int32 (sum_range n 0 (λ j. int32 (term j))) ≡ sum_range n 0 term
sum_exact n term small fits =
    ap int32 (sum_range-ext n 0 (λ j. int32 (term j)) term (λ j p q. omega (arith, small j)))
    ∙ omega (arith, sum_range-le n 0 81 term small)

-- In every order of the critical sections of partC.c, where THREAD_COUNT divides N and K and 81 *
-- N < 2^31, every row of the vector result ends as the matrix-vector product and every entry of
-- the matrix result as the matrix product.
pub main_result-products :
    (z : Sizes) (rand : ℕ → ℕ) (i k : ℕ) {order : List (Update Slot)}
    → PartA.Product.covered (vector_sizes z) ≡ z.n
    → PartB.Product.covered z ≡ z.k
    → 81 * z.n < 2 ^ 31
    → i < z.m
    → k < z.k
    → Interleaving (threads z rand) order
    → (main_result order (vector i)
        ≡ sum_range z.n 0 (λ j. PartB.init_matrix_a z rand i j * init_vvector z rand j))
      × (main_result order (entry i k)
          ≡ sum_range z.n 0 (λ j. PartB.init_matrix_a z rand i j * PartB.init_matrix_b z rand j k))
unfolding threads main_result
main_result-products z rand i k whole whole_columns small row column s = (
  run-Interleaving same_slot (vector i) init_result (omega arith) s
      ∙ ap int32 (
          zero-add _
          ∙ vector_total z a b v i row
          ∙ ap (λ c. sum_range c 0 (λ j. int32 (a i j * v j))) whole)
      ∙ sum_exact z.n (λ j. a i j * v j) (vector_product_small z rand i) small,
  run-Interleaving same_slot (entry i k) init_result (omega arith) s
      ∙ ap int32 (zero-add _ ∙ entry_total z a b v i k row (omega arith))
      ∙ sum_exact z.n (λ j. a i j * b j k) (λ j. PartB.Product.product_small z rand i j k) small,
)
  where
    a : ℕ → ℕ → ℕ
    a = PartB.init_matrix_a z rand

    b : ℕ → ℕ → ℕ
    b = PartB.init_matrix_b z rand

    v : ℕ → ℕ
    v = init_vvector z rand
