-- ===== src/Tests/Programs.antt =====
-- The matrix programs at small sizes, with numbers that rand() might return.
use cse4300_project.Prelude.{ℕ, ◌+◌, ◌*◌, ◌≡◌, refl, arith, List, [], ◌∷◌}
use cse4300_project.Matrix.Sum.{sum_range}
use cse4300_project.Matrix.Schedule.{Update, Interleaving, finished, retire, pick, run}
use cse4300_project.Matrix.PartA
use cse4300_project.Matrix.PartB
use cse4300_project.Matrix.PartC

abbrev rand : ℕ → ℕ
rand n = n + 3

abbrev add : ℕ → ℕ → Update ℕ
add l v = record { at = l; value = v }

abbrev a_sizes : PartA.Sizes
a_sizes = record { m = 1; n = 2; thread_count = 2 }

abbrev a_order : List (Update ℕ)
a_order = add 0 24 ∷ add 0 15 ∷ []

a_order-Interleaving : Interleaving (PartA.threads a_sizes rand) a_order
unfolding PartA.threads PartA.thread_function PartA.matvec_dotproduct PartA.init_matrix
    PartA.init_vvector PartA.gen_rand
a_order-Interleaving =
    pick ((add 0 15 ∷ []) ∷ []) [] (add 0 24) [] refl
      (pick [] ([] ∷ []) (add 0 15) [] refl (retire (retire finished)))

main_result-product_example :
    PartA.main_result a_order 0
    ≡ sum_range 2 0 (λ j. PartA.init_matrix a_sizes rand 0 j * PartA.init_vvector a_sizes rand j)
main_result-product_example =
    PartA.Product.main_result-product a_sizes rand 0 refl (omega arith) (omega arith)
      a_order-Interleaving

abbrev matrix : ℕ → ℕ → ℕ
matrix i j = i + 2 * j

abbrev b_sizes : PartB.Sizes
b_sizes = record { m = 1; n = 1; k = 2; thread_count = 2 }

abbrev add_entry : ℕ → ℕ → ℕ → Update PartB.Entry
add_entry i k v = record { at = (i, k); value = v }

abbrev b_order : List (Update PartB.Entry)
b_order = add_entry 0 1 15 ∷ add_entry 0 0 12 ∷ []

b_order-Interleaving : Interleaving (PartB.threads b_sizes rand) b_order
unfolding PartB.threads PartB.thread_function PartB.matvec_saxpy PartB.init_matrix_a
    PartB.init_matrix_b PartA.gen_rand
b_order-Interleaving =
    pick ((add_entry 0 0 12 ∷ []) ∷ []) [] (add_entry 0 1 15) [] refl
      (pick [] ([] ∷ []) (add_entry 0 0 12) [] refl (retire (retire finished)))

main_result-matrix_product_example :
    PartB.main_result b_order (0, 1)
    ≡ sum_range 1 0
        (λ j. PartB.init_matrix_a b_sizes rand 0 j * PartB.init_matrix_b b_sizes rand j 1)
main_result-matrix_product_example =
    PartB.Product.main_result-matrix_product b_sizes rand 0 1 (omega arith) (omega arith)
      (omega arith) b_order-Interleaving

abbrev c_sizes : PartB.Sizes
c_sizes = record { m = 1; n = 1; k = 1; thread_count = 1 }

abbrev c_order : List (Update PartC.Slot)
c_order =
    record { at = PartC.vector 0; value = 15 } ∷ record { at = PartC.entry 0 0; value = 12 } ∷ []

c_order-Interleaving : Interleaving (PartC.threads c_sizes rand) c_order
unfolding PartC.threads PartC.thread_function PartC.vector_dotproduct PartC.matrix_dotproduct
    PartA.matvec_dotproduct PartB.matvec_dotproduct PartB.init_matrix_a PartB.init_matrix_b
    PartC.init_vvector PartA.gen_rand
c_order-Interleaving = pick [] [] _ _ refl (pick [] [] _ _ refl (retire finished))

main_result-products_example :
    (PartC.main_result c_order (PartC.vector 0)
      ≡ sum_range 1 0
          (λ j. PartB.init_matrix_a c_sizes rand 0 j * PartC.init_vvector c_sizes rand j))
    × (PartC.main_result c_order (PartC.entry 0 0)
        ≡ sum_range 1 0
            (λ j. PartB.init_matrix_a c_sizes rand 0 j * PartB.init_matrix_b c_sizes rand j 0))
main_result-products_example =
    PartC.Product.main_result-products c_sizes rand 0 0 refl refl (omega arith) (omega arith)
      (omega arith) c_order-Interleaving

saxpys-eq-dotproducts_example :
    (run PartC.same_slot (PartC.vector_saxpy c_sizes 0 matrix rand) (λ l. 7) (PartC.vector 0)
      ≡ run PartC.same_slot
          (PartC.vector_dotproduct c_sizes 0 matrix rand)
          (λ l. 7)
          (PartC.vector 0))
    × (run PartC.same_slot (PartC.matrix_saxpy c_sizes 0 matrix matrix) (λ l. 7) (PartC.entry 0 0)
        ≡ run PartC.same_slot
            (PartC.matrix_dotproduct c_sizes 0 matrix matrix)
            (λ l. 7)
            (PartC.entry 0 0))
saxpys-eq-dotproducts_example =
    PartC.Saxpy.saxpys-eq-dotproducts c_sizes 0 matrix matrix rand 0 0 (λ l. 7) (omega arith)
      (omega arith) (omega arith)
