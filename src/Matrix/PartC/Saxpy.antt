-- ===== src/Matrix/PartC/Saxpy.antt =====
-- The SAXPY routines of partC.c, which take the place of the DOTPRODUCT routines at will.
use cse4300_project.Prelude.{ℕ, ◌+◌, ◌^◌, ◌<◌, ◌≡◌, ap, ◌∙◌, sym, List}
use cse4300_project.Kernel.{int32}
use cse4300_project.Matrix.Schedule.{Update, run, added, run-added}
use cse4300_project.Matrix.PartA
use cse4300_project.Matrix.PartB
use cse4300_project.Matrix.PartB.{Sizes}
use cse4300_project.Matrix.PartC.{
  Slot, vector, entry, same_slot, vector_sizes, vector_dotproduct, matrix_dotproduct, vector_saxpy,
  matrix_saxpy,
}
use cse4300_project.Matrix.PartC.Product.{vector_vector, entry_matrix}

-- Two lists of additions that add the same to a place leave the same value there.
run-same :
    (s : Slot) (us ws : List (Update Slot)) (result : Slot → ℕ)
    → result s < 2 ^ 32
    → added same_slot s us ≡ added same_slot s ws
    → run same_slot us result s ≡ run same_slot ws result s
run-same s us ws result h e =
    run-added same_slot s us result h
    ∙ ap (λ t. int32 (result s + t)) e
    ∙ sym (run-added same_slot s ws result h)

module _ (z : Sizes) (me : ℕ) (a b : ℕ → ℕ → ℕ) (v : ℕ → ℕ) where
  -- The SAXPY routines of partC.c leave the same value as the DOTPRODUCT routines in every row of
  -- the vector result and every entry of the matrix result in the rows of the matrix, whatever
  -- 32-bit numbers these held before.
  pub saxpys-eq-dotproducts :
      (i k : ℕ) (result : Slot → ℕ)
      → i < z.m
      → result (vector i) < 2 ^ 32
      → result (entry i k) < 2 ^ 32
      → (run same_slot (vector_saxpy z me a v) result (vector i)
          ≡ run same_slot (vector_dotproduct z me a v) result (vector i))
        × (run same_slot (matrix_saxpy z me a b) result (entry i k)
            ≡ run same_slot (matrix_dotproduct z me a b) result (entry i k))
  unfolding vector_saxpy vector_dotproduct matrix_saxpy matrix_dotproduct
  saxpys-eq-dotproducts i k result row small small' = (
    run-same (vector i) _ _ result small (
        vector_vector i (PartA.matvec_saxpy (vector_sizes z) me a v)
        ∙ PartA.Product.added-saxpy (vector_sizes z) me a v i row
        ∙ sym (PartA.Product.added-dotproduct (vector_sizes z) me a v i row)
        ∙ sym (vector_vector i (PartA.matvec_dotproduct (vector_sizes z) me a v))),
    run-same (entry i k) _ _ result small' (
        entry_matrix i k (PartB.matvec_saxpy z me a b)
        ∙ PartB.Product.added-saxpy z me a b i k row
        ∙ sym (PartB.Product.added-dotproduct z me a b i k row)
        ∙ sym (entry_matrix i k (PartB.matvec_dotproduct z me a b))),
  )
