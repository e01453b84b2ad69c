-- ===== src/Pipes/Ending.antt =====
-- Every step of a process of project_2/partB.c leaves less to do.
use cse4300_project.Prelude.{
  ℕ, ◌+◌, ◌<◌, ◌≡◌, arith, inl, inr, Bool-cases, length-append, Bool, true, false, [], ◌∷◌, ◌++◌,
  Option, none, some, ◌==◌, length,
}
use cse4300_project.Menu.Words.{Word, newline}
use cse4300_project.Pipes.{
  Parent, p_fork, p_close, p_write, p_wait, p_close_gp, p_read, p_exit, Child, c_unborn, c_fork,
  c_close, c_write, c_close_pc, c_read, c_wait, c_exit, Grandchild, g_unborn, g_close, g_write,
  g_close_cg, g_read, g_exit, Wires, System, state, from_parent, from_child, from_grandchild,
  is_held, fgetc, byte, line_end, file_end, blocked, Fgetc, write_to_pipe, pc_read, pc_write,
  cg_read, cg_write, gp_read, gp_write, parent_step, child_step, grandchild_step,
}
use cse4300_project.Pipes.Places.{Order, Order', only_unborn, only_unborn_g}

-- The steps that a process has before it, and the bytes that it will write.
abbrev left_p : Parent → ℕ
left_p p_fork = 6 + length from_parent + 1
left_p p_close = 5 + length from_parent + 1
left_p p_write = 4 + length from_parent + 1
left_p p_wait = 3
left_p p_close_gp = 2
left_p p_read = 1
left_p p_exit = 0

abbrev left_c : Child → ℕ
left_c c_unborn = 6 + length from_child + 1
left_c c_fork = 6 + length from_child + 1
left_c c_close = 5 + length from_child + 1
left_c c_write = 4 + length from_child + 1
left_c c_close_pc = 3
left_c c_read = 2
left_c c_wait = 1
left_c c_exit = 0

abbrev left_g : Grandchild → ℕ
left_g g_unborn = 4 + length from_grandchild + 1
left_g g_close = 4 + length from_grandchild + 1
left_g g_write = 3 + length from_grandchild + 1
left_g g_close_cg = 2
left_g g_read = 1
left_g g_exit = 0

abbrev pub measure : Parent → Child → Grandchild → Wires → ℕ
measure p c g w = left_p p + left_c c + left_g g + (length w.pc + length w.cg + length w.gp)

abbrev pub Below : ℕ → Option System → Type 0
Below n none = Unit
Below n (some (state p c g w)) = measure p c g w < n

-- A message that is written is as long as it was counted.
written :
    (message buffer : Word)
    → length (write_to_pipe message buffer) ≡ length buffer + length message + 1
written message buffer =
    omega (arith, length-append (buffer ++ message) (newline ∷ []), length-append buffer message)

-- A read takes a byte, or it is the last.
fgetc_lem :
    (P : Fgetc → Type 0) (o : Bool) (bs : Word)
    → ((b : ℕ) (cs : Word) → length cs < length bs → P (byte b cs))
    → ((cs : Word) → length cs < length bs → P (line_end cs))
    → P file_end
    → P blocked
    → P (fgetc o bs)
fgetc_lem P true [] x y z b = b
fgetc_lem P false [] x y z b = z
fgetc_lem P true (c ∷ cs) x y z b = elim (Bool-cases (c == newline)) [
  | inl e ↦ rw e (y cs (omega arith))
  | inr e ↦ rw e (x c cs (omega arith))
]
fgetc_lem P false (c ∷ cs) x y z b = elim (Bool-cases (c == newline)) [
  | inl e ↦ rw e (y cs (omega arith))
  | inr e ↦ rw e (x c cs (omega arith))
]

wait_shrinks :
    (c : Child) (g : Grandchild) (w : Wires)
    → Below (measure p_wait c g w) (parent_step true (state p_wait c g w))
unfolding parent_step
wait_shrinks c_unborn g w = tt
wait_shrinks c_fork g w = tt
wait_shrinks c_close g w = tt
wait_shrinks c_write g w = tt
wait_shrinks c_close_pc g w = tt
wait_shrinks c_read g w = tt
wait_shrinks c_wait g w = tt
wait_shrinks c_exit g w = omega arith

pub parent_shrinks :
    (p : Parent) (c : Child) (g : Grandchild) (w : Wires)
    → Order p c
    → Below (measure p c g w) (parent_step true (state p c g w))
unfolding parent_step
parent_shrinks p_fork c g w o =
    only_unborn (λ c. Below (measure p_fork c g w) (some (state p_close c_fork g w))) c o
      (omega arith)
parent_shrinks p_close c g w o = omega arith
parent_shrinks p_write c g w o = elim (Bool-cases (is_held pc_read p_write c g)) [
  | inl e ↦ rw (e, Below, parent_step) (omega (arith, written from_parent w.pc))
  | inr e ↦ rw (e, Below, parent_step) (omega arith)
]
parent_shrinks p_wait c g w o = wait_shrinks c g w
parent_shrinks p_close_gp c g w o = omega arith
parent_shrinks p_read c g w o =
    fgetc_lem
      (λ r. Below (measure p_read c g w) (elim r [
        | byte b bs ↦
            some (state p_read c g (record w { gp = bs; parent_heard = w.parent_heard ++ b ∷ [] }))
        | line_end bs ↦ some (state p_exit c g (record w { gp = bs }))
        | file_end ↦ some (state p_exit c g w)
        | blocked ↦ none
      ]))
      (is_held gp_write p_read c g) w.gp (λ b bs h. omega (arith, h)) (λ bs h. omega (arith, h))
      (omega arith) tt
parent_shrinks p_exit c g w o = tt

exit_shrinks :
    (p : Parent) (g : Grandchild) (w : Wires)
    → Below (measure p c_wait g w) (child_step true (state p c_wait g w))
unfolding child_step
exit_shrinks p g_unborn w = tt
exit_shrinks p g_close w = tt
exit_shrinks p g_write w = tt
exit_shrinks p g_close_cg w = tt
exit_shrinks p g_read w = tt
exit_shrinks p g_exit w = omega arith

pub child_shrinks :
    (p : Parent) (c : Child) (g : Grandchild) (w : Wires)
    → Order' c g
    → Below (measure p c g w) (child_step true (state p c g w))
unfolding child_step
child_shrinks p c_unborn g w o = tt
child_shrinks p c_fork g w o =
    only_unborn_g (λ g. Below (measure p c_fork g w) (some (state p c_close g_close w))) g o
      (omega arith)
child_shrinks p c_close g w o = omega arith
child_shrinks p c_write g w o = elim (Bool-cases (is_held cg_read p c_write g)) [
  | inl e ↦ rw (e, Below, child_step) (omega (arith, written from_child w.cg))
  | inr e ↦ rw (e, Below, child_step) (omega arith)
]
child_shrinks p c_close_pc g w o = omega arith
child_shrinks p c_read g w o =
    fgetc_lem
      (λ r. Below (measure p c_read g w) (elim r [
        | byte b bs ↦
            some (state p c_read g (record w { pc = bs; child_heard = w.child_heard ++ b ∷ [] }))
        | line_end bs ↦ some (state p c_wait g (record w { pc = bs }))
        | file_end ↦ some (state p c_wait g w)
        | blocked ↦ none
      ]))
      (is_held pc_write p c_read g) w.pc (λ b bs h. omega (arith, h)) (λ bs h. omega (arith, h))
      (omega arith) tt
child_shrinks p c_wait g w o = exit_shrinks p g w
child_shrinks p c_exit g w o = tt

pub grandchild_shrinks :
    (p : Parent) (c : Child) (g : Grandchild) (w : Wires)
    → Below (measure p c g w) (grandchild_step (state p c g w))
unfolding grandchild_step
grandchild_shrinks p c g_unborn w = tt
grandchild_shrinks p c g_close w = omega arith
grandchild_shrinks p c g_write w = elim (Bool-cases (is_held gp_read p c g_write)) [
  | inl e ↦ rw (e, Below, grandchild_step) (omega (arith, written from_grandchild w.gp))
  | inr e ↦ rw (e, Below, grandchild_step) (omega arith)
]
grandchild_shrinks p c g_close_cg w = omega arith
grandchild_shrinks p c g_read w =
    fgetc_lem
      (λ r. Below (measure p c g_read w) (elim r [
        | byte b bs ↦ some (
            state p c g_read
              (record w { cg = bs; grandchild_heard = w.grandchild_heard ++ b ∷ [] }))
        | line_end bs ↦ some (state p c g_exit (record w { cg = bs }))
        | file_end ↦ some (state p c g_exit w)
        | blocked ↦ none
      ]))
      (is_held cg_write p c g_read) w.cg (λ b bs h. omega (arith, h)) (λ bs h. omega (arith, h))
      (omega arith) tt
grandchild_shrinks p c g_exit w = tt
