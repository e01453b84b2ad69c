-- ===== src/Pipes/ParentSteps.antt =====
-- A step of the parent of project_2/partB.c keeps what holds of the processes and the pipes.
use cse4300_project.Prelude.{refl, arith, inl, inr, true}
use cse4300_project.Pipes.{
  Parent, p_fork, p_close, p_write, p_wait, p_close_gp, p_read, p_exit, Child, c_unborn, c_fork,
  c_close, c_write, c_close_pc, c_read, c_wait, c_exit, Grandchild, Wires, state, from_parent,
  from_grandchild, is_held, gp_write, parent_step,
}
use cse4300_project.Menu.Words.{IsLine}
use cse4300_project.Pipes.Transfer.{Wire-sent, Wire-Found}
use cse4300_project.Pipes.Places.{
  has_heard_c, has_sent_g, Inv, Holds, only_unborn, child_reads, gone_sent,
}

fork_keeps : (c : Child) (g : Grandchild) (w : Wires) → Inv p_fork c g w → Inv p_close c_fork g w
fork_keeps c g w v =
    only_unborn (λ c. Inv p_fork c g w → Inv p_close c_fork g w) c v.order
      (λ u. record { order = refl; order' = u.order'; pc = u.pc; cg = u.cg; gp = u.gp }) v

wait_keeps :
    (c : Child) (g : Grandchild) (w : Wires)
    → Inv p_wait c g w
    → Holds (parent_step true (state p_wait c g w))
unfolding parent_step
wait_keeps c_unborn g w v = tt
wait_keeps c_fork g w v = tt
wait_keeps c_close g w v = tt
wait_keeps c_write g w v = tt
wait_keeps c_close_pc g w v = tt
wait_keeps c_read g w v = tt
wait_keeps c_wait g w v = tt
wait_keeps c_exit g w v = record {
  order = refl;
  order' = v.order';
  pc = v.pc;
  cg = v.cg;
  gp = v.gp;
}

from_parent-IsLine : IsLine from_parent
from_parent-IsLine = ground arith

pub parent_keeps :
    (p : Parent) (c : Child) (g : Grandchild) (w : Wires)
    → Inv p c g w
    → Holds (parent_step true (state p c g w))
unfolding parent_step
parent_keeps p_fork c g w v = fork_keeps c g w v
parent_keeps p_close c g w v = record {
  order = v.order;
  order' = v.order';
  pc = v.pc;
  cg = v.cg;
  gp = v.gp;
}
parent_keeps p_write c g w v =
    let (silent, sent) =
      Wire-sent (has_heard_c c) from_parent w.pc w.child_heard from_parent-IsLine v.pc in
    rw (child_reads c v.order silent)
      (record { order = v.order; order' = v.order'; pc = sent; cg = v.cg; gp = v.gp })
parent_keeps p_wait c g w v = wait_keeps c g w v
parent_keeps p_close_gp c g w v = record {
  order = v.order;
  order' = v.order';
  pc = v.pc;
  cg = v.cg;
  gp = v.gp;
}
parent_keeps p_read c g w v =
    elim (Wire-Found (is_held gp_write p_read c g) (has_sent_g g) from_grandchild w.gp
      w.parent_heard (λ silent. absurd (ground (arith, silent, gone_sent c g v.order v.order')))
      v.gp) [
        | inl (b, bs, e, wire) ↦
            rw (e, Holds, parent_step)
              (record { order = v.order; order' = v.order'; pc = v.pc; cg = v.cg; gp = wire })
        | inr (inl (bs, e, wire)) ↦
            rw (e, Holds, parent_step)
              (record { order = v.order; order' = v.order'; pc = v.pc; cg = v.cg; gp = wire })
        | inr (inr (e, silent)) ↦ rw (e, Holds, parent_step) tt
      ]
parent_keeps p_exit c g w v = tt
