-- ===== src/Pipes/ChildSteps.antt =====
-- A step of the child of project_2/partB.c keeps what holds of the processes and the pipes.
use cse4300_project.Prelude.{◌≡◌, refl, arith, inl, inr, Bool, true, false, ◌||◌}
use cse4300_project.Pipes.{
  Parent, p_fork, p_close, p_write, p_wait, p_close_gp, p_read, p_exit, Child, c_unborn, c_fork,
  c_close, c_write, c_close_pc, c_read, c_wait, c_exit, Grandchild, g_unborn, g_close, g_write,
  g_close_cg, g_read, g_exit, Wires, state, from_parent, from_child, is_held, pc_write, cg_read,
  parent_holds, grandchild_holds, child_step,
}
use cse4300_project.Menu.Words.{IsLine}
use cse4300_project.Pipes.Transfer.{Wire-sent, Wire-Found}
use cse4300_project.Pipes.Places.{
  has_sent_p, has_heard_g, is_born_g, Inv, Holds, Order-step, only_unborn_g,
}

from_child-IsLine : IsLine from_child
from_child-IsLine = ground arith

pub or_true : (b : Bool) → (b || true) ≡ true
or_true true = refl
or_true false = refl

pub grandchild_reads :
    (g : Grandchild)
    → is_born_g g ≡ true
    → has_heard_g g ≡ false
    → grandchild_holds g cg_read ≡ true
grandchild_reads g_unborn b h = absurd (ground arith)
grandchild_reads g_close b h = refl
grandchild_reads g_write b h = refl
grandchild_reads g_close_cg b h = refl
grandchild_reads g_read b h = refl
grandchild_reads g_exit b h = absurd (ground arith)

-- The write end of a pipe is open until its message is sent.
pub sent_held :
    (p : Parent) (g : Grandchild) → has_sent_p p ≡ false → is_held pc_write p c_read g ≡ true
sent_held p_fork g e = refl
sent_held p_close g e = refl
sent_held p_write g e = refl
sent_held p_wait g e = absurd (ground arith)
sent_held p_close_gp g e = absurd (ground arith)
sent_held p_read g e = absurd (ground arith)
sent_held p_exit g e = absurd (ground arith)

born_keeps : (p : Parent) (g : Grandchild) (w : Wires) → Inv p c_fork g w → Inv p c_close g_close w
born_keeps p g w v =
    only_unborn_g (λ g. Inv p c_fork g w → Inv p c_close g_close w) g v.order'
      (λ u. record {
        order = Order-step p c_fork c_close refl refl refl u.order;
        order' = refl;
        pc = u.pc;
        cg = u.cg;
        gp = u.gp;
      })
      v

exit_keeps :
    (p : Parent) (g : Grandchild) (w : Wires)
    → Inv p c_wait g w
    → Holds (child_step true (state p c_wait g w))
unfolding child_step
exit_keeps p g_unborn w v = tt
exit_keeps p g_close w v = tt
exit_keeps p g_write w v = tt
exit_keeps p g_close_cg w v = tt
exit_keeps p g_read w v = tt
exit_keeps p g_exit w v = record {
  order = Order-step p c_wait c_exit refl refl refl v.order;
  order' = refl;
  pc = v.pc;
  cg = v.cg;
  gp = v.gp;
}

pub child_keeps :
    (p : Parent) (c : Child) (g : Grandchild) (w : Wires)
    → Inv p c g w
    → Holds (child_step true (state p c g w))
unfolding child_step
child_keeps p c_unborn g w v = tt
child_keeps p c_fork g w v = born_keeps p g w v
child_keeps p c_close g w v = record {
  order = Order-step p c_close c_write refl refl refl v.order;
  order' = v.order';
  pc = v.pc;
  cg = v.cg;
  gp = v.gp;
}
child_keeps p c_write g w v =
    let (silent, sent) =
      Wire-sent (has_heard_g g) from_child w.cg w.grandchild_heard from_child-IsLine v.cg in
    rw (grandchild_reads g v.order' silent, or_true (parent_holds p cg_read))
      (record {
        order = Order-step p c_write c_close_pc refl refl refl v.order;
        order' = v.order';
        pc = v.pc;
        cg = sent;
        gp = v.gp;
      })
child_keeps p c_close_pc g w v = record {
  order = Order-step p c_close_pc c_read refl refl refl v.order;
  order' = v.order';
  pc = v.pc;
  cg = v.cg;
  gp = v.gp;
}
child_keeps p c_read g w v =
    elim (Wire-Found (is_held pc_write p c_read g) (has_sent_p p) from_parent w.pc w.child_heard
      (sent_held p g) v.pc) [
        | inl (b, bs, e, wire) ↦
            rw (e, Holds, child_step)
              (record { order = v.order; order' = v.order'; pc = wire; cg = v.cg; gp = v.gp })
        | inr (inl (bs, e, wire)) ↦
            rw (e, Holds, child_step)
              (record {
                order = Order-step p c_read c_wait refl refl refl v.order;
                order' = v.order';
                pc = wire;
                cg = v.cg;
                gp = v.gp;
              })
        | inr (inr (e, silent)) ↦ rw (e, Holds, child_step) tt
      ]
child_keeps p c_wait g w v = exit_keeps p g w v
child_keeps p c_exit g w v = tt
