-- ===== src/Pipes/GrandchildSteps.antt =====
-- A step of the grandchild of project_2/partB.c keeps what holds of the processes and the pipes.
use cse4300_project.Prelude.{◌≡◌, refl, arith, inl, inr, true, false}
use cse4300_project.Pipes.{
  Parent, p_fork, p_close, p_write, p_wait, p_close_gp, p_read, p_exit, Child, c_unborn, c_fork,
  c_close, c_write, c_close_pc, c_read, c_wait, c_exit, Grandchild, g_unborn, g_close, g_write,
  g_close_cg, g_read, g_exit, Wires, state, from_child, from_grandchild, is_held, cg_write, gp_read,
  parent_holds, grandchild_step,
}
use cse4300_project.Menu.Words.{IsLine}
use cse4300_project.Pipes.Transfer.{Wire-sent, Wire-Found}
use cse4300_project.Pipes.Places.{has_heard_p, has_sent_c, is_born_g, is_gone_g, Order', Inv, Holds}
use cse4300_project.Pipes.ChildSteps.{or_true}

from_grandchild-IsLine : IsLine from_grandchild
from_grandchild-IsLine = ground arith

Order'-step :
    (c : Child) (g g' : Grandchild)
    → is_born_g g ≡ true
    → is_gone_g g ≡ false
    → is_born_g g' ≡ true
    → Order' c g
    → Order' c g'
Order'-step c_unborn g g' born here born' o = ground arith
Order'-step c_fork g g' born here born' o = ground arith
Order'-step c_close g g' born here born' o = born'
Order'-step c_write g g' born here born' o = born'
Order'-step c_close_pc g g' born here born' o = born'
Order'-step c_read g g' born here born' o = born'
Order'-step c_wait g g' born here born' o = born'
Order'-step c_exit g g' born here born' o = ground arith

pub parent_reads : (p : Parent) → has_heard_p p ≡ false → parent_holds p gp_read ≡ true
parent_reads p_fork e = refl
parent_reads p_close e = refl
parent_reads p_write e = refl
parent_reads p_wait e = refl
parent_reads p_close_gp e = refl
parent_reads p_read e = refl
parent_reads p_exit e = absurd (ground arith)

pub child_held :
    (p : Parent) (c : Child)
    → Order' c g_read
    → has_sent_c c ≡ false
    → is_held cg_write p c g_read ≡ true
child_held p c_unborn o e = absurd (ground arith)
child_held p c_fork o e = or_true (parent_holds p cg_write)
child_held p c_close o e = or_true (parent_holds p cg_write)
child_held p c_write o e = or_true (parent_holds p cg_write)
child_held p c_close_pc o e = absurd (ground arith)
child_held p c_read o e = absurd (ground arith)
child_held p c_wait o e = absurd (ground arith)
child_held p c_exit o e = absurd (ground arith)

pub grandchild_keeps :
    (p : Parent) (c : Child) (g : Grandchild) (w : Wires)
    → Inv p c g w
    → Holds (grandchild_step (state p c g w))
unfolding grandchild_step
grandchild_keeps p c g_unborn w v = tt
grandchild_keeps p c g_close w v = record {
  order = v.order;
  order' = Order'-step c g_close g_write refl refl refl v.order';
  pc = v.pc;
  cg = v.cg;
  gp = v.gp;
}
grandchild_keeps p c g_write w v =
    let (silent, sent) =
      Wire-sent (has_heard_p p) from_grandchild w.gp w.parent_heard from_grandchild-IsLine v.gp in
    rw (parent_reads p silent) (record {
      order = v.order;
      order' = Order'-step c g_write g_close_cg refl refl refl v.order';
      pc = v.pc;
      cg = v.cg;
      gp = sent;
    })
grandchild_keeps p c g_close_cg w v = record {
  order = v.order;
  order' = Order'-step c g_close_cg g_read refl refl refl v.order';
  pc = v.pc;
  cg = v.cg;
  gp = v.gp;
}
grandchild_keeps p c g_read w v =
    elim (Wire-Found (is_held cg_write p c g_read) (has_sent_c c) from_child w.cg w.grandchild_heard
      (child_held p c v.order') v.cg) [
        | inl (b, bs, e, wire) ↦
            rw (e, Holds, grandchild_step)
              (record { order = v.order; order' = v.order'; pc = v.pc; cg = wire; gp = v.gp })
        | inr (inl (bs, e, wire)) ↦
            rw (e, Holds, grandchild_step)
              (record {
                order = v.order;
                order' = Order'-step c g_read g_exit refl refl refl v.order';
                pc = v.pc;
                cg = wire;
                gp = v.gp;
              })
        | inr (inr (e, silent)) ↦ rw (e, Holds, grandchild_step) tt
      ]
grandchild_keeps p c g_exit w v = tt
