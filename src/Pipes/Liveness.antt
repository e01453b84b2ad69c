-- ===== src/Pipes/Liveness.antt =====
-- Every run of project_2/partB.c ends, with all three messages heard.
use cse4300_project.Prelude.{
  ℕ, ◌≡◌, refl, sym, ◌∙◌, arith, ◌⊎◌, inl, inr, Bool, true, false, Option, none, some,
  if◌then◌else◌,
}
use cse4300_project.Menu.Words.{Word}
use cse4300_project.Pipes.{
  Parent, p_fork, p_close, p_write, p_wait, p_close_gp, p_read, p_exit, Child, c_unborn, c_fork,
  c_close, c_write, c_close_pc, c_read, c_wait, c_exit, Grandchild, g_unborn, g_close, g_write,
  g_close_cg, g_read, g_exit, Wires, System, state, from_parent, from_child, from_grandchild,
  is_held, fgetc, byte, line_end, file_end, blocked, Fgetc, pc_read, pc_write, cg_read, cg_write,
  gp_read, gp_write, parent_step, child_step, grandchild_step,
}
use cse4300_project.Pipes.Transfer.{Wire, Wire-Found}
use cse4300_project.Pipes.Places.{
  has_sent_p, has_sent_c, has_sent_g, is_born_c, is_gone_c, is_born_g, is_gone_g, Order', Inv,
  only_gone, only_gone_g, gone_sent,
}
use cse4300_project.Pipes.ChildSteps.{sent_held}
use cse4300_project.Pipes.GrandchildSteps.{child_held}

abbrev pub is_stuck : Option System → Bool
is_stuck none = true
is_stuck (some s) = false

-- A write ends or kills the process, but never waits.
stuck_write : (b : Bool) (s s' : System) → is_stuck (if b then some s else some s') ≡ true → ⊥
stuck_write true s s' e = ground arith
stuck_write false s s' e = ground arith

-- A read that waits has found nothing.
stuck_read :
    (r : Fgetc) (f : ℕ → Word → System) (h : Word → System) (s : System)
    → is_stuck (elim r [
      | byte b bs ↦ some (f b bs)
      | line_end bs ↦ some (h bs)
      | file_end ↦ some s
      | blocked ↦ none
    ])
      ≡ true
    → r ≡ blocked
stuck_read (byte b bs) f h s e = absurd (ground arith)
stuck_read (line_end bs) f h s e = absurd (ground arith)
stuck_read file_end f h s e = absurd (ground arith)
stuck_read blocked f h s e = refl

-- Then the message has not been sent.
Found-blocked :
    (o sent : Bool) (message buffer text : Word)
    → (sent ≡ false → o ≡ true)
    → Wire sent false message buffer text
    → fgetc o buffer ≡ blocked
    → sent ≡ false
Found-blocked o sent message buffer text held v e =
    elim (Wire-Found o sent message buffer text held v) [
      | inl (b, bs, e', _) ↦ absurd (not_byte b bs (sym e' ∙ e))
      | inr (inl (bs, e', _)) ↦ absurd (not_line_end bs (sym e' ∙ e))
      | inr (inr (_, silent)) ↦ silent
    ]
  where
    not_byte : (b : ℕ) (bs : Word) → byte b bs ≡ blocked → ⊥
    not_byte b bs x = cc

    not_line_end : (bs : Word) → line_end bs ≡ blocked → ⊥
    not_line_end bs x = cc

stuck_grandchild :
    (p : Parent) (c : Child) (g : Grandchild) (w : Wires)
    → Inv p c g w
    → is_stuck (grandchild_step (state p c g w)) ≡ true
    → (is_born_g g ≡ false) ⊎ ((has_sent_c c ≡ false) ⊎ (is_gone_g g ≡ true))
unfolding grandchild_step
stuck_grandchild p c g_unborn w v e = inl refl
stuck_grandchild p c g_close w v e = absurd (ground arith)
stuck_grandchild p c g_write w v e = absurd (stuck_write (is_held gp_read p c g_write) _ _ e)
stuck_grandchild p c g_close_cg w v e = absurd (ground arith)
stuck_grandchild p c g_read w v e = inr (
    inl (
      Found-blocked (is_held cg_write p c g_read) (has_sent_c c) from_child w.cg w.grandchild_heard
        (child_held p c v.order') v.cg
        (stuck_read (fgetc (is_held cg_write p c g_read) w.cg) _ _ _ e)))
stuck_grandchild p c g_exit w v e = inr (inr refl)

wait_stuck :
    (p : Parent) (g : Grandchild) (w : Wires)
    → is_stuck (child_step true (state p c_wait g w)) ≡ true
    → is_gone_g g ≡ false
unfolding child_step
wait_stuck p g_unborn w e = refl
wait_stuck p g_close w e = refl
wait_stuck p g_write w e = refl
wait_stuck p g_close_cg w e = refl
wait_stuck p g_read w e = refl
wait_stuck p g_exit w e = absurd (ground arith)

stuck_child :
    (p : Parent) (c : Child) (g : Grandchild) (w : Wires)
    → Inv p c g w
    → is_stuck (child_step true (state p c g w)) ≡ true
    → (is_born_c c ≡ false)
      ⊎ (((has_sent_c c ≡ true) × (is_gone_g g ≡ false))
          ⊎ ((has_sent_p p ≡ false) ⊎ (is_gone_c c ≡ true)))
unfolding child_step
stuck_child p c_unborn g w v e = inl refl
stuck_child p c_fork g w v e = absurd (ground arith)
stuck_child p c_close g w v e = absurd (ground arith)
stuck_child p c_write g w v e = absurd (stuck_write (is_held cg_read p c_write g) _ _ e)
stuck_child p c_close_pc g w v e = absurd (ground arith)
stuck_child p c_read g w v e = inr (
    inr (
      inl (
        Found-blocked (is_held pc_write p c_read g) (has_sent_p p) from_parent w.pc w.child_heard
          (sent_held p g) v.pc (stuck_read (fgetc (is_held pc_write p c_read g) w.pc) _ _ _ e))))
stuck_child p c_wait g w v e = inr (inl (refl, wait_stuck p g w e))
stuck_child p c_exit g w v e = inr (inr (inr refl))

wait_stuck_p :
    (c : Child) (g : Grandchild) (w : Wires)
    → is_stuck (parent_step true (state p_wait c g w)) ≡ true
    → is_gone_c c ≡ false
unfolding parent_step
wait_stuck_p c_unborn g w e = refl
wait_stuck_p c_fork g w e = refl
wait_stuck_p c_close g w e = refl
wait_stuck_p c_write g w e = refl
wait_stuck_p c_close_pc g w e = refl
wait_stuck_p c_read g w e = refl
wait_stuck_p c_wait g w e = refl
wait_stuck_p c_exit g w e = absurd (ground arith)

sent_born :
    (c : Child) (g : Grandchild)
    → has_sent_c c ≡ true
    → is_gone_c c ≡ false
    → Order' c g
    → is_born_g g ≡ true
sent_born c_unborn g sent here o = absurd (ground arith)
sent_born c_fork g sent here o = absurd (ground arith)
sent_born c_close g sent here o = absurd (ground arith)
sent_born c_write g sent here o = absurd (ground arith)
sent_born c_close_pc g sent here o = o
sent_born c_read g sent here o = o
sent_born c_wait g sent here o = o
sent_born c_exit g sent here o = absurd (ground arith)

-- All three have exited, and each has printed the message for it.
abbrev pub Finished : System → Type 0
Finished (state p c g w) =
    (p ≡ p_exit)
    × (c ≡ c_exit)
    × (g ≡ g_exit)
    × (w.child_heard ≡ from_parent)
    × (w.grandchild_heard ≡ from_child)
    × (w.parent_heard ≡ from_grandchild)

exit_Finished :
    (c : Child) (g : Grandchild) (w : Wires) → Inv p_exit c g w → Finished (state p_exit c g w)
exit_Finished c g w v =
    only_gone (λ c. Inv p_exit c g w → Finished (state p_exit c g w)) c v.order
      (λ u.
        only_gone_g (λ g. Inv p_exit c_exit g w → Finished (state p_exit c_exit g w)) g u.order'
          (λ x. (refl, refl, refl, x.pc, x.cg, x.gp)) u)
      v

-- Where the parent waits, the child or the grandchild can go on.
wait_absurd :
    (c : Child) (g : Grandchild) (w : Wires)
    → Inv p_wait c g w
    → is_gone_c c ≡ false
    → is_stuck (child_step true (state p_wait c g w)) ≡ true
    → is_stuck (grandchild_step (state p_wait c g w)) ≡ true
    → ⊥
wait_absurd c g w v here ec eg = elim (stuck_child p_wait c g w v ec) [
  | inl unborn ↦ ground (arith, unborn, v.order)
  | inr (inl (sent, alive)) ↦ elim (stuck_grandchild p_wait c g w v eg) [
    | inl unborn ↦ ground (arith, unborn, sent_born c g sent here v.order')
    | inr (inl silent) ↦ ground (arith, silent, sent)
    | inr (inr gone) ↦ ground (arith, gone, alive)
  ]
  | inr (inr (inl silent)) ↦ ground (arith, silent)
  | inr (inr (inr gone)) ↦ ground (arith, gone, here)
]

pub stuck-Finished :
    (p : Parent) (c : Child) (g : Grandchild) (w : Wires)
    → Inv p c g w
    → is_stuck (parent_step true (state p c g w)) ≡ true
    → is_stuck (child_step true (state p c g w)) ≡ true
    → is_stuck (grandchild_step (state p c g w)) ≡ true
    → Finished (state p c g w)
unfolding parent_step
stuck-Finished p_fork c g w v e ec eg = absurd (ground arith)
stuck-Finished p_close c g w v e ec eg = absurd (ground arith)
stuck-Finished p_write c g w v e ec eg = absurd (stuck_write (is_held pc_read p_write c g) _ _ e)
stuck-Finished p_wait c g w v e ec eg = absurd (wait_absurd c g w v (wait_stuck_p c g w e) ec eg)
stuck-Finished p_close_gp c g w v e ec eg = absurd (ground arith)
stuck-Finished p_read c g w v e ec eg =
    let silent =
      Found-blocked (is_held gp_write p_read c g) (has_sent_g g) from_grandchild w.gp w.parent_heard
        (λ x. absurd (ground (arith, x, gone_sent c g v.order v.order'))) v.gp
        (stuck_read (fgetc (is_held gp_write p_read c g) w.gp) _ _ _ e) in
    absurd (ground (arith, silent, gone_sent c g v.order v.order'))
stuck-Finished p_exit c g w v e ec eg = exit_Finished c g w v
