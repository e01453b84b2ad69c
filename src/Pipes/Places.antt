-- ===== src/Pipes/Places.antt =====
-- Where the three processes of project_2/partB.c can be at the same time, and what they have sent and heard.
use cse4300_project.Prelude.{◌≡◌, refl, arith, Bool, true, false, Option, none, some}
use cse4300_project.Pipes.{
  Parent, p_fork, p_close, p_write, p_wait, p_close_gp, p_read, p_exit, Child, c_unborn, c_fork,
  c_close, c_write, c_close_pc, c_read, c_wait, c_exit, Grandchild, g_unborn, g_close, g_write,
  g_close_cg, g_read, g_exit, Wires, System, state, from_parent, from_child, from_grandchild,
  pc_read, child_holds,
}
use cse4300_project.Pipes.Transfer.{Wire}

abbrev pub has_sent_p : Parent → Bool
has_sent_p p_fork = false
has_sent_p p_close = false
has_sent_p p_write = false
has_sent_p _ = true

abbrev pub has_heard_p : Parent → Bool
has_heard_p p_exit = true
has_heard_p _ = false

abbrev pub has_sent_c : Child → Bool
has_sent_c c_close_pc = true
has_sent_c c_read = true
has_sent_c c_wait = true
has_sent_c c_exit = true
has_sent_c _ = false

abbrev pub has_heard_c : Child → Bool
has_heard_c c_wait = true
has_heard_c c_exit = true
has_heard_c _ = false

abbrev pub has_sent_g : Grandchild → Bool
has_sent_g g_close_cg = true
has_sent_g g_read = true
has_sent_g g_exit = true
has_sent_g _ = false

abbrev pub has_heard_g : Grandchild → Bool
has_heard_g g_exit = true
has_heard_g _ = false

abbrev pub is_born_c : Child → Bool
is_born_c c_unborn = false
is_born_c _ = true

abbrev pub is_gone_c : Child → Bool
is_gone_c c_exit = true
is_gone_c _ = false

abbrev pub is_born_g : Grandchild → Bool
is_born_g g_unborn = false
is_born_g _ = true

abbrev pub is_gone_g : Grandchild → Bool
is_gone_g g_exit = true
is_gone_g _ = false

-- The child is born at the fork, and gone when the wait is over; so is the grandchild.
abbrev pub Order : Parent → Child → Type 0
Order p_fork c = is_born_c c ≡ false
Order p_close c = is_born_c c ≡ true
Order p_write c = is_born_c c ≡ true
Order p_wait c = is_born_c c ≡ true
Order p c = is_gone_c c ≡ true

abbrev pub Order' : Child → Grandchild → Type 0
Order' c_unborn g = is_born_g g ≡ false
Order' c_fork g = is_born_g g ≡ false
Order' c_exit g = is_gone_g g ≡ true
Order' c g = is_born_g g ≡ true

-- What holds at every moment.
pub record Inv (p : Parent) (c : Child) (g : Grandchild) (w : Wires) : Type 0 where
  pub order : Order p c
  pub order' : Order' c g
  pub pc : Wire (has_sent_p p) (has_heard_c c) from_parent w.pc w.child_heard
  pub cg : Wire (has_sent_c c) (has_heard_g g) from_child w.cg w.grandchild_heard
  pub gp : Wire (has_sent_g g) (has_heard_p p) from_grandchild w.gp w.parent_heard

abbrev pub Holds : Option System → Type 0
Holds none = Unit
Holds (some (state p c g w)) = Inv p c g w

pub Order-step :
    (p : Parent) (c c' : Child)
    → is_born_c c ≡ true
    → is_gone_c c ≡ false
    → is_born_c c' ≡ true
    → Order p c
    → Order p c'
Order-step p_fork c c' born here born' o = ground arith
Order-step p_close c c' born here born' o = born'
Order-step p_write c c' born here born' o = born'
Order-step p_wait c c' born here born' o = born'
Order-step p_close_gp c c' born here born' o = ground arith
Order-step p_read c c' born here born' o = ground arith
Order-step p_exit c c' born here born' o = ground arith

-- A process of which this is known is at one place.
pub only_unborn : (P : Child → Type 0) (x : Child) → is_born_c x ≡ false → P c_unborn → P x
only_unborn P c_unborn e v = v
only_unborn P c_fork e v = absurd (ground arith)
only_unborn P c_close e v = absurd (ground arith)
only_unborn P c_write e v = absurd (ground arith)
only_unborn P c_close_pc e v = absurd (ground arith)
only_unborn P c_read e v = absurd (ground arith)
only_unborn P c_wait e v = absurd (ground arith)
only_unborn P c_exit e v = absurd (ground arith)

pub only_gone : (P : Child → Type 0) (x : Child) → is_gone_c x ≡ true → P c_exit → P x
only_gone P c_unborn e v = absurd (ground arith)
only_gone P c_fork e v = absurd (ground arith)
only_gone P c_close e v = absurd (ground arith)
only_gone P c_write e v = absurd (ground arith)
only_gone P c_close_pc e v = absurd (ground arith)
only_gone P c_read e v = absurd (ground arith)
only_gone P c_wait e v = absurd (ground arith)
only_gone P c_exit e v = v

pub only_unborn_g :
    (P : Grandchild → Type 0) (x : Grandchild) → is_born_g x ≡ false → P g_unborn → P x
only_unborn_g P g_unborn e v = v
only_unborn_g P g_close e v = absurd (ground arith)
only_unborn_g P g_write e v = absurd (ground arith)
only_unborn_g P g_close_cg e v = absurd (ground arith)
only_unborn_g P g_read e v = absurd (ground arith)
only_unborn_g P g_exit e v = absurd (ground arith)

pub only_gone_g : (P : Grandchild → Type 0) (x : Grandchild) → is_gone_g x ≡ true → P g_exit → P x
only_gone_g P g_unborn e v = absurd (ground arith)
only_gone_g P g_close e v = absurd (ground arith)
only_gone_g P g_write e v = absurd (ground arith)
only_gone_g P g_close_cg e v = absurd (ground arith)
only_gone_g P g_read e v = absurd (ground arith)
only_gone_g P g_exit e v = v

pub child_reads :
    (c : Child) → is_born_c c ≡ true → has_heard_c c ≡ false → child_holds c pc_read ≡ true
child_reads c_unborn b h = absurd (ground arith)
child_reads c_fork b h = refl
child_reads c_close b h = refl
child_reads c_write b h = refl
child_reads c_close_pc b h = refl
child_reads c_read b h = refl
child_reads c_wait b h = absurd (ground arith)
child_reads c_exit b h = absurd (ground arith)

-- Nobody is behind the waits before the grandchild has sent its message.
pub gone_sent : (c : Child) (g : Grandchild) → is_gone_c c ≡ true → Order' c g → has_sent_g g ≡ true
gone_sent c g gone =
    only_gone (λ c. Order' c g → has_sent_g g ≡ true) c gone
      λ o. only_gone_g (λ g. has_sent_g g ≡ true) g o refl
