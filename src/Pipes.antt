-- ===== src/Pipes.antt =====
-- project_2/partB.c: three processes and three pipes. The parent writes to the child, the child to
-- the grandchild and the grandchild to the parent; each process is the place in its code.
pub mod Transfer
pub mod Places
pub mod ParentSteps
pub mod ChildSteps
pub mod GrandchildSteps
pub mod Ending
pub mod Liveness
pub mod Main
use cse4300_project.Prelude.{
  ℕ, suc, ◌≡◌, Bool, true, false, ◌||◌, List, [], ◌∷◌, ◌++◌, Option, none, some, ◌==◌,
  if◌then◌else◌,
}
use cse4300_project.Menu.Words.{Word, codes, newline}

-- What a process does next. Behind the write it has closed that end as well, since fclose does.
pub data Parent : Type 0 where
  p_fork p_close p_write p_wait p_close_gp p_read p_exit : Parent

pub data Child : Type 0 where
  c_unborn c_fork c_close c_write c_close_pc c_read c_wait c_exit : Child

pub data Grandchild : Type 0 where
  g_unborn g_close g_write g_close_cg g_read g_exit : Grandchild

-- The bytes in the pipes, and those that each process has printed from its pipe.
pub record Wires : Type 0 where
  pub pc : Word
  pub cg : Word
  pub gp : Word
  pub child_heard : Word
  pub grandchild_heard : Word
  pub parent_heard : Word

pub data System : Type 0 where
  state : Parent → Child → Grandchild → Wires → System

abbrev pub from_parent : Word
from_parent = codes "ground control to major tom"

abbrev pub from_child : Word
from_child = codes "your circuit's dead, there's something wrong"

abbrev pub from_grandchild : Word
from_grandchild = codes "can you hear me, major tom?"

-- The two ends of the three pipes.
pub data End : Type 0 where
  pc_read pc_write cg_read cg_write gp_read gp_write : End

-- The ends that a process holds: all those of its parent at the fork, until it closes them or exits.
abbrev pub parent_holds : Parent → End → Bool
parent_holds p_fork _ = true
parent_holds p_close _ = true
parent_holds p_write pc_read = false
parent_holds p_write _ = true
parent_holds p_wait pc_read = false
parent_holds p_wait pc_write = false
parent_holds p_wait _ = true
parent_holds p_close_gp pc_read = false
parent_holds p_close_gp pc_write = false
parent_holds p_close_gp _ = true
parent_holds p_read cg_read = true
parent_holds p_read cg_write = true
parent_holds p_read gp_read = true
parent_holds p_read _ = false
parent_holds p_exit _ = false

abbrev pub child_holds : Child → End → Bool
child_holds c_unborn _ = false
child_holds c_fork _ = true
child_holds c_close _ = true
child_holds c_write cg_read = false
child_holds c_write _ = true
child_holds c_close_pc cg_read = false
child_holds c_close_pc cg_write = false
child_holds c_close_pc _ = true
child_holds c_read pc_read = true
child_holds c_read gp_read = true
child_holds c_read gp_write = true
child_holds c_read _ = false
child_holds c_wait gp_read = true
child_holds c_wait gp_write = true
child_holds c_wait _ = false
child_holds c_exit _ = false

abbrev pub grandchild_holds : Grandchild → End → Bool
grandchild_holds g_unborn _ = false
grandchild_holds g_close _ = true
grandchild_holds g_write gp_read = false
grandchild_holds g_write _ = true
grandchild_holds g_close_cg gp_read = false
grandchild_holds g_close_cg gp_write = false
grandchild_holds g_close_cg _ = true
grandchild_holds g_read pc_read = true
grandchild_holds g_read pc_write = true
grandchild_holds g_read cg_read = true
grandchild_holds g_read _ = false
grandchild_holds g_exit _ = false

abbrev pub is_held : End → Parent → Child → Grandchild → Bool
is_held e p c g = parent_holds p e || (child_holds c e || grandchild_holds g e)

-- fgetc in read_from_pipe: a byte and what is left, the newline that ends the loop, the end of the
-- file, or nothing yet.
pub data Fgetc : Type 0 where
  byte : ℕ → Word → Fgetc
  line_end : Word → Fgetc
  file_end : Fgetc
  blocked : Fgetc

-- The pipe is open for writing or not.
abbrev pub fgetc : Bool → Word → Fgetc
fgetc true [] = blocked
fgetc false [] = file_end
fgetc open_end (b ∷ bs) = if b == newline then line_end bs else byte b bs

-- write_to_pipe, which ends the process where nobody holds the read end.
abbrev pub write_to_pipe : Word → Word → Word
write_to_pipe message buffer = buffer ++ message ++ newline ∷ []

-- One step of a process, `none` where it waits or has exited. `forks` says whether fork succeeds.
unfoldable pub parent_step : Bool → System → Option System
parent_step forks (state p_fork c g w) =
    if forks then some (state p_close c_fork g w) else some (state p_exit c g w)
parent_step forks (state p_close c g w) = some (state p_write c g w)
parent_step forks (state p_write c g w) =
    if is_held pc_read p_write c g
    then some (state p_wait c g (record w { pc = write_to_pipe from_parent w.pc }))
    else some (state p_exit c g w)
parent_step forks (state p_wait c_exit g w) = some (state p_close_gp c_exit g w)
parent_step forks (state p_wait c g w) = none
parent_step forks (state p_close_gp c g w) = some (state p_read c g w)
parent_step forks (state p_read c g w) = elim (fgetc (is_held gp_write p_read c g) w.gp) [
  | byte b bs ↦
      some (state p_read c g (record w { gp = bs; parent_heard = w.parent_heard ++ b ∷ [] }))
  | line_end bs ↦ some (state p_exit c g (record w { gp = bs }))
  | file_end ↦ some (state p_exit c g w)
  | blocked ↦ none
]
parent_step forks (state p_exit c g w) = none

unfoldable pub child_step : Bool → System → Option System
child_step forks (state p c_unborn g w) = none
child_step forks (state p c_fork g w) =
    if forks then some (state p c_close g_close w) else some (state p c_exit g w)
child_step forks (state p c_close g w) = some (state p c_write g w)
child_step forks (state p c_write g w) =
    if is_held cg_read p c_write g
    then some (state p c_close_pc g (record w { cg = write_to_pipe from_child w.cg }))
    else some (state p c_exit g w)
child_step forks (state p c_close_pc g w) = some (state p c_read g w)
child_step forks (state p c_read g w) = elim (fgetc (is_held pc_write p c_read g) w.pc) [
  | byte b bs ↦
      some (state p c_read g (record w { pc = bs; child_heard = w.child_heard ++ b ∷ [] }))
  | line_end bs ↦ some (state p c_wait g (record w { pc = bs }))
  | file_end ↦ some (state p c_wait g w)
  | blocked ↦ none
]
child_step forks (state p c_wait g_exit w) = some (state p c_exit g_exit w)
child_step forks (state p c_wait g w) = none
child_step forks (state p c_exit g w) = none

unfoldable pub grandchild_step : System → Option System
grandchild_step (state p c g_unborn w) = none
grandchild_step (state p c g_close w) = some (state p c g_write w)
grandchild_step (state p c g_write w) =
    if is_held gp_read p c g_write
    then some (state p c g_close_cg (record w { gp = write_to_pipe from_grandchild w.gp }))
    else some (state p c g_exit w)
grandchild_step (state p c g_close_cg w) = some (state p c g_read w)
grandchild_step (state p c g_read w) = elim (fgetc (is_held cg_write p c g_read) w.cg) [
  | byte b bs ↦
      some
        (state p c g_read (record w { cg = bs; grandchild_heard = w.grandchild_heard ++ b ∷ [] }))
  | line_end bs ↦ some (state p c g_exit (record w { cg = bs }))
  | file_end ↦ some (state p c g_exit w)
  | blocked ↦ none
]
grandchild_step (state p c g_exit w) = none

-- Whose step it is: the operating system runs the processes in any order.
pub data Process : Type 0 where
  parent child grandchild : Process

-- `first` and `second` are what the two forks come to.
unfoldable pub step : Bool → Bool → Process → System → Option System
unfolding parent_step child_step grandchild_step
step first second parent = parent_step first
step first second child = child_step second
step first second grandchild = grandchild_step

-- The pipes are empty, and the parent is about to fork.
abbrev pub start : System
start = state p_fork c_unborn g_unborn (record {
  pc = [];
  cg = [];
  gp = [];
  child_heard = [];
  grandchild_heard = [];
  parent_heard = [];
})

-- `n` steps, of any processes in any order.
pub data Steps (first second : Bool) : ℕ → System → Type 0 where
  none_yet : Steps first second 0 start
  then_step :
      {n : ℕ} {s s' : System} (who : Process)
      → Steps first second n s
      → step first second who s ≡ some s'
      → Steps first second (suc n) s'
