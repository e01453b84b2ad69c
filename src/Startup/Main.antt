-- ===== src/Startup/Main.antt =====
-- kmain of project_2/partC.c: start-up, and then the menu on the kernel that boot leaves.
use cse4300_project.Prelude.{ℕ, ◌≡◌, ◌≢◌, refl, false, List, ◌∷◌, some}
use cse4300_project.Platform.{Ptr, Platform, vfs_sync_call, md_poweroff_call}
use cse4300_project.Kernel.{Kernel, K, Result, ok, fault}
use cse4300_project.Startup.{RebootCodes, Reboot, refused, machine_stops, boot}
use cse4300_project.Startup.Power.{shut_down}
use cse4300_project.Menu.Words.{
  Word, codes, args_of, collect_words, strtok_r, skip, head_of, rest_of, token,
}
use cse4300_project.Menu.Commands.{Reply, run_program, quit_call}
use cse4300_project.Menu.Texts.{Options}
use cse4300_project.Menu.Dispatch.{cmd_dispatch, find_command}
use cse4300_project.Menu.Execute.{
  Carried, done, halted, Ended, stopped, returned, one_command, menu_execute, execute_loop,
}
use cse4300_project.Menu.Session.{prompts, menu}
use cse4300_project.Menu.Programs.{common_prog, cmd_quit}
use cse4300_project.Menu.Quitting.{cmd_quit_lem}

module _ ⦃os : Platform⦄ where
  -- What the commands depend on that thread.c does not fix: the reboot codes, what common_prog reads
  -- behind its dead pointer, the address of a program's name, and what the other commands do.
  pub record Surroundings : Type 0 where
    pub reboot_codes : RebootCodes
    pub left : ℕ
    pub name_at : List Word → Ptr
    pub elsewhere : Reply → K ℕ

  -- A fault stops the machine.
  abbrev carried : Result (ℕ × Kernel) → Carried (Result Kernel)
  carried (ok (code, k)) = done code (ok k)
  carried (fault e) = halted (fault e)

  abbrev after_quit : Result (Reboot × Kernel) → Carried (Result Kernel)
  after_quit (ok (machine_stops, k)) = halted (ok k)
  after_quit (ok (refused e, k)) = done 0 (ok k)
  after_quit (fault e) = halted (fault e)

  -- The reply of a command, carried out on the kernel.
  unfoldable pub carry_out : Surroundings → Reply → Result Kernel → Carried (Result Kernel)
  carry_out s r (fault e) = halted (fault e)
  carry_out s (run_program args) (ok k) = carried (common_prog s.left (s.name_at args) k)
  carry_out s quit_call (ok k) = after_quit (cmd_quit s.reboot_codes k)
  carry_out s r (ok k) = carried (s.elsewhere r k)

  -- The name is the address of the first thread's name; the lines are those that are typed.
  unfoldable pub kmain :
      Options → Surroundings → Ptr → Word → List Word → Kernel → Ended (Result Kernel)
  kmain o s name arguments lines k = elim (boot name k) [
    | ok (_, k') ↦ menu o (carry_out s) arguments lines (ok k')
    | fault e ↦ stopped (fault e)
  ]

  dispatch_quit : (o : Options) → cmd_dispatch o (codes "q") ≡ some quit_call
  unfolding cmd_dispatch find_command args_of collect_words strtok_r skip head_of rest_of token
  dispatch_quit o = refl

  quit_line :
      (o : Options) (s : Surroundings) (k : Kernel)
      → menu_execute o (carry_out s) false (codes "q") (ok k)
        ≡ one_command o (carry_out s) false (codes "q") (λ w. returned w) (ok k)
  unfolding menu_execute execute_loop strtok_r skip head_of rest_of token
  quit_line o s k = refl

  -- The line q at the prompt ends the menu, whatever would be typed behind it: the file systems
  -- are synchronised, the kernel is shut down and the machine is powered off. Condition: the code
  -- to power off is not the one to halt or to reboot.
  pub prompts-quit :
      (o : Options) (s : Surroundings) (lines : List Word) (k : Kernel)
      → s.reboot_codes.rb_poweroff ≢ s.reboot_codes.rb_halt
      → s.reboot_codes.rb_poweroff ≢ s.reboot_codes.rb_reboot
      → prompts o (carry_out s) (codes "q" ∷ lines) (ok k)
        ≡ stopped (ok (shut_down (record k { log = vfs_sync_call ∷ k.log }) md_poweroff_call))
  unfolding prompts carry_out
  prompts-quit o s lines k h r =
      rw (quit_line o s k, prompts)
        (rw (dispatch_quit o, one_command) (rw (cmd_quit_lem s.reboot_codes k h r) refl))
