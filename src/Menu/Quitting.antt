-- ===== src/Menu/Quitting.antt =====
-- cmd_quit of menu.c stops the machine.
use cse4300_project.Prelude.{◌≡◌, ◌≢◌, arith, ◌∷◌}
use cse4300_project.Platform.{Platform, vfs_sync_call, md_poweroff_call}
use cse4300_project.Kernel.{Kernel, ok}
use cse4300_project.Startup.{RebootCodes, machine_stops}
use cse4300_project.Startup.Power.{shut_down, sys_reboot_lem}
use cse4300_project.Menu.Programs.{cmd_quit}

module _ ⦃os : Platform⦄ where
  -- The quit command synchronises the file systems, shuts down and powers the machine off, and
  -- never comes to the exit of its thread. Condition: the code to power off is not the one to halt
  -- or to reboot.
  pub cmd_quit_lem :
      (codes : RebootCodes) (k : Kernel)
      → codes.rb_poweroff ≢ codes.rb_halt
      → codes.rb_poweroff ≢ codes.rb_reboot
      → cmd_quit codes k
        ≡ ok (machine_stops, shut_down (record k { log = vfs_sync_call ∷ k.log }) md_poweroff_call)
  unfolding cmd_quit
  cmd_quit_lem codes k h r =
      ground
        (arith, sys_reboot_lem codes codes.rb_poweroff (record k { log = vfs_sync_call ∷ k.log }))
