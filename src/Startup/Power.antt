-- ===== src/Startup/Power.antt =====
-- What sys_reboot leaves of the kernel.
use cse4300_project.Prelude.{ℕ, ◌≡◌, ◌∷◌, none, arith, ◌==◌, if◌then◌else◌}
use cse4300_project.Platform.{
  Platform, Event, Log, array_destroy_call, vfs_clearbootfs_call, vfs_clearcurdir_call,
  vfs_unmountall_call, scheduler_shutdown_call, md_halt_call, md_reboot_call, md_poweroff_call,
}
use cse4300_project.Kernel.{Kernel, ok, fault, assertion}
use cse4300_project.Thread.Create.{thread_shutdown}
use cse4300_project.Thread.Switch.{thread_yield}
use cse4300_project.Thread.Join.{einval}
use cse4300_project.Startup.{
  RebootCodes, refused, machine_stops, shutdown, stop_machine, sys_reboot,
}

module _ ⦃os : Platform⦄ where
  -- The calls of shutdown, the latest first.
  abbrev pub shutdown_log : Log → Log
  shutdown_log log =
      array_destroy_call ∷ array_destroy_call ∷ array_destroy_call ∷ scheduler_shutdown_call
      ∷ vfs_unmountall_call ∷ vfs_clearcurdir_call ∷ vfs_clearbootfs_call ∷ log

  -- The kernel as it is when the machine stops.
  abbrev pub shut_down : Kernel → Event → Kernel
  shut_down k e = record k {
    curspl = (os.splhigh k.curspl).1;
    sleepers = none;
    zombies = none;
    joinable = none;
    log = e ∷ shutdown_log k.log;
  }

  -- Sys_reboot with the code to halt, reboot or power off makes the calls of shutdown, raises the
  -- interrupt level, gives the three thread arrays up and then makes the machine call of that
  -- code, and does nothing else; with any other code it returns EINVAL and changes nothing.
  pub sys_reboot_lem :
      (codes : RebootCodes) (code : ℕ) (k : Kernel)
      → sys_reboot codes code k ≡ (
          if code == codes.rb_halt
          then ok (machine_stops, shut_down k md_halt_call)
          else if code == codes.rb_reboot
          then ok (machine_stops, shut_down k md_reboot_call)
          else if code == codes.rb_poweroff
          then ok (machine_stops, shut_down k md_poweroff_call)
          else ok (refused einval, k))
  unfolding sys_reboot shutdown stop_machine thread_shutdown
  sys_reboot_lem codes code k = ground arith

  -- After thread_shutdown has given the sleepers up, thread_yield fails its assertion.
  pub thread_yield-shut_down : (k : Kernel) → k.sleepers ≡ none → thread_yield k ≡ fault assertion
  unfolding thread_yield
  thread_yield-shut_down k e = ground (arith, e)
