-- ===== src/Startup.antt =====
-- project_2/partC.c: the kernel's main.c, with start-up, shutdown and the reboot call.
pub mod Power
pub mod Main
pub mod Boot
use cse4300_project.Prelude.{ℕ, Bool, true, false, ◌≢◌, ◌||◌, ◌==◌, if◌then◌else◌}
use cse4300_project.Platform.{
  Ptr, Platform, Event, ram_bootstrap_call, scheduler_bootstrap_call, vfs_bootstrap_call,
  dev_bootstrap_call, vm_bootstrap_call, kprintf_bootstrap_call, vfs_setbootfs_call,
  vfs_clearbootfs_call, vfs_clearcurdir_call, vfs_unmountall_call, scheduler_shutdown_call,
  vfs_sync_call, md_halt_call, md_reboot_call, md_poweroff_call,
}
use cse4300_project.Kernel.{K, ok, panicked, fail, pure, ◌>>=◌, ◌>>◌, record_call, splhigh}
use cse4300_project.Thread.Create.{thread_bootstrap, thread_shutdown}
use cse4300_project.Thread.Join.{einval}

-- RB_REBOOT, RB_HALT and RB_POWEROFF of kern/unistd.h
pub record RebootCodes : Type 0 where
  pub rb_reboot : ℕ
  pub rb_halt : ℕ
  pub rb_poweroff : ℕ

-- What sys_reboot comes to: it returns a code, or the machine's call, which does not return.
pub data Reboot : Type 0 where
  refused : ℕ → Reboot
  machine_stops : Reboot

module _ ⦃os : Platform⦄ where
  -- The name is the address of the first thread's name.
  unfoldable pub boot : Ptr → K (Unit {0})
  boot name = do
    record_call ram_bootstrap_call
    record_call scheduler_bootstrap_call
    _ ← thread_bootstrap name
    record_call vfs_bootstrap_call
    record_call dev_bootstrap_call
    record_call vm_bootstrap_call
    record_call kprintf_bootstrap_call
    record_call vfs_setbootfs_call

  unfoldable pub shutdown : K (Unit {0})
  shutdown = do
    record_call vfs_clearbootfs_call
    record_call vfs_clearcurdir_call
    record_call vfs_unmountall_call
    _ ← splhigh
    record_call scheduler_shutdown_call
    thread_shutdown

  module _ (codes : RebootCodes) where
    -- The second switch; behind it stands panic().
    unfoldable pub stop_machine : ℕ → K Reboot
    stop_machine code =
        let stops = (λ (e : Event). (do record_call e; pure machine_stops)) in
        if code == codes.rb_halt
        then stops md_halt_call
        else if code == codes.rb_reboot
        then stops md_reboot_call
        else if code == codes.rb_poweroff
        then stops md_poweroff_call
        else fail panicked

    unfoldable pub sys_reboot : ℕ → K Reboot
    sys_reboot code =
        if code == codes.rb_reboot || (code == codes.rb_halt || code == codes.rb_poweroff)
        then (do shutdown; stop_machine code)
        else pure (refused einval)
