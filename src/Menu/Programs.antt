-- ===== src/Menu/Programs.antt =====
-- The commands of menu.c that start a program or stop the machine: cmd_progthread, common_prog and
-- cmd_quit, over the kernel of thread.c.
use cse4300_project.Prelude.{leb, ◌&&◌, ℕ, true, not, ltb, length, ◌==◌, if◌then◌else◌}
use cse4300_project.Platform.{Ptr, Platform, vfs_sync_call, clocksleep_call}
use cse4300_project.Kernel.{K, null_pointer, fail, pure, ◌>>=◌, ◌>>◌, kmalloc, record_call}
use cse4300_project.Thread.Fork.{thread_fork}
use cse4300_project.Thread.Join.{thread_join}
use cse4300_project.Thread.Exit.{thread_exit, is_thread_running}
use cse4300_project.Startup.{RebootCodes, Reboot, refused, machine_stops, sys_reboot}
use cse4300_project.Menu.Words.{Word}

-- sizeof(progname)
abbrev pub progname_size : ℕ
progname_size = 128

-- What the program's thread comes to: an assertion fails, strcpy writes behind the end of progname,
-- or the program of this name is run.
pub data Ran : Type 0 where
  assertion_fails : Ran
  overruns_progname : Ran
  runs : Word → Ran

-- The array `args` stands in the frame of cmd_dispatch, and its strings in the buffer of menu, both
-- of which the menu's thread goes on to use. So what `args[0]` is when this thread runs is an
-- argument, and as the two threads race, one for each of its two readings: `measured` is what strlen
-- finds there, and `copied` what strcpy finds. The other arguments are copied and not used.
unfoldable pub cmd_progthread : ℕ → Word → Word → Ran
cmd_progthread nargs measured copied =
    if leb 1 nargs && ltb (length measured) progname_size
    then if ltb (length copied) progname_size then runs copied else overruns_progname
    else assertion_fails

module _ ⦃os : Platform⦄ where
  -- `left` is what the memory of thread_fork's variable `pid` holds when `*pid` is read through the
  -- pointer that thread_fork stored: the variable is gone by then.
  unfoldable pub common_prog : ℕ → Ptr → K ℕ
  common_prog left name = do
    _ ← kmalloc
    (result, stored) ← thread_fork name true
    let started = (do
      status ← kmalloc
      _ ← thread_join left (not (status.at == 0))
      let waited = (do
        running ← is_thread_running
        if running then record_call clocksleep_call else pure tt
        pure 0)
      if status.at == 0 then fail null_pointer else waited)
    if result == 0 then started else pure result

  -- Where sys_reboot returns, the menu's thread exits.
  unfoldable pub cmd_quit : RebootCodes → K Reboot
  cmd_quit codes = do
    record_call vfs_sync_call
    r ← sys_reboot codes codes.rb_poweroff
    elim r [ refused e ↦ (do thread_exit; pure (refused e)) | machine_stops ↦ pure machine_stops ]
