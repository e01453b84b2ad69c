-- ===== src/Menu/Commands.antt =====
-- The command functions of menu.c. A command ends with a code of its own, or with a call into the
-- rest of the kernel, whose code it returns; a menu
-- that is shown ends with 0.
use cse4300_project.Prelude.{
  ℕ, Bool, true, false, List, [], ◌∷◌, Option, none, some, ◌==◌, if◌then◌else◌,
}
use cse4300_project.Thread.Join.{einval}
use cse4300_project.Menu.Texts.{Options, opsmenu_text, testmenu_text, mainmenu_text}
use cse4300_project.Menu.Words.{Word, codes, same_word}

-- The functions of the command table.
pub data Command : Type 0 where
  cmd_mainmenu cmd_opsmenu cmd_testmenu cmd_shell cmd_prog cmd_mount cmd_unmount cmd_bootfs :
      Command
  printfile cmd_chdir cmd_pwd cmd_sync cmd_panic cmd_quit : Command
  catmousesem catmouselock createcars cmd_kheapstats : Command
  arraytest bitmaptest queuetest malloctest mallocstress hellotest printchartest nettest : Command
  threadtest threadtest2 threadtest3 semtest locktest cvtest : Command
  fstest readstress writestress writestress2 createstress : Command

pub data Reply : Type 0 where
  code : ℕ → Reply
  shown : Word → Reply
  run_program : List Word → Reply
  vfs_chdir vfs_unmount vfs_setbootfs : Word → Reply
  mount_call : Word → Word → Reply
  panic_call quit_call sync_call getcwd_call kheap_call : Reply
  other : Command → List Word → Reply

-- The device without one trailing colon. A word that strtok_r returned is not empty; at the empty
-- word the source reads before the start of the string, and `none` stands for that.
unfoldable pub strip_colon : Word → Option Word
strip_colon [] = none
strip_colon (c ∷ []) = some (if c == b':' then [] else c ∷ [])
strip_colon (c ∷ d ∷ ds) = elim (strip_colon (d ∷ ds)) [ none ↦ none | some w ↦ some (c ∷ w) ]

abbrev pub on_device : Word → (Word → Reply) → Option Reply
on_device w k = elim (strip_colon w) [ none ↦ none | some d ↦ some (k d) ]

-- mounttable, with or without OPT_SFS
abbrev pub mounttable : Bool → List Word
mounttable true = codes "sfs" ∷ []
mounttable false = []

-- The loop of cmd_mount.
unfoldable pub mount_loop : List Word → Word → Word → Reply
mount_loop [] fstype device = code einval
mount_loop (name ∷ table) fstype device =
    if same_word name fstype then mount_call name device else mount_loop table fstype device

unfoldable pub cmd_prog_reply : List Word → Reply
cmd_prog_reply (p ∷ program ∷ args) = run_program (program ∷ args)
cmd_prog_reply _ = code einval

unfoldable pub cmd_shell_reply : List Word → Reply
cmd_shell_reply (s ∷ []) = run_program (codes "/bin/sh" ∷ [])
cmd_shell_reply _ = code einval

unfoldable pub cmd_chdir_reply : List Word → Reply
cmd_chdir_reply (cd ∷ dir ∷ []) = vfs_chdir dir
cmd_chdir_reply _ = code einval

unfoldable pub cmd_mount_reply : Bool → List Word → Option Reply
unfolding strip_colon mount_loop
cmd_mount_reply sfs (mount ∷ fstype ∷ device ∷ []) =
    on_device device (mount_loop (mounttable sfs) fstype)
cmd_mount_reply sfs _ = some (code einval)

unfoldable pub cmd_unmount_reply : List Word → Option Reply
unfolding strip_colon
cmd_unmount_reply (unmount ∷ device ∷ []) = on_device device vfs_unmount
cmd_unmount_reply _ = some (code einval)

unfoldable pub cmd_bootfs_reply : List Word → Option Reply
unfolding strip_colon
cmd_bootfs_reply (bootfs ∷ device ∷ []) = on_device device vfs_setbootfs
cmd_bootfs_reply _ = some (code einval)

-- `cmdtable[i].func(nargs, args)`
unfoldable pub perform : Options → Command → List Word → Option Reply
unfolding cmd_prog_reply cmd_shell_reply cmd_chdir_reply cmd_mount_reply cmd_unmount_reply
    cmd_bootfs_reply
perform o cmd_mainmenu args = some (shown (mainmenu_text o))
perform o cmd_opsmenu args = some (shown opsmenu_text)
perform o cmd_testmenu args = some (shown (testmenu_text o))
perform o cmd_shell args = some (cmd_shell_reply args)
perform o cmd_prog args = some (cmd_prog_reply args)
perform o cmd_mount args = cmd_mount_reply o.sfs args
perform o cmd_unmount args = cmd_unmount_reply args
perform o cmd_bootfs args = cmd_bootfs_reply args
perform o cmd_chdir args = some (cmd_chdir_reply args)
perform o cmd_pwd args = some getcwd_call
perform o cmd_sync args = some sync_call
perform o cmd_kheapstats args = some kheap_call
perform o cmd_panic args = some panic_call
perform o cmd_quit args = some quit_call
perform o c args = some (other c args)
