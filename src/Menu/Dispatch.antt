-- ===== src/Menu/Dispatch.antt =====
-- The command table, cmd_dispatch and menu_execute of menu.c.
use cse4300_project.Prelude.{
  Bool, true, false, ◌&&◌, List, [], ◌∷◌, ◌++◌, Option, none, some, if◌then◌else◌,
}
use cse4300_project.Thread.Join.{einval, e2big}
use cse4300_project.Menu.Words.{
  Word, codes, same_word, args_of, words, too_many, out_of_fuel, Words,
}
use cse4300_project.Menu.Texts.{Options}
use cse4300_project.Menu.Commands.{
  Command, Reply, code, perform, cmd_mainmenu, cmd_opsmenu, cmd_testmenu, cmd_shell, cmd_prog,
  cmd_mount, cmd_unmount, cmd_bootfs, printfile, cmd_chdir, cmd_pwd, cmd_sync, cmd_panic, cmd_quit,
  catmousesem, catmouselock, createcars, cmd_kheapstats, arraytest, bitmaptest, queuetest,
  malloctest, mallocstress, hellotest, printchartest, nettest, threadtest, threadtest2, threadtest3,
  semtest, locktest, cvtest, fstest, readstress, writestress, writestress2, createstress,
}

abbrev pub when : Bool → List (Word × Command) → List (Word × Command)
when true entries = entries
when false entries = []

abbrev pub cmdtable : Options → List (Word × Command)
cmdtable o =
    ((codes "?", cmd_mainmenu)
      ∷ (codes "h", cmd_mainmenu)
      ∷ (codes "help", cmd_mainmenu)
      ∷ (codes "?o", cmd_opsmenu)
      ∷ (codes "?t", cmd_testmenu)
      ∷ (codes "s", cmd_shell)
      ∷ (codes "p", cmd_prog)
      ∷ (codes "mount", cmd_mount)
      ∷ (codes "unmount", cmd_unmount)
      ∷ (codes "bootfs", cmd_bootfs)
      ∷ (codes "pf", printfile)
      ∷ (codes "cd", cmd_chdir)
      ∷ (codes "pwd", cmd_pwd)
      ∷ (codes "sync", cmd_sync)
      ∷ (codes "panic", cmd_panic)
      ∷ (codes "q", cmd_quit)
      ∷ (codes "exit", cmd_quit)
      ∷ (codes "halt", cmd_quit)
      ∷ [])
    ++ when o.synchprobs
        ((codes "1a", catmousesem) ∷ (codes "1b", catmouselock) ∷ (codes "1c", createcars) ∷ [])
    ++ ((codes "kh", cmd_kheapstats)
        ∷ (codes "at", arraytest)
        ∷ (codes "bt", bitmaptest)
        ∷ (codes "qt", queuetest)
        ∷ (codes "km1", malloctest)
        ∷ (codes "km2", mallocstress)
        ∷ (codes "hwt", hellotest)
        ∷ (codes "pct", printchartest)
        ∷ [])
    ++ when o.net ((codes "net", nettest) ∷ [])
    ++ ((codes "tt1", threadtest)
        ∷ (codes "tt2", threadtest2)
        ∷ (codes "tt3", threadtest3)
        ∷ (codes "sy1", semtest)
        ∷ (codes "sy2", locktest)
        ∷ (codes "sy3", cvtest)
        ∷ (codes "fs1", fstest)
        ∷ (codes "fs2", readstress)
        ∷ (codes "fs3", writestress)
        ∷ (codes "fs4", writestress2)
        ∷ (codes "fs5", createstress)
        ∷ [])

-- `*name`: the name is not empty.
abbrev pub is_named : Word → Bool
is_named [] = false
is_named (c ∷ cs) = true

-- The loop over the table.
unfoldable pub find_command : Word → List (Word × Command) → Option Command
find_command w [] = none
find_command w ((name, c) ∷ table) =
    if is_named name && same_word w name then some c else find_command w table

-- `none` is a read out of bounds in a command.
unfoldable pub dispatch_words : Options → Words → Option Reply
unfolding find_command perform
dispatch_words o out_of_fuel = none
dispatch_words o too_many = some (code e2big)
dispatch_words o (words []) = some (code 0)
dispatch_words o (words (w ∷ ws)) = elim (find_command w (cmdtable o)) [
  | none ↦ some (code einval)
  | some c ↦ perform o c (w ∷ ws)
]

unfoldable pub cmd_dispatch : Options → Word → Option Reply
unfolding dispatch_words args_of
cmd_dispatch o cmd = dispatch_words o (args_of cmd)
