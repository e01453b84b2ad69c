-- ===== src/Menu/Texts.antt =====
-- The menus of menu.c, and what the commands that show them print.
pub mod Reading
use cse4300_project.Prelude.{
  ℕ, zero, suc, Bool, true, false, List, [], ◌∷◌, ◌++◌, Option, none, some,
}
use cse4300_project.Menu.Words.{Word, codes, newline}
use cse4300_project.Menu.Show.{Row, showmenu}

-- The options that the kernel is built with.
pub record Options : Type 0 where
  pub synchprobs : Bool
  pub net : Bool
  pub sfs : Bool

abbrev pub lines_when : Bool → List Word → List Word
lines_when true lines = lines
lines_when false lines = []

abbrev pub opsmenu : List Word
opsmenu =
    codes "[s]       Shell                     "
    ∷ codes "[p]       Other program             "
    ∷ codes "[mount]   Mount a filesystem        "
    ∷ codes "[unmount] Unmount a filesystem      "
    ∷ codes "[bootfs]  Set \"boot\" filesystem     "
    ∷ codes "[pf]      Print a file              "
    ∷ codes "[cd]      Change directory          "
    ∷ codes "[pwd]     Print current directory   "
    ∷ codes "[sync]    Sync filesystems          "
    ∷ codes "[panic]   Intentional panic         "
    ∷ codes "[q]       Quit and shut down        "
    ∷ []

abbrev pub testmenu : Options → List Word
testmenu o =
    (codes "[at]  Array test                    "
      ∷ codes "[bt]  Bitmap test                   "
      ∷ codes "[qt]  Queue test                    "
      ∷ codes "[km1] Kernel malloc test            "
      ∷ codes "[km2] kmalloc stress test           "
      ∷ codes "[tt1] Thread test 1                 "
      ∷ codes "[tt2] Thread test 2                 "
      ∷ codes "[tt3] Thread test 3                 "
      ∷ codes "[hwt] Hello World test\t\t     "
      ∷ codes "[pct] printchartest\t\t     "
      ∷ [])
    ++ lines_when o.net (codes "[net] Network test                  " ∷ [])
    ++ (codes "[sy1] Semaphore test                "
        ∷ codes "[sy2] Lock test             (1)     "
        ∷ codes "[sy3] CV test               (1)     "
        ∷ codes "[fs1] Filesystem test               "
        ∷ codes "[fs2] FS read stress        (4)     "
        ∷ codes "[fs3] FS write stress       (4)     "
        ∷ codes "[fs4] FS write stress 2     (4)     "
        ∷ codes "[fs5] FS create stress      (4)     "
        ∷ [])

abbrev pub mainmenu : Options → List Word
mainmenu o =
    (codes "[?o] Operations menu                "
      ∷ codes "[?t] Tests menu                     "
      ∷ [])
    ++ lines_when o.synchprobs (
        codes "[1a] Cat/mouse with semaphores      "
        ∷ codes "[1b] Cat/mouse with locks and CVs   "
        ∷ codes "[1c] Stoplight                      "
        ∷ [])
    ++ (codes "[kh] Kernel heap stats              "
        ∷ codes "[q] Quit and shut down              "
        ∷ [])

-- "%-36s"
abbrev pub entry_width : ℕ
entry_width = 36

unfoldable pub pad : ℕ → Word → Word
pad zero w = w
pad (suc n) [] = b' ' ∷ pad n []
pad (suc n) (c ∷ cs) = c ∷ pad n cs

-- An entry that is there; the left one of a row always is.
abbrev pub entry : Option Word → Word
entry none = []
entry (some w) = w

-- One turn of the second loop of showmenu, up to the end of the line.
unfoldable pub row_text : Row Word → Word
unfolding pad
row_text r = codes "    " ++ (pad entry_width (entry r.left) ++ entry r.right)

unfoldable pub rows_text : List (Row Word) → Word
unfolding row_text
rows_text [] = []
rows_text (r ∷ rs) = row_text r ++ newline ∷ rows_text rs

-- All that showmenu prints.
unfoldable pub showmenu_text : Word → List Word → Word
unfolding rows_text
showmenu_text name x = newline ∷ (name ++ newline ∷ (rows_text (showmenu x) ++ newline ∷ []))

abbrev pub opsmenu_name : Word
opsmenu_name = codes "OS/161 operations menu"

abbrev pub testmenu_name : Word
testmenu_name = codes "OS/161 tests menu"

abbrev pub mainmenu_name : Word
mainmenu_name = codes "OS/161 kernel menu"

-- What cmd_testmenu prints behind its menu.
abbrev pub testmenu_notes : Word
testmenu_notes =
    codes "    (1) These tests will fail until you finish the synch assignment.\n"
    ++ codes "    (4) These tests will fail until you finish the file system assignment.\n"
    ++ codes "\n"

abbrev pub opsmenu_text : Word
opsmenu_text = showmenu_text opsmenu_name opsmenu

abbrev pub testmenu_text : Options → Word
testmenu_text o = showmenu_text testmenu_name (testmenu o) ++ testmenu_notes

abbrev pub mainmenu_text : Options → Word
mainmenu_text o = showmenu_text mainmenu_name (mainmenu o)
