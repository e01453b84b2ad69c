-- ===== src/Processes.antt =====
-- The calls of the C library that the fork exercises make, fork, wait, exit, getpid and getppid with
-- printf, as POSIX documents them: a machine that runs processes in any order. The exercises are in
-- the top directory and in project_2.
pub mod Outcomes
use cse4300_project.Prelude.{
  ℕ, zero, suc, ◌+◌, ◌%◌, ◌≡◌, Bool, true, false, not, ◌&&◌, List, [], ◌∷◌, ◌++◌, Option, none,
  some, ◌==◌, if◌then◌else◌, length, get_elem?, set,
}
use cse4300_project.Menu.Words.{Word}

-- What fork returns: 0 in the child, the child's pid in the parent, or a negative number.
pub data Fork : Type 0 where
  in_child : Fork
  in_parent : ℕ → Fork
  failed : Fork

-- What a process has before it. The arguments of printf may use getpid() and getppid(). wait hands
-- over what WEXITSTATUS reads from the status, or nothing where there is no child.
pub data Code : Type 0 where
  exit : ℕ → Code
  printf : Word → (ℕ → ℕ → List ℕ) → Code → Code
  fork : (Fork → Code) → Code
  wait : (Option ℕ → Code) → Code

-- A line on the terminal: the format and the numbers in it.
pub record Line : Type 0 where
  pub format : Word
  pub arguments : List ℕ

abbrev pub line : Word → List ℕ → Line
line f a = record { format = f; arguments = a }

-- A process is named by the number of processes that were there before it. The first one has no
-- parent among them.
pub record Process : Type 0 where
  pub parent : Option ℕ
  pub code : Code
  pub is_waited : Bool

-- `forks` says of each call of fork so far, in order, whether it made a process.
pub record Machine : Type 0 where
  pub processes : List Process
  pub forks : List Bool
  pub printed : List Line

-- The operating system: the pid of each process, those of the shell and of init, which adopts a
-- process whose parent has exited.
pub record Os : Type 0 where
  pub pid : ℕ → ℕ
  pub shell_pid : ℕ
  pub init_pid : ℕ

abbrev pub has_exited : Code → Bool
has_exited (exit n) = true
has_exited (printf f a c) = false
has_exited (fork f) = false
has_exited (wait f) = false

abbrev pub is_parent : ℕ → Option ℕ → Bool
is_parent i none = false
is_parent i (some j) = i == j

abbrev pub first_exit : ℕ → Code → Option (ℕ × ℕ) → Option (ℕ × ℕ)
first_exit j (exit n) rest = some (j, n)
first_exit j (printf f a c) rest = rest
first_exit j (fork f) rest = rest
first_exit j (wait f) rest = rest

-- The first child of `i` that has exited and was not waited for, with its exit code; the processes
-- are numbered from `j`.
abbrev pub exited_child : ℕ → ℕ → List Process → Option (ℕ × ℕ)
exited_child i j [] = none
exited_child i j (p ∷ ps) =
    let rest = exited_child i (suc j) ps in
    if is_parent i p.parent && not p.is_waited then first_exit j p.code rest else rest

abbrev pub has_child : ℕ → List Process → Bool
has_child i [] = false
has_child i (p ∷ ps) =
    let rest = has_child i ps in if is_parent i p.parent && not p.is_waited then true else rest

abbrev pub mark_waited : ℕ → List Process → List Process
mark_waited j ps = elim (get_elem? ps j) [
  | none ↦ ps
  | some p ↦ set ps j (record p { is_waited = true })
]

module _ (os : Os) where
  abbrev pub getppid : List Process → Option ℕ → ℕ
  getppid ps none = os.shell_pid
  getppid ps (some i) = elim (get_elem? ps i) [
    | none ↦ os.init_pid
    | some p ↦ if has_exited p.code then os.init_pid else os.pid i
  ]

  abbrev pub print : ℕ → Process → Word → (ℕ → ℕ → List ℕ) → Code → Machine → Machine
  print i p f a c s = record s {
    processes = set s.processes i (record p { code = c });
    printed = s.printed ++ line f (a (os.pid i) (getppid s.processes p.parent)) ∷ [];
  }

  abbrev pub fork_child : ℕ → Process → (Fork → Code) → Machine → Machine
  fork_child i p f s =
      let n = length s.processes in
      record s {
        processes =
            set s.processes i (record p { code = f (in_parent (os.pid n)) })
            ++ record { parent = some i; code = f in_child; is_waited = false } ∷ [];
        forks = s.forks ++ true ∷ [];
      }

  abbrev pub set_code : ℕ → Process → Code → Machine → Machine
  set_code i p c s = record s { processes = set s.processes i (record p { code = c }) }

  abbrev pub reap : ℕ → Process → (Option ℕ → Code) → Machine → Option Machine
  reap i p f s = elim (exited_child i 0 s.processes) [
    | some (j, n) ↦ some (record s {
      processes = set (mark_waited j s.processes) i (record p { code = f (some (n % 256)) });
    })
    | none ↦ if has_child i s.processes then none else some (set_code i p (f none) s)
  ]

  -- fork makes no process.
  abbrev pub fork_fails : ℕ → Process → (Fork → Code) → Machine → Machine
  fork_fails i p f s = record (set_code i p (f failed) s) { forks = s.forks ++ false ∷ [] }

  -- The step of process `i`, which is `p`, or nothing if it has exited or waits for a child that
  -- runs. With `true` it is the step in which fork fails.
  abbrev pub by_code : Bool → ℕ → Process → Code → Machine → Option Machine
  by_code true i p (fork f) s = some (fork_fails i p f s)
  by_code true i p (exit n) s = none
  by_code true i p (printf f a c) s = none
  by_code true i p (wait f) s = none
  by_code false i p (exit n) s = none
  by_code false i p (printf f a c) s = some (print i p f a c s)
  by_code false i p (fork f) s = some (fork_child i p f s)
  by_code false i p (wait f) s = reap i p f s

  unfoldable pub machine_step : Bool → ℕ → Machine → Option Machine
  machine_step fails i s = elim (get_elem? s.processes i) [
    | none ↦ none
    | some p ↦ by_code fails i p p.code s
  ]

  -- Some steps of processes in some order.
  pub data Run : Machine → ℕ → Machine → Type 0 where
    stop : (s : Machine) → Run s 0 s
    go :
        {s t u : Machine} {n : ℕ} (fails : Bool) (i : ℕ)
        → machine_step fails i s ≡ some t
        → Run t n u
        → Run s (suc n) u

  abbrev pub IsStuck : Machine → Type 0
  IsStuck s = (fails : Bool) (i : ℕ) → machine_step fails i s ≡ none

-- A program that begins.
abbrev pub begin : Code → Machine
begin c = record {
  processes = record { parent = none; code = c; is_waited = false } ∷ [];
  forks = [];
  printed = [];
}
