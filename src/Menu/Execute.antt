-- ===== src/Menu/Execute.antt =====
-- menu_execute of menu.c: a line of commands with semicolons between them.
use cse4300_project.Prelude.{
  ℕ, zero, suc, ◌<◌, ◌≡◌, ◌≢◌, ◌⊎◌, inl, inr, Bool-cases, refl, arith, Bool, true, false, ◌&&◌, not,
  Option, List, [], ◌∷◌, none, some, ◌==◌, length,
}
use cse4300_project.Menu.Words.{Word, strtok_r, is_semicolon}
use cse4300_project.Menu.Commands.{Reply}
use cse4300_project.Menu.Lines.{
  line_of, words_in, behead, end_of, words_in-behead, IsTyped, strtok_r-end, strtok_r-line_of,
  IsTyped-behead, length-behead,
}
use cse4300_project.Menu.Texts.{Options}
use cse4300_project.Menu.Dispatch.{cmd_dispatch}

-- What a command does: it returns a code, or the machine stops in it (panic, power off).
pub data Carried (W : Type 0) : Type 0 where
  done : ℕ → W → Carried W
  halted : W → Carried W

-- How a line ends: with the state it leaves, in a command that stops the machine, in the panic() of
-- menu_execute, or by a read out of bounds.
pub data Ended (W : Type 0) : Type 0 where
  returned : W → Ended W
  stopped : W → Ended W
  panicked : W → Ended W
  out_of_bounds : Ended W
  out_of_fuel : Ended W

-- `carry_out` is what a reply does to the rest of the kernel.
module _ {W : Type 0} (o : Options) (carry_out : Reply → W → Carried W) where
  -- One command; `next` is the rest of the loop.
  abbrev pub one_command : Bool → Word → (W → Ended W) → W → Ended W
  one_command isargs command next w = elim (cmd_dispatch o command) [
    | none ↦ out_of_bounds
    | some r ↦ elim (carry_out r w) [
      | halted w' ↦ stopped w'
      | done result w' ↦ elim (isargs && not (result == 0)) [ true ↦ panicked w' | false ↦ next w' ]
    ]
  ]

  unfoldable pub execute_loop : ℕ → Bool → Word → W → Ended W
  execute_loop zero isargs context w = out_of_fuel
  execute_loop (suc fuel) isargs context w = elim (strtok_r is_semicolon context) [
    | none ↦ returned w
    | some (command, rest) ↦ one_command isargs command (execute_loop fuel isargs rest) w
  ]

  unfoldable pub menu_execute : Bool → Word → W → Ended W
  unfolding execute_loop
  menu_execute isargs line = execute_loop (suc (length line)) isargs line

  -- What comes of the commands, one after the other: each runs in the state that the one before
  -- leaves. A command that reads out of bounds or stops the machine ends the line, and so does, with
  -- `isargs`, one that returns a code other than 0, in a panic; any other lets the line go on.
  pub data Executes (isargs : Bool) : List Word → W → Ended W → Type 0 where
    all_done : {w : W} → Executes isargs [] w (returned w)
    reads_out :
        {c : Word} {cs : List Word} {w : W}
        → cmd_dispatch o c ≡ none
        → Executes isargs (c ∷ cs) w out_of_bounds
    stops :
        {c : Word} {cs : List Word} {w w' : W} (r : Reply)
        → cmd_dispatch o c ≡ some r
        → carry_out r w ≡ halted w'
        → Executes isargs (c ∷ cs) w (stopped w')
    panics :
        {c : Word} {cs : List Word} {w w' : W} (r : Reply) (result : ℕ)
        → cmd_dispatch o c ≡ some r
        → carry_out r w ≡ done result w'
        → isargs ≡ true
        → result ≢ 0
        → Executes isargs (c ∷ cs) w (panicked w')
    goes_on :
        {c : Word} {cs : List Word} {w w' : W} {e : Ended W} (r : Reply) (result : ℕ)
        → cmd_dispatch o c ≡ some r
        → carry_out r w ≡ done result w'
        → (isargs ≡ false) ⊎ (result ≡ 0)
        → Executes isargs cs w' e
        → Executes isargs (c ∷ cs) w e

  one_command-Executes :
      (isargs : Bool) (c : Word) (cs : List Word) (next : W → Ended W) (w : W)
      → ((w' : W) → Executes isargs cs w' (next w'))
      → Executes isargs (c ∷ cs) w (one_command isargs c next w)
  one_command-Executes isargs c cs next w later = dispatched (cmd_dispatch o c) refl
    where
      carried :
          (r : Reply) (x : Carried W)
          → cmd_dispatch o c ≡ some r
          → carry_out r w ≡ x
          → Executes isargs (c ∷ cs) w (one_command isargs c next w)
      carried r (halted w') e f = rw (e, one_command) (rw f (stops r e f))
      carried r (done result w') e f = elim (Bool-cases (isargs && not (result == 0))) [
        | inl bad ↦
            rw (e, one_command)
              (rw (f, bad)
                (panics r result e f (ground (arith, bad)) (λ n. absurd (ground (arith, bad, n)))))
        | inr fine ↦
            rw (e, one_command) (rw (f, fine) (goes_on r result e f (harmless fine) (later w')))
      ]
        where
          harmless : (isargs && not (result == 0)) ≡ false → (isargs ≡ false) ⊎ (result ≡ 0)
          harmless fine = elim (Bool-cases isargs) [
            | inl args ↦ inr (ground (arith, fine, args))
            | inr prompt ↦ inl prompt
          ]

      dispatched :
          (d : Option Reply)
          → cmd_dispatch o c ≡ d
          → Executes isargs (c ∷ cs) w (one_command isargs c next w)
      dispatched none e = rw (e, one_command) (reads_out e)
      dispatched (some r) e = carried r (carry_out r w) e refl

  execute_loop-Executes :
      (fuel : ℕ) (isargs : Bool) (cs : List (Word × Word)) (end : Word) (w : W)
      → IsTyped is_semicolon cs end
      → length (line_of cs end) < fuel
      → Executes isargs (words_in cs) w (execute_loop fuel isargs (line_of cs end) w)
  unfolding execute_loop
  execute_loop-Executes zero isargs cs end w v h = absurd (omega arith)
  execute_loop-Executes (suc fuel) isargs [] end w v h =
      rw (strtok_r-end is_semicolon end v, execute_loop) all_done
  execute_loop-Executes (suc fuel) isargs ((gap, c) ∷ cs) end w v h =
      rw (strtok_r-line_of is_semicolon gap c end cs v, execute_loop)
        (one_command-Executes isargs c (words_in cs)
          (execute_loop fuel isargs (line_of (behead cs) (end_of cs end))) w
          λ w'. rw (words_in-behead cs) at (
            execute_loop-Executes fuel isargs (behead cs) (end_of cs end) w'
              (IsTyped-behead is_semicolon end cs v.3)
              (omega (arith, length-behead is_semicolon gap c end cs v))))

  -- A line of commands with semicolons before, between and behind them, at least one between two
  -- commands, is carried out command by command, and the loop does end: each command is dispatched
  -- and its reply carried out in the state that the one before left; a read out of bounds or a
  -- command that stops the machine ends the line, a code other than 0 ends it in a panic exactly
  -- where isargs is set, and the line returns with the state that its last command left.
  pub menu_execute-Executes :
      (isargs : Bool) (cs : List (Word × Word)) (end : Word) (w : W)
      → IsTyped is_semicolon cs end
      → Executes isargs (words_in cs) w (menu_execute isargs (line_of cs end) w)
  unfolding menu_execute
  menu_execute-Executes isargs cs end w v =
      execute_loop-Executes (suc (length (line_of cs end))) isargs cs end w v (omega arith)
