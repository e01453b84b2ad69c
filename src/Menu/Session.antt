-- ===== src/Menu/Session.antt =====
-- The main loop, menu of menu.c: the kernel's arguments, then one line after the other.
use cse4300_project.Prelude.{
  ℕ, zero, suc, ◌<◌, arith, true, false, not, ◌&&◌, List, [], ◌∷◌, Option, none, some, ◌==◌, length,
}
use cse4300_project.Menu.Words.{Word, strtok_r, is_semicolon}
use cse4300_project.Menu.Commands.{Reply}
use cse4300_project.Menu.Splitting.{Tokens, strtok_r-Tokens}
use cse4300_project.Menu.Texts.{Options}
use cse4300_project.Menu.Lookup.{cmd_dispatch-some}
use cse4300_project.Menu.Execute.{
  Carried, done, halted, Ended, returned, stopped, panicked, out_of_bounds, out_of_fuel,
  one_command, execute_loop, menu_execute,
}

module _ {W : Type 0} (o : Options) (carry_out : Reply → W → Carried W) where
  -- The loop, for the lines that kgets reads; behind the last one the menu waits for another.
  unfoldable pub prompts : List Word → W → Ended W
  prompts [] w = returned w
  prompts (line ∷ lines) w = elim (menu_execute o carry_out false line w) [
    | returned w' ↦ prompts lines w'
    | stopped w' ↦ stopped w'
    | panicked w' ↦ panicked w'
    | out_of_bounds ↦ out_of_bounds
    | out_of_fuel ↦ out_of_fuel
  ]

  unfoldable pub menu : Word → List Word → W → Ended W
  unfolding prompts
  menu args lines w = elim (menu_execute o carry_out true args w) [
    | returned w' ↦ prompts lines w'
    | stopped w' ↦ stopped w'
    | panicked w' ↦ panicked w'
    | out_of_bounds ↦ out_of_bounds
    | out_of_fuel ↦ out_of_fuel
  ]

  -- The end of a line that is read at the prompt: it returns, or a command stops the machine.
  abbrev pub Orderly : Ended W → Type 0
  Orderly (returned w) = Unit
  Orderly (stopped w) = Unit
  Orderly (panicked w) = ⊥
  Orderly out_of_bounds = ⊥
  Orderly out_of_fuel = ⊥

  one_command-Orderly :
      (command : Word) (next : W → Ended W) (w : W)
      → ((w' : W) → Orderly (next w'))
      → Orderly (one_command o carry_out false command next w)
  one_command-Orderly command next w orderly =
      let (r, e) = cmd_dispatch-some o command in rw (e, one_command) (by_outcome (carry_out r w))
    where
      by_outcome :
          (c : Carried W)
          → Orderly (elim c [
            | halted w' ↦ stopped w'
            | done result w' ↦ elim (false && not (result == 0)) [
              | true ↦ panicked w'
              | false ↦ next w'
            ]
          ])
      by_outcome (done result w') = orderly w'
      by_outcome (halted w') = tt

  execute_loop-Orderly :
      (fuel : ℕ) (context : Word) (w : W)
      → length context < fuel
      → Orderly (execute_loop o carry_out fuel false context w)
  unfolding execute_loop
  execute_loop-Orderly zero context w h = absurd (omega arith)
  execute_loop-Orderly (suc fuel) context w h =
      by_token (execute_loop-Orderly fuel) (strtok_r is_semicolon context)
        (strtok_r-Tokens is_semicolon context)
    where
      by_token :
          ((rest : Word) (w' : W)
            → length rest < fuel
            → Orderly (execute_loop o carry_out fuel false rest w'))
          → (t : Option (Word × Word)) → Tokens is_semicolon context t
          → Orderly (elim t [
            | none ↦ returned w
            | some (command, rest) ↦
                one_command o carry_out false command (execute_loop o carry_out fuel false rest) w
          ])
      by_token ih none shorter = tt
      by_token ih (some (command, rest)) shorter =
          one_command-Orderly command (execute_loop o carry_out fuel false rest) w
            λ w'. ih rest w' (omega (arith, shorter.1))

  -- Whatever lines are typed at the prompt and whatever their commands do, the loop of menu comes
  -- through all of them or stops where a command stops the machine: it never panics, reads no
  -- argument that is not there, and the splitting of no line fails to end.
  pub prompts-Orderly : (lines : List Word) (w : W) → Orderly (prompts lines w)
  unfolding prompts menu_execute
  prompts-Orderly [] w = tt
  prompts-Orderly (line ∷ lines) w =
      by_end (prompts-Orderly lines) (menu_execute o carry_out false line w)
        (execute_loop-Orderly (suc (length line)) line w (omega arith))
    where
      by_end :
          ((w' : W) → Orderly (prompts lines w'))
          → (e : Ended W) → Orderly e
          → Orderly (elim e [
            | returned w' ↦ prompts lines w'
            | stopped w' ↦ stopped w'
            | panicked w' ↦ panicked w'
            | out_of_bounds ↦ out_of_bounds
            | out_of_fuel ↦ out_of_fuel
          ])
      by_end ih (returned w') v = ih w'
      by_end ih (stopped w') v = tt
      by_end ih (panicked w') v = absurd v
      by_end ih out_of_bounds v = absurd v
      by_end ih out_of_fuel v = absurd v
