-- ===== src/Tests/Startup.antt =====
-- The concrete kernel starts up and is shut down.
use cse4300_project.Prelude.{◌≡◌, refl, arith, [], ◌∷◌}
use cse4300_project.Platform.{vfs_sync_call, md_poweroff_call}
use cse4300_project.Kernel.{Kernel, ok}
use cse4300_project.Thread.Forking.Furnishing.{HasMemory}
use cse4300_project.Startup.{RebootCodes, boot}
use cse4300_project.Startup.Power.{shut_down}
use cse4300_project.Startup.Main.{Surroundings, carry_out, prompts-quit}
use cse4300_project.Startup.Boot.{Boots, boot-Boots}
use cse4300_project.Menu.Words.{codes}
use cse4300_project.Menu.Execute.{stopped}
use cse4300_project.Menu.Session.{prompts}
use cse4300_project.Tests.Lists.{lists, lists_laws, machine}
use cse4300_project.Tests.Commands.{options}

abbrev reboot_codes : RebootCodes
reboot_codes = record { rb_reboot = 0; rb_halt = 1; rb_poweroff = 2 }

abbrev surroundings : Surroundings
surroundings = record {
  reboot_codes = reboot_codes;
  left = 0;
  name_at = λ args. 400;
  elsewhere = λ r k. ok (0, k);
}

prompts-quit_example :
    prompts options (carry_out surroundings) (codes "q" ∷ codes "cd a" ∷ []) (ok machine)
    ≡ stopped (ok (shut_down (record machine { log = vfs_sync_call ∷ [] }) md_poweroff_call))
prompts-quit_example =
    prompts-quit options surroundings (codes "cd a" ∷ []) machine (ground arith) (ground arith)

memory : HasMemory
memory = record {
  blocks = λ log. omega arith;
  strings = λ log s. omega arith;
  arrays = λ log. ([], refl);
}

boot-Boots_example :
    (k' : Kernel) × (boot 400 (record machine { runqueue = [] }) ≡ ok (tt, k'))
    × Boots lists_laws k'
boot-Boots_example = boot-Boots lists_laws memory 400 (record machine { runqueue = [] }) refl
