-- ===== src/Tasks/Quiet.antt =====
-- Futures of which no turn reports a device's state: they leave the registry alone.
use devicectrl_server.Deps.{Deps}
use devicectrl_server.App.Emits.{
  is_command, is_internal, is_unreported, is_internal-Implies, is_command-Implies,
}
use devicectrl_server.Tasks.{Task}
use devicectrl_server.Tasks.Keeps.{TurnsEmit, TurnsEmit-wider}

module _ ⦃d : Deps⦄ where
  -- turns that report no device's state
  abbrev pub IsQuiet : Task → Type 0
  IsQuiet task = TurnsEmit is_unreported task

  pub internal-IsQuiet : (task : Task) → TurnsEmit is_internal task → IsQuiet task
  internal-IsQuiet task h = TurnsEmit-wider is_internal is_unreported task is_internal-Implies h

  pub command-IsQuiet : (task : Task) → TurnsEmit is_command task → IsQuiet task
  command-IsQuiet task h =
      internal-IsQuiet task (TurnsEmit-wider is_command is_internal task is_command-Implies h)
