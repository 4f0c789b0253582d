-- ===== src/Clients/Connection.antt =====
-- How a turn of a connection's loop in src/server_backends/ leaves the loop.
use devicectrl_server.Deps.{Deps}
use devicectrl_server.App.{Action, pure}

-- An open connection goes on; `leave` is a `return Ok(())`.
pub data Flow : Type 0 where
  go_on leave : Flow

module _ ⦃d : Deps⦄ where
  -- what is left to do after a turn
  abbrev pub carry_on : Flow → Action Flow → Action Flow
  carry_on go_on rest = rest
  carry_on leave rest = pure leave
