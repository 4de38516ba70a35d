-- ===== src/Tests/Engine.antt =====
-- Examples for the tunnel's loop.
use sshcustom_vpnchain.Base.{◌≡◌, refl, true, false, ◌||◌, none, List, [], ◌∷◌, codes}
use sshcustom_vpnchain.Base.Res.{ok, err}
use sshcustom_vpnchain.Engine.Loop.{
  Loop, Round, Input, timer, client_ends, receive, cancel, see_cancel, advance, after, run, start,
  draining,
}
use sshcustom_vpnchain.Engine.Loop.Stuck.{loop_hangs}
use sshcustom_vpnchain.Engine.Loop.Returns.{run_returned}
use sshcustom_vpnchain.Base.{is_some, false}
use sshcustom_vpnchain.Tests.Data.{a_config, a_state, online_route, a_probe}
use sshcustom_vpnchain.Base.{◌||◌}
use sshcustom_vpnchain.Engine.Loop.Stuck.{IsShown}
use sshcustom_vpnchain.Engine.Loop.{clear_client, stop_over, sleeping}

-- A round that connects with client 4, and one that fails.
abbrev good : Round
good = record {
  cfg = a_config;
  route = online_route;
  auth = ok 4;
  probe = a_probe;
  script_error = none;
}

abbrev bad : Round
bad = record good { auth = err (codes "timeout") }

abbrev connection_lost : List Input
connection_lost = timer good ∷ client_ends none ∷ []

abbrev taken : Loop
taken =
    after (run (start a_state) connection_lost)
      (advance (run (start a_state) connection_lost) receive)

-- The tunnel is stopped while the loop hangs.
loop_hangs_example :
    let there = run taken (timer good ∷ cancel ∷ clear_client ∷ stop_over ∷ []) in
    (there.phase ≡ draining 4)
    × (advance there receive ≡ none)
    × (advance there see_cancel ≡ none)
    × (advance there (timer good) ≡ none)
    × (there.closed ≡ (run (start a_state) connection_lost).closed)
    × IsShown there.cancelled there.st
unfolding run advance
loop_hangs_example =
    loop_hangs a_state connection_lost (timer good ∷ cancel ∷ clear_client ∷ stop_over ∷ []) 4 good
      refl none refl

-- A loop that sleeps between two connections, with its listeners and rules up.
abbrev between : Loop
between = record (run (start a_state) (timer good ∷ [])) { phase = sleeping; client = none }

abbrev stopped : List Input
stopped = timer good ∷ cancel ∷ see_cancel ∷ []

run_returned_example :
    ((run (start a_state) stopped).cancelled ≡ true)
    × ((run (start a_state) stopped).listeners_up ≡ false)
    × (is_some (run (start a_state) stopped).client ≡ false)
unfolding run advance
run_returned_example = run_returned a_state stopped refl refl
