-- ===== src/Vpn/Tests.antt =====
-- The kill switch and the permissions at concrete histories.
use ppvda.Base.{true, false, none, List, [], ◌∷◌, ◌≡◌, refl, ◌↔◌, ◌⊎◌}
use ppvda.Base.Text.{codes}
use ppvda.Vpn.Health.{is_vpn_healthy, is_vpn_kill_switch_enabled, body, includes}
use ppvda.Vpn.Health.Fresh.{
  Event, begins, concludes, routing_tick, interface_tick, run, IsConfirmed, is_vpn_healthy-run_iff,
}
use ppvda.Vpn.Permissions.{off}
use ppvda.Vpn.Permissions.Laws.{Change, grants, revokes, defaults}

abbrev started : List Event
started =
    interface_tick none 20_000
    ∷ concludes
    ∷ routing_tick (body (codes "You are connected")) 900
    ∷ interface_tick none 100
    ∷ begins
    ∷ []

fresh_passes : is_vpn_healthy (run started) false 34_999 ≡ true
unfolding run is_vpn_healthy includes
fresh_passes = refl

-- A start holds requests back until its first checks are done.
checking_blocks : is_vpn_healthy (run (interface_tick none 100 ∷ begins ∷ [])) false 101 ≡ false
unfolding run is_vpn_healthy
checking_blocks = refl

stale_blocks : is_vpn_healthy (run started) false 35_000 ≡ false
unfolding run is_vpn_healthy includes
stale_blocks = refl

is_vpn_healthy-run_iff_example :
    (is_vpn_healthy (run started) false 30_000 ≡ true)
    ↔ ((is_vpn_kill_switch_enabled (run started) ≡ false) ⊎ IsConfirmed started false 30_000)
is_vpn_healthy-run_iff_example = is_vpn_healthy-run_iff started false 30_000

abbrev changes : List Change
changes = revokes "b" ∷ defaults off ∷ grants "b" ∷ grants "a" ∷ []
