-- ===== src/ShadowBan.antt =====
-- src/orchestrator/domain/protection/shadow_ban.ts: `applyShadowBan` and `liftShadowBan`. `execute` stands
-- for the `execute` of the system executor, and the commands that it ran with success are part of the
-- state, as are the addresses with which it called `logEvent` (whose exception, if it throws, is caught and
-- undoes nothing).
pub mod Lift
mod Tests
use Prim.Native.String.{String}
use counter_terrorist.Common.{
  Bool, List, Option, [], false, has_key, if◌then◌else◌, none, some, string_eq, true, ◌++◌, ◌===◌,
  ◌∷◌,
}

-- The commands of `tc`.
pub data TcCommand : Type 0 where
  add_qdisc : String → TcCommand
  add_class : String → TcCommand
  add_filter : String → String → TcCommand

-- What a call of the executor does: it returns its `success`, or it throws.
pub data CommandOutcome : Type 0 where
  returned : Bool → CommandOutcome
  thrown : CommandOutcome

pub record ShadowBans : Type 0 where
  pub throttled_ips : List String
  pub interface : String
  pub executed : List TcCommand
  pub banned_events : List String

unfoldable pub new_shadow_bans : ShadowBans
new_shadow_bans = record {
  throttled_ips = [];
  interface = "eth0";
  executed = [];
  banned_events = [];
}

-- The interface that `detectInterface` finds in the output of `ip route`, where it finds one.
unfoldable pub detect_interface : Option String → ShadowBans → ShadowBans
detect_interface none s = s
detect_interface (some name) s = record s { interface = name }

unfoldable pub record_run : CommandOutcome → TcCommand → ShadowBans → ShadowBans
record_run (returned true) c s = record s { executed = s.executed ++ c ∷ [] }
record_run (returned false) c s = s
record_run thrown c s = s

-- A command whose outcome is ignored.
unfoldable pub try_command : (TcCommand → CommandOutcome) → TcCommand → ShadowBans → ShadowBans
unfolding record_run
try_command execute c s = record_run (execute c) c s

-- What follows a filter command that does not throw.
unfoldable pub record_ban : CommandOutcome → String → ShadowBans → ShadowBans
record_ban (returned success) ip s = record s {
  throttled_ips = s.throttled_ips ++ ip ∷ [];
  banned_events = s.banned_events ++ ip ∷ [];
}
record_ban thrown ip s = s

unfoldable pub install_filter : (TcCommand → CommandOutcome) → String → ShadowBans → ShadowBans
unfolding record_ban try_command
install_filter execute ip s =
    let c = add_filter s.interface ip in record_ban (execute c) ip (try_command execute c s)

-- `applyShadowBan`.
unfoldable pub apply_shadow_ban : (TcCommand → CommandOutcome) → String → ShadowBans → ShadowBans
unfolding try_command install_filter
apply_shadow_ban execute ip s =
    if has_key ip s.throttled_ips
    then s
    else install_filter execute ip (
        try_command execute (add_class s.interface) (try_command execute (add_qdisc s.interface) s))

-- `delete` of the set.
unfoldable pub remove_ip : String → List String → List String
remove_ip ip [] = []
remove_ip ip (i ∷ ips) = let rest = remove_ip ip ips in if i === ip then rest else i ∷ rest

-- `liftShadowBan`.
unfoldable pub lift_shadow_ban : String → ShadowBans → ShadowBans
unfolding remove_ip
lift_shadow_ban ip s = record s { throttled_ips = remove_ip ip s.throttled_ips }
