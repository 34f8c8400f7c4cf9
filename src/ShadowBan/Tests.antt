-- ===== src/ShadowBan/Tests.antt =====
-- An address that is banned, let go and banned again.
use counter_terrorist.Common.{[], false, has_key, refl, some, string_eq, true, ◌++◌, ◌+◌, ◌∷◌, ◌≡◌}
use counter_terrorist.ShadowBan.{
  ShadowBans, TcCommand, add_class, add_filter, add_qdisc, apply_shadow_ban, detect_interface,
  install_filter, lift_shadow_ban, new_shadow_bans, try_command, CommandOutcome, record_ban,
  record_run, returned,
}
use counter_terrorist.ShadowBan.Lift.{lift_shadow_ban-filters, filters_of, added}

abbrev run_all : TcCommand → CommandOutcome
run_all c = returned true

abbrev refuse_all : TcCommand → CommandOutcome
refuse_all c = returned false

abbrev bans : ShadowBans
bans = detect_interface (some "wlan0") new_shadow_bans

bans_test :
    (apply_shadow_ban run_all "10.0.0.9" bans).executed
    ≡ add_qdisc "wlan0" ∷ add_class "wlan0" ∷ add_filter "wlan0" "10.0.0.9" ∷ []
unfolding apply_shadow_ban try_command record_run record_ban install_filter detect_interface
    new_shadow_bans
bans_test = refl

-- A ban whose commands all fail is recorded as one.
failed_ban_test : (apply_shadow_ban refuse_all "10.0.0.9" bans).throttled_ips ≡ "10.0.0.9" ∷ []
unfolding apply_shadow_ban try_command record_run record_ban install_filter detect_interface
    new_shadow_bans
failed_ban_test = refl

lift_shadow_ban-filters_example :
    let once = apply_shadow_ban refuse_all "10.0.0.9" bans in
    let lifted = lift_shadow_ban "10.0.0.9" once in
    (has_key "10.0.0.9" once.throttled_ips ≡ true)
    × (once.banned_events ≡ bans.banned_events ++ "10.0.0.9" ∷ [])
    × (apply_shadow_ban refuse_all "10.0.0.9" once ≡ once)
    × (filters_of "10.0.0.9" once.executed ≡ filters_of "10.0.0.9" bans.executed + added false)
    × (has_key "10.0.0.9" lifted.throttled_ips ≡ false)
    × (filters_of "10.0.0.9" lifted.executed ≡ filters_of "10.0.0.9" bans.executed + added false)
    × (filters_of "10.0.0.9" (apply_shadow_ban refuse_all "10.0.0.9" lifted).executed
        ≡ filters_of "10.0.0.9" bans.executed + added false + added false)
unfolding detect_interface new_shadow_bans
lift_shadow_ban-filters_example = lift_shadow_ban-filters refuse_all "10.0.0.9" false bans refl refl
