-- ===== src/Tasks/Tests.antt =====
-- Two tasks, one scheduled twice.
use counter_terrorist.Common.{[], refl, string_eq, ◌∷◌, ◌≡◌}
use counter_terrorist.Tasks.{Manager, clear_interval, clear_known, new_manager, schedule}
use counter_terrorist.Tasks.Timers.{Reach, scheduled, start}

unfoldable program : Manager
unfolding schedule new_manager
program = (schedule "a" (schedule "b" (schedule "a" new_manager).0).0).0

reached : Reach program
unfolding program
reached = scheduled "a" (scheduled "b" (scheduled "a" start))

live_test : program.live ≡ 3 ∷ 2 ∷ []
unfolding program schedule new_manager clear_known clear_interval
live_test = refl
