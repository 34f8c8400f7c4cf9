-- ===== src/Registry/Tests.antt =====
-- Three services.
use counter_terrorist.Common.{[], refl, some, string_eq, ℕ, ◌∷◌, ◌≡◌}
use counter_terrorist.Registry.{
  Registry, Service, critical, empty_registry, init_all, insert_entry, network, order_with,
  prioritized, rank, register, shutdown_all, shutdown_each, shutdown_if, shutdown_steps, succeeds,
  throws,
}
use counter_terrorist.Registry.Order.{Reach, start, register_in}
use counter_terrorist.Registry.Startup.{init_all-calls, calls, startable}
use counter_terrorist.Registry.Shutdown.{shutdown_all-calls, IsFalling, of_rank, stoppable}

abbrev sound : ℕ → Service
sound id = record { id = id; init = some succeeds; shutdown = some succeeds }

abbrev broken : ℕ → Service
broken id = record { id = id; init = some (throws "x"); shutdown = some (throws "y") }

unfoldable program : Registry
unfolding empty_registry register
program =
    (register "mesh" (sound 2) network (register "audit" (broken 1) critical empty_registry).0).0

reached : Reach program
unfolding program
reached = register_in "mesh" (sound 2) network (register_in "audit" (broken 1) critical start)

init_all-calls_example : calls (init_all program) ≡ startable program.services
init_all-calls_example = init_all-calls reached

shutdown_all-calls_example :
    (calls (shutdown_all program).1 ≡ stoppable (prioritized program.services))
    × IsFalling (prioritized program.services)
    × ((k : ℕ) → of_rank k (prioritized program.services) ≡ of_rank k program.services)
    × ((shutdown_all program).0 ≡ empty_registry)
shutdown_all-calls_example = shutdown_all-calls program

stops_test : calls (shutdown_all program).1 ≡ "mesh" ∷ "audit" ∷ []
unfolding program shutdown_all prioritized insert_entry rank shutdown_each shutdown_if
    shutdown_steps register empty_registry order_with
stops_test = refl
