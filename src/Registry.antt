-- ===== src/Registry.antt =====
-- src/orchestrator/core/registry.ts: `ServiceRegistry`. What a service's `init` or `shutdown` does when it
-- is called is part of the service; the calls and the log come as a trace.
pub mod Order
pub mod Startup
pub mod Shutdown
mod Tests
use Prim.Native.String.{String}
use counter_terrorist.Common.{
  List, Map, Option, [], if◌then◌else◌, keys, leb, map, map_get, map_set, none, some, texts, ℕ,
  ◌++◌, ◌==◌, ◌∷◌,
}
use mathlib.Core.Option

-- A call returns a success, a failure with its message, or throws.
pub data Outcome : Type 0 where
  succeeds : Outcome
  reports throws : String → Outcome

-- The object's identity, and its methods where it has them.
pub record Service : Type 0 where
  pub id : ℕ
  pub init : Option Outcome
  pub shutdown : Option Outcome

-- `ShutdownPriority`: CRITICAL = 0, NETWORK = 1, AUXILIARY = 2, INTERFACE = 3.
pub data ShutdownPriority : Type 0 where
  critical network auxiliary interface : ShutdownPriority

unfoldable pub rank : ShutdownPriority → ℕ
rank critical = 0
rank network = 1
rank auxiliary = 2
rank interface = 3

pub record Entry : Type 0 where
  pub service : Service
  pub priority : ShutdownPriority

pub record Registry : Type 0 where
  pub services : Map Entry
  pub init_order : List String

pub data Severity : Type 0 where
  info warning error : Severity

pub data Step : Type 0 where
  called : String → Step
  logged : Severity → String → Step

unfoldable pub empty_registry : Registry
empty_registry = record { services = []; init_order = [] }

overwrites : String → Option Entry → Service → List Step
overwrites name none service = []
overwrites name (some existing) service =
    if existing.service.id == service.id
    then []
    else logged warning (
        texts (
          "Service '" ∷ name ∷ "' is already registered with a different instance. Overwriting."
          ∷ []))
      ∷ []

-- The names in the order of their registration, after one more.
unfoldable pub order_with : Option Entry → String → List String → List String
order_with none name order = order ++ name ∷ []
order_with (some existing) name order = order

-- `register`.
unfoldable pub register : String → Service → ShutdownPriority → Registry → Registry × List Step
unfolding overwrites order_with
register name service priority r =
    let entry : Entry = record { service = service; priority = priority } in
    let existing = map_get name r.services in
    (
      record {
        services = map_set name entry r.services;
        init_order = order_with existing name r.init_order;
      },
      overwrites name existing service,
    )

-- `getService` and `listServices`.
get_service : String → Registry → Option Service
get_service name r = Option.map (λ (e : Entry). e.service) (map_get name r.services)

list_services : Registry → List String
list_services r = keys r.services

-- The call of one service's `init`.
unfoldable pub init_steps : String → Outcome → List Step
init_steps name succeeds = called name ∷ []
init_steps name (reports e) =
    called name
    ∷ logged warning (texts ("Service '" ∷ name ∷ "' init non-critical failure: " ∷ e ∷ []))
    ∷ []
init_steps name (throws e) =
    called name
    ∷ logged error (texts ("Critical error initializing service '" ∷ name ∷ "': " ∷ e ∷ []))
    ∷ []

unfoldable pub init_if : String → Option Outcome → List Step
unfolding init_steps
init_if name none = []
init_if name (some outcome) = init_steps name outcome

unfoldable pub init_entry : String → Option Entry → List Step
unfolding init_if
init_entry name none = []
init_entry name (some e) = init_if name e.service.init

-- The loop of `initAll`.
unfoldable pub init_each : Map Entry → List String → List Step
unfolding init_entry
init_each services [] = []
init_each services (name ∷ names) =
    init_entry name (map_get name services) ++ init_each services names

-- `initAll`.
unfoldable pub init_all : Registry → List Step
unfolding init_each
init_all r = init_each r.services r.init_order

-- `sort` by falling priority, which keeps the order of equal ones.
unfoldable pub insert_entry : String × Entry → Map Entry → Map Entry
unfolding rank
insert_entry e [] = e ∷ []
insert_entry e (x ∷ xs) =
    let rest = insert_entry e xs in
    if leb (rank x.1.priority) (rank e.1.priority) then e ∷ x ∷ xs else x ∷ rest

unfoldable pub prioritized : Map Entry → Map Entry
unfolding insert_entry
prioritized [] = []
prioritized (e ∷ es) = insert_entry e (prioritized es)

-- The call of one service's `shutdown`: what it returns is not looked at.
unfoldable pub shutdown_steps : String → Outcome → List Step
shutdown_steps name succeeds =
    called name ∷ logged info (texts ("Service '" ∷ name ∷ "' shut down successfully." ∷ [])) ∷ []
shutdown_steps name (reports e) =
    called name ∷ logged info (texts ("Service '" ∷ name ∷ "' shut down successfully." ∷ [])) ∷ []
shutdown_steps name (throws e) =
    called name
    ∷ logged error (texts ("Error shutting down service '" ∷ name ∷ "': " ∷ e ∷ []))
    ∷ []

unfoldable pub shutdown_if : String → Option Outcome → List Step
unfolding shutdown_steps
shutdown_if name none = []
shutdown_if name (some outcome) = shutdown_steps name outcome

unfoldable pub shutdown_each : Map Entry → List Step
unfolding shutdown_if
shutdown_each [] = []
shutdown_each ((name, e) ∷ es) = shutdown_if name e.service.shutdown ++ shutdown_each es

-- `shutdownAll`.
unfoldable pub shutdown_all : Registry → Registry × List Step
unfolding prioritized shutdown_each empty_registry
shutdown_all r = (empty_registry, shutdown_each (prioritized r.services))
