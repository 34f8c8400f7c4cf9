-- ===== src/Registry/Startup.antt =====
-- What `initAll` calls.
use Prim.Native.String.{String}
use counter_terrorist.Common.{
  ===_refl, All, IsDistinct, List, Map, Option, [], ap, arith, false, has_key, keys, map_get, none,
  refl, some, string_eq, ◌++◌, ◌===◌, ◌∙◌, ◌∷◌, ◌≡◌,
}
use counter_terrorist.Registry.{
  Registry, Entry, Outcome, Step, called, init_all, init_each, init_entry, init_steps, logged,
  reports, succeeds, throws, init_if,
}
use counter_terrorist.Registry.Order.{Reach, Reach-IsOrdered, ===_sym_other}

-- The calls among the steps.
abbrev pub calls : List Step → List String
calls [] = []
calls (called name ∷ steps) = name ∷ calls steps
calls (logged severity message ∷ steps) = calls steps

abbrev pub push_if : Option Outcome → String → List String → List String
push_if none name names = names
push_if (some outcome) name names = name ∷ names

-- The services with an `init`, as they are registered.
abbrev pub startable : Map Entry → List String
startable [] = []
startable ((name, e) ∷ m) = push_if e.service.init name (startable m)

pub calls-append : (s t : List Step) → calls (s ++ t) ≡ calls s ++ calls t
calls-append [] t = refl
calls-append (called name ∷ s) t = ap (λ l. name ∷ l) (calls-append s t)
calls-append (logged severity message ∷ s) t = calls-append s t

calls-init_steps : (name : String) (o : Outcome) → calls (init_steps name o) ≡ name ∷ []
unfolding init_steps
calls-init_steps name succeeds = refl
calls-init_steps name (reports e) = refl
calls-init_steps name (throws e) = refl

calls-init_if :
    (name : String) (i : Option Outcome) (names : List String)
    → calls (init_if name i) ++ names ≡ push_if i name names
unfolding init_if
calls-init_if name none names = refl
calls-init_if name (some o) names = rw (calls-init_steps name o) refl

-- Each entry is what its name finds.
abbrev Finds : Map Entry → Map Entry → Type 0
Finds m part = All (λ (p : String × Entry). map_get p.0 m ≡ some p.1) part

Finds-cons :
    (k : String) (e : Entry) (m part : Map Entry)
    → has_key k (keys part) ≡ false
    → Finds m part
    → Finds ((k, e) ∷ m) part
Finds-cons k e m [] h f = tt
Finds-cons k e m ((l, x) ∷ part) h (here, f) =
    let n : (l === k) ≡ false = ground arith in
    (rw (===_sym_other l k n) here, Finds-cons k e m part (ground arith) f)

Finds-self : (m : Map Entry) → IsDistinct (keys m) → Finds m m
Finds-self [] h = tt
Finds-self ((k, e) ∷ m) (new, h) = (rw (===_refl k) refl, Finds-cons k e m m new (Finds-self m h))

calls-init_each :
    (m part : Map Entry) → Finds m part → calls (init_each m (keys part)) ≡ startable part
unfolding init_each init_entry
calls-init_each m [] f = refl
calls-init_each m ((k, e) ∷ part) (here, f) = rw here (
    calls-append (init_if k e.service.init) (init_each m (keys part))
    ∙ rw (calls-init_each m part f) (calls-init_if k e.service.init (startable part)))

all_found :
    (m : Map Entry) (order : List String)
    → order ≡ keys m
    → IsDistinct order
    → calls (init_each m order) ≡ startable m
all_found m order same distinct = rw same (calls-init_each m m (Finds-self m (rw same at distinct)))

-- In a registry made by registrations, `initAll` calls the `init` of each registered service that
-- has one, once each and in the order in which the names were registered first, whatever the calls
-- before it return or throw.
pub init_all-calls : {r : Registry} → Reach r → calls (init_all r) ≡ startable r.services
unfolding init_all
init_all-calls {r} reach =
    let (same, distinct) = Reach-IsOrdered reach in all_found r.services r.init_order same distinct
