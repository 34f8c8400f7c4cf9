-- ===== src/Registry/Shutdown.antt =====
-- The order of `shutdownAll`.
use Prim.Native.String.{String}
use counter_terrorist.Common.{
  All, All-mono, Bool-cases, List, Map, Option, [], arith, if◌then◌else◌, inl, inr, leb, leb→le,
  none, refl, some, ℕ, ◌++◌, ◌==◌, ◌∙◌, ◌∷◌, ◌≡◌, ◌≤◌,
}
use counter_terrorist.Registry.{
  Registry, Entry, Outcome, empty_registry, insert_entry, prioritized, rank, reports, shutdown_all,
  shutdown_each, shutdown_if, shutdown_steps, succeeds, throws,
}
use counter_terrorist.Registry.Startup.{calls, calls-append, push_if}

abbrev pub rank_of : String × Entry → ℕ
rank_of e = rank e.1.priority

-- No later service has a higher rank than an earlier one.
abbrev pub IsFalling : Map Entry → Type 0
IsFalling [] = Unit
IsFalling (e ∷ es) = All (λ x. rank_of x ≤ rank_of e) es × IsFalling es

-- The services of one rank, in their order.
abbrev pub of_rank : ℕ → Map Entry → Map Entry
of_rank k [] = []
of_rank k (e ∷ es) = if rank_of e == k then e ∷ of_rank k es else of_rank k es

-- The services with a `shutdown`.
abbrev pub stoppable : Map Entry → List String
stoppable [] = []
stoppable ((name, e) ∷ m) = push_if e.service.shutdown name (stoppable m)

insert_entry-All :
    (n : ℕ) (e : String × Entry) (es : Map Entry)
    → rank_of e ≤ n
    → All (λ x. rank_of x ≤ n) es
    → All (λ x. rank_of x ≤ n) (insert_entry e es)
unfolding insert_entry
insert_entry-All n e [] le h = (le, tt)
insert_entry-All n e (x ∷ xs) le (lx, h) =
    elim (Bool-cases (leb (rank x.1.priority) (rank e.1.priority))) [
      | inl here ↦ rw here (le, (lx, h))
      | inr later ↦ rw later (lx, insert_entry-All n e xs le h)
    ]

insert_entry-IsFalling :
    (e : String × Entry) (es : Map Entry) → IsFalling es → IsFalling (insert_entry e es)
unfolding insert_entry
insert_entry-IsFalling e [] h = (tt, tt)
insert_entry-IsFalling e (x ∷ xs) (top, h) =
    elim (Bool-cases (leb (rank x.1.priority) (rank e.1.priority))) [
      | inl here ↦
          let le = leb→le _ _ here in
          rw here ((le, All-mono _ _ (λ y ly. omega (arith, ly, le)) xs top), (top, h))
      | inr later ↦
          let gt : rank e.1.priority ≤ rank x.1.priority = ground arith in
          rw later (insert_entry-All _ e xs gt top, insert_entry-IsFalling e xs h)
    ]

prioritized-IsFalling : (es : Map Entry) → IsFalling (prioritized es)
unfolding prioritized
prioritized-IsFalling [] = tt
prioritized-IsFalling (e ∷ es) =
    insert_entry-IsFalling e (prioritized es) (prioritized-IsFalling es)

of_rank-insert_entry :
    (k : ℕ) (e : String × Entry) (es : Map Entry)
    → of_rank k (insert_entry e es) ≡ of_rank k (e ∷ es)
unfolding insert_entry
of_rank-insert_entry k e [] = refl
of_rank-insert_entry k e (x ∷ xs) =
    elim (Bool-cases (leb (rank x.1.priority) (rank e.1.priority))) [
      | inl here ↦ rw here refl
      | inr later ↦ rw later (rw (of_rank-insert_entry k e xs) (ground arith))
    ]

of_rank-prioritized : (k : ℕ) (es : Map Entry) → of_rank k (prioritized es) ≡ of_rank k es
unfolding prioritized
of_rank-prioritized k [] = refl
of_rank-prioritized k (e ∷ es) =
    of_rank-insert_entry k e (prioritized es) ∙ rw (of_rank-prioritized k es) refl

calls-shutdown_if :
    (name : String) (i : Option Outcome) (names : List String)
    → calls (shutdown_if name i) ++ names ≡ push_if i name names
unfolding shutdown_if shutdown_steps
calls-shutdown_if name none names = refl
calls-shutdown_if name (some succeeds) names = refl
calls-shutdown_if name (some (reports e)) names = refl
calls-shutdown_if name (some (throws e)) names = refl

calls-shutdown_each : (es : Map Entry) → calls (shutdown_each es) ≡ stoppable es
unfolding shutdown_each
calls-shutdown_each [] = refl
calls-shutdown_each ((name, e) ∷ es) =
    calls-append (shutdown_if name e.service.shutdown) (shutdown_each es)
    ∙ rw (calls-shutdown_each es) (calls-shutdown_if name e.service.shutdown (stoppable es))

-- `shutdownAll` calls the `shutdown` of each service that has one, whatever the calls before it do:
-- the services of a higher rank first, those of one rank in the order of their registration; and it
-- leaves an empty registry.
pub shutdown_all-calls :
    (r : Registry)
    → (calls (shutdown_all r).1 ≡ stoppable (prioritized r.services))
      × IsFalling (prioritized r.services)
      × ((k : ℕ) → of_rank k (prioritized r.services) ≡ of_rank k r.services)
      × ((shutdown_all r).0 ≡ empty_registry)
unfolding shutdown_all
shutdown_all-calls r = (
  calls-shutdown_each (prioritized r.services),
  prioritized-IsFalling r.services,
  (λ k. of_rank-prioritized k r.services),
  refl,
)
