-- ===== src/Canonical/Equality.antt =====
-- Equality of JSON values is decided.
use Prim.Native.String.{String}
use counter_terrorist.Common.{===_cases, inl, inr, string_eq}
use counter_terrorist.Canonical.{Json}

Text-discrete : Discrete String
Text-discrete s t = elim (===_cases ⦃e = string_eq⦄ s t) [ inl e ↦ yes e | inr e ↦ no e ]

pub Json-discrete : Discrete Json
Json-discrete = hlevel Text-discrete
