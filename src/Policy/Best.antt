-- ===== src/Policy/Best.antt =====
-- Which rule `PolicyDSL.evaluate` chooses.
use Prim.Native.String.{String}
use counter_terrorist.Common.{
  All, All-append, All-mono, Bool, Bool-cases, List, Option, [], ap, arith, false, if◌then◌else◌,
  inl, inr, leb, leb→le, none, refl, some, true, ◌++◌, ◌<◌, ◌∷◌, ◌≡◌, ◌≤◌, ◌⊎◌,
}
use counter_terrorist.Policy.{
  Rule, Facts, evaluate, evaluate_rule, first, insert_rule, matching, sort_rules,
}

module _ (test_regex : String → String → Option Bool) (facts : Facts) where
  abbrev pub Matches : Rule → Type 0
  Matches r = evaluate_rule test_regex r facts ≡ some true

  abbrev pub Fails : Rule → Type 0
  Fails r = evaluate_rule test_regex r facts ≡ some false

  -- The rule matches, each matching rule above it in the list has a lower priority, and each below
  -- it one that is not higher.
  pub record IsBest (rules : List Rule) (r : Rule) : Type 0 where
    pub above : List Rule
    pub below : List Rule
    pub place : rules ≡ above ++ r ∷ below
    pub fits : Matches r
    pub lower : All (λ (s : Rule). Fails s ⊎ (s.priority < r.priority)) above
    pub not_higher : All (λ (s : Rule). Fails s ⊎ (s.priority ≤ r.priority)) below

  abbrev pub IsChoice : List Rule → Option Rule → Type 0
  IsChoice rules none = All Fails rules
  IsChoice rules (some r) = IsBest rules r

  -- A rule that no other beats leaves none of them higher.
  dominated :
      (rules : List Rule) (r s : Rule)
      → IsBest rules s
      → s.priority ≤ r.priority
      → All (λ (t : Rule). Fails t ⊎ (t.priority ≤ r.priority)) rules
  dominated rules r s b h = rw b.place (
      All-append _ b.above (s ∷ b.below)
        (All-mono _ _ (λ t. elim [ inl f ↦ inl f | inr lt ↦ inr (omega (arith, h)) ]) b.above
          b.lower)
        (
          inr h,
          All-mono _ _ (λ t. elim [ inl f ↦ inl f | inr le ↦ inr (omega (arith, h)) ]) b.below
              b.not_higher,
        ))

  choose_matching :
      (r : Rule) (rules ms : List Rule)
      → Matches r
      → IsChoice rules (first ms)
      → IsChoice (r ∷ rules) (first (insert_rule r ms))
  unfolding insert_rule
  choose_matching r rules [] fits h = record {
    above = [];
    below = rules;
    place = refl;
    fits = fits;
    lower = tt;
    not_higher = All-mono _ _ (λ t f. inl f) rules h;
  }
  choose_matching r rules (s ∷ ms) fits h = elim (Bool-cases (leb s.priority r.priority)) [
    | inl le ↦ rw le (record {
      above = [];
      below = rules;
      place = refl;
      fits = fits;
      lower = tt;
      not_higher = dominated rules r s h (leb→le _ _ le);
    })
    | inr lt ↦ rw lt (record {
      above = r ∷ h.above;
      below = h.below;
      place = ap (λ l. r ∷ l) h.place;
      fits = h.fits;
      lower = (inr (ground arith), h.lower);
      not_higher = h.not_higher;
    })
  ]

  choose_failing :
      (r : Rule) (rules : List Rule) (o : Option Rule)
      → Fails r
      → IsChoice rules o
      → IsChoice (r ∷ rules) o
  choose_failing r rules none f h = (f, h)
  choose_failing r rules (some s) f h = record {
    above = r ∷ h.above;
    below = h.below;
    place = ap (λ l. r ∷ l) h.place;
    fits = h.fits;
    lower = (inl f, h.lower);
    not_higher = h.not_higher;
  }

  matching_cons :
      (r : Rule) (rules ms : List Rule)
      → matching test_regex (r ∷ rules) facts ≡ some ms
      → (b : Bool) × (rest : List Rule) × (evaluate_rule test_regex r facts ≡ some b)
        × (matching test_regex rules facts ≡ some rest)
        × (ms ≡ (if b then r ∷ rest else rest))
  unfolding matching
  matching_cons r rules ms h =
      split (evaluate_rule test_regex r facts) refl (matching test_regex rules facts) refl
    where
      split :
          (o : Option Bool)
          → evaluate_rule test_regex r facts ≡ o
          → (q : Option (List Rule)) → matching test_regex rules facts ≡ q
          → (b : Bool) × (rest : List Rule) × (evaluate_rule test_regex r facts ≡ some b)
            × (matching test_regex rules facts ≡ some rest)
            × (ms ≡ (if b then r ∷ rest else rest))
      split none e q f = absurd (ground arith)
      split (some b) e none f = absurd (ground arith)
      split (some b) e (some rest) f = (b, rest, e, f, ground arith)

  choose :
      (rules ms : List Rule)
      → matching test_regex rules facts ≡ some ms
      → IsChoice rules (first (sort_rules ms))
  unfolding matching sort_rules
  choose [] ms h = let e : [] ≡ ms = cc in rw (← e) tt
  choose (r ∷ rules) ms h =
      let (b, rest, here, later, e) = matching_cons r rules ms h in
      rw e (by_test r rules rest b here (choose rules rest later))
    where
      by_test :
          (r : Rule) (rules rest : List Rule) (b : Bool)
          → evaluate_rule test_regex r facts ≡ some b
          → IsChoice rules (first (sort_rules rest))
          → IsChoice (r ∷ rules) (first (sort_rules (if b then r ∷ rest else rest)))
      by_test r rules rest true e h = choose_matching r rules (sort_rules rest) e h
      by_test r rules rest false e h = choose_failing r rules _ e h

  -- What `PolicyDSL.evaluate` returns, where no condition throws: the first of the matching rules
  -- with the highest priority, or nothing if no rule matches.
  pub evaluate-IsChoice :
      (rules : List Rule) (choice : Option Rule)
      → evaluate test_regex rules facts ≡ some choice
      → IsChoice rules choice
  unfolding evaluate
  evaluate-IsChoice rules choice h = split (matching test_regex rules facts) refl
    where
      split : (q : Option (List Rule)) → matching test_regex rules facts ≡ q → IsChoice rules choice
      split none e = absurd (ground arith)
      split (some ms) e =
          let same : first (sort_rules ms) ≡ choice = ground arith in
          rw (← same) (choose rules ms e)
