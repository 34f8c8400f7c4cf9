-- ===== src/ShadowBan/Lift.antt =====
-- A shadow ban whose command succeeds or fails, and what is left of it once it is lifted.
use counter_terrorist.ShadowBan.{
  ShadowBans, CommandOutcome, TcCommand, add_class, add_filter, add_qdisc, apply_shadow_ban,
  install_filter, lift_shadow_ban, record_ban, record_run, remove_ip, returned, thrown, try_command,
}
use Prim.Native.String.{String}
use counter_terrorist.Common.{
  Bool, Bool-cases, List, [], ap, arith, false, has_key, if◌then◌else◌, inl, inr, refl, string_eq,
  true, ℕ, ◌++◌, ◌+◌, ◌===◌, ◌||◌, ◌∙◌, ◌∷◌, ◌≡◌,
}

-- The number of the filters of an address.
unfoldable pub filters_of : String → List TcCommand → ℕ
filters_of ip [] = 0
filters_of ip (add_filter dev i ∷ cs) =
    let rest = filters_of ip cs in if i === ip then rest + 1 else rest
filters_of ip (add_qdisc dev ∷ cs) = filters_of ip cs
filters_of ip (add_class dev ∷ cs) = filters_of ip cs

pub filters_of-append :
    (ip : String) (cs ds : List TcCommand)
    → filters_of ip (cs ++ ds) ≡ filters_of ip cs + filters_of ip ds
unfolding filters_of
filters_of-append ip [] ds = omega arith
filters_of-append ip (add_qdisc dev ∷ cs) ds = filters_of-append ip cs ds
filters_of-append ip (add_class dev ∷ cs) ds = filters_of-append ip cs ds
filters_of-append ip (add_filter dev i ∷ cs) ds = elim (Bool-cases (i === ip)) [
  | inl e ↦ rw e (let h = filters_of-append ip cs ds in omega (arith, h))
  | inr e ↦ rw e (filters_of-append ip cs ds)
]

has_key-remove_ip : (ip : String) (ips : List String) → has_key ip (remove_ip ip ips) ≡ false
unfolding remove_ip
has_key-remove_ip ip [] = refl
has_key-remove_ip ip (i ∷ ips) = elim (Bool-cases (i === ip)) [
  | inl e ↦ rw e (has_key-remove_ip ip ips)
  | inr e ↦ rw e (rw (e, has_key-remove_ip ip ips) refl)
]

has_key-append_last : (ip : String) (ips : List String) → has_key ip (ips ++ ip ∷ []) ≡ true
has_key-append_last ip [] = rw ((string_eq.same_iff ip ip).1 refl) refl
has_key-append_last ip (i ∷ ips) =
    or_true (i === ip) (has_key ip (ips ++ ip ∷ [])) (has_key-append_last ip ips)
  where
    or_true : (p q : Bool) → q ≡ true → (p || q) ≡ true
    or_true p q h = ground arith

-- A command that adds no filter.
try_command-keeps :
    (execute : TcCommand → CommandOutcome) (ip : String) (c : TcCommand) (s : ShadowBans)
    → filters_of ip (c ∷ []) ≡ 0
    → (filters_of ip (try_command execute c s).executed ≡ filters_of ip s.executed)
      × ((try_command execute c s).interface ≡ s.interface)
      × ((try_command execute c s).throttled_ips ≡ s.throttled_ips)
      × ((try_command execute c s).banned_events ≡ s.banned_events)
unfolding try_command record_run
try_command-keeps execute ip c s h = ran (execute c)
  where
    ran :
        (o : CommandOutcome)
        → (filters_of ip (record_run o c s).executed ≡ filters_of ip s.executed)
          × ((record_run o c s).interface ≡ s.interface)
          × ((record_run o c s).throttled_ips ≡ s.throttled_ips)
          × ((record_run o c s).banned_events ≡ s.banned_events)
    ran (returned true) =
        (let g = filters_of-append ip s.executed (c ∷ []) in omega (arith, g, h), refl, refl, refl)
    ran (returned false) = (refl, refl, refl, refl)
    ran thrown = (refl, refl, refl, refl)

-- The filters that a command adds.
unfoldable pub added : Bool → ℕ
added true = 1
added false = 0

install_filter-adds :
    (execute : TcCommand → CommandOutcome) (ip : String) (success : Bool) (s : ShadowBans)
    → execute (add_filter s.interface ip) ≡ returned success
    → (filters_of ip (install_filter execute ip s).executed
        ≡ filters_of ip s.executed + added success)
      × ((install_filter execute ip s).interface ≡ s.interface)
      × (has_key ip (install_filter execute ip s).throttled_ips ≡ true)
      × ((install_filter execute ip s).banned_events ≡ s.banned_events ++ ip ∷ [])
unfolding install_filter record_ban try_command record_run filters_of added
install_filter-adds execute ip true s h =
    let one : filters_of ip (add_filter s.interface ip ∷ []) ≡ 1 =
      rw ((string_eq.same_iff ip ip).1 refl) refl in
    rw h (
      let g = filters_of-append ip s.executed (add_filter s.interface ip ∷ []) in
          omega (arith, g, one),
      refl,
      has_key-append_last ip s.throttled_ips,
      refl,
    )
install_filter-adds execute ip false s h =
    rw h (omega arith, refl, has_key-append_last ip s.throttled_ips, refl)

apply_shadow_ban-adds :
    (execute : TcCommand → CommandOutcome) (ip : String) (success : Bool) (s : ShadowBans)
    → has_key ip s.throttled_ips ≡ false
    → execute (add_filter s.interface ip) ≡ returned success
    → (filters_of ip (apply_shadow_ban execute ip s).executed
        ≡ filters_of ip s.executed + added success)
      × ((apply_shadow_ban execute ip s).interface ≡ s.interface)
      × (has_key ip (apply_shadow_ban execute ip s).throttled_ips ≡ true)
      × ((apply_shadow_ban execute ip s).banned_events ≡ s.banned_events ++ ip ∷ [])
unfolding apply_shadow_ban filters_of
apply_shadow_ban-adds execute ip success s fresh result =
    let t = try_command execute (add_qdisc s.interface) s in
    let u = try_command execute (add_class s.interface) t in
    let (same_t, dev_t, _, events_t) =
      try_command-keeps execute ip (add_qdisc s.interface) s refl in
    let (same_u, dev_u, _, events_u) =
      try_command-keeps execute ip (add_class s.interface) t refl in
    let dev : u.interface ≡ s.interface = dev_u ∙ dev_t in
    let (more, dev_v, banned, events) =
      install_filter-adds execute ip success u (ap (λ d. execute (add_filter d ip)) dev ∙ result) in
    rw fresh (
      omega (arith, more, same_u, same_t),
      dev_v ∙ dev,
      banned,
      events ∙ ap (λ l. l ++ ip ∷ []) (events_u ∙ events_t),
    )

apply_shadow_ban_twice :
    (execute : TcCommand → CommandOutcome) (ip : String) (s : ShadowBans)
    → has_key ip s.throttled_ips ≡ true
    → apply_shadow_ban execute ip s ≡ s
unfolding apply_shadow_ban
apply_shadow_ban_twice execute ip s banned = rw banned refl

-- Where the filter command of an address that is not throttled does not throw, `applyShadowBan` records
-- the ban and later calls change nothing, whether or not the command succeeded; the filter is there only
-- if it did. `liftShadowBan` takes the address out of the set and leaves the filter, and with the next
-- `applyShadowBan` there are two.
pub lift_shadow_ban-filters :
    (execute : TcCommand → CommandOutcome) (ip : String) (success : Bool) (s : ShadowBans)
    → has_key ip s.throttled_ips ≡ false
    → execute (add_filter s.interface ip) ≡ returned success
    → let once = apply_shadow_ban execute ip s in
      let lifted = lift_shadow_ban ip once in
      (has_key ip once.throttled_ips ≡ true)
      × (once.banned_events ≡ s.banned_events ++ ip ∷ [])
      × (apply_shadow_ban execute ip once ≡ once)
      × (filters_of ip once.executed ≡ filters_of ip s.executed + added success)
      × (has_key ip lifted.throttled_ips ≡ false)
      × (filters_of ip lifted.executed ≡ filters_of ip s.executed + added success)
      × (filters_of ip (apply_shadow_ban execute ip lifted).executed
          ≡ filters_of ip s.executed + added success + added success)
unfolding lift_shadow_ban
lift_shadow_ban-filters execute ip success s fresh result =
    let (more, dev, banned, events) = apply_shadow_ban-adds execute ip success s fresh result in
    let once = apply_shadow_ban execute ip s in
    let gone = has_key-remove_ip ip once.throttled_ips in
    let (again, _, _, _) =
      apply_shadow_ban-adds execute ip success (lift_shadow_ban ip once) gone
        (ap (λ d. execute (add_filter d ip)) dev ∙ result) in
    (
      banned,
      events,
      apply_shadow_ban_twice execute ip once banned,
      more,
      gone,
      more,
      omega (arith, again, more),
    )
