-- ===== src/Validation/Webhook/Targets.antt =====
-- What a valid verdict on a webhook says of the addresses that its host resolves to.
use counter_terrorist.Validation.Addresses.Bytes.{same_units-eq}
use counter_terrorist.Common.{
  Bool, Bool-cases, List, Option, [], all, ap, false, if◌then◌else◌, inl, inr, none, not, refl,
  some, some_inj, some_not_none, string_eq, subst, sym, true, ◌||◌, ◌∙◌, ◌∷◌, ◌≡◌, ◌⊎◌,
}
use counter_terrorist.Validation.Addresses.{
  Units, is_private_ip, lower_case, same_units, starts_with, units,
}
use counter_terrorist.Validation.Webhook.{
  ParsedUrl, check_hostname, first_private, valid, Reason, Verdict, check_parsed, check_resolved,
  cloud_metadata, invalid, link_local, loopback, one_of, private_address, refuse_private,
  resolves_to, scheme_not_allowed, unresolved, after_check, invalid_format, is_valid_webhook_url,
  resolve_both, resolve_parsed, validate_webhook_url_async,
}

first_private-all :
    (ips : List Units) → first_private ips ≡ none → all (λ ip. not (is_private_ip ip)) ips ≡ true
unfolding first_private
first_private-all [] h = refl
first_private-all (ip ∷ ips) h = elim (Bool-cases (is_private_ip ip)) [
  | inl e ↦ absurd (some_not_none ip (rw e at h))
  | inr e ↦ rw (e, first_private-all ips (rw e at h)) refl
]

valid_not_invalid : (o : Option Units) (r : Reason) → ¬ (invalid r ≡ valid o)
valid_not_invalid o r h = subst is_invalid h tt
  where
    is_invalid : Verdict → Type 0
    is_invalid (invalid r) = Unit
    is_invalid (valid o) = ⊥

check_hostname-public :
    (hostname : Units) (o : Option Units)
    → check_hostname hostname ≡ valid o
    → is_private_ip hostname ≡ false
unfolding check_hostname
check_hostname-public hostname o h =
    settled
      (one_of ("localhost" ∷ "0.0.0.0" ∷ "::1" ∷ "[::1]" ∷ "[::]" ∷ []) hostname
        || starts_with (units "127.") hostname)
      (one_of ("169.254.169.254" ∷ "metadata.google.internal" ∷ []) hostname)
      (starts_with (units "169.254.") hostname) (is_private_ip hostname) h
  where
    settled :
        (p q r s : Bool)
        → (if p
            then invalid loopback
            else if q
            then invalid cloud_metadata
            else if r
            then invalid link_local
            else if s
            then invalid private_address
            else valid none)
          ≡ valid o
        → s ≡ false
    settled true q r s h = absurd (valid_not_invalid o loopback h)
    settled false true r s h = absurd (valid_not_invalid o cloud_metadata h)
    settled false false true s h = absurd (valid_not_invalid o link_local h)
    settled false false false true h = absurd (valid_not_invalid o private_address h)
    settled false false false false h = refl

-- The protocol and the host of a URL that passes the first check.
check_parsed-public :
    (p : ParsedUrl) (o : Option Units)
    → check_parsed (some p) ≡ valid o
    → (p.protocol ≡ units "https:") × (is_private_ip (lower_case p.hostname) ≡ false)
unfolding check_parsed
check_parsed-public p o h = elim (Bool-cases (same_units p.protocol (units "https:"))) [
  | inl e ↦ (same_units-eq _ _ e, check_hostname-public (lower_case p.hostname) o (rw e at h))
  | inr e ↦ absurd (valid_not_invalid o (scheme_not_allowed p.protocol) (rw e at h))
]

valid_inj : (o q : Option Units) → valid o ≡ valid q → o ≡ q
valid_inj o q h = ap target h
  where
    target : Verdict → Option Units
    target (invalid r) = o
    target (valid o) = o

-- The address of a valid verdict is the first of the resolved ones, none of which is private.
unfoldable pub IsResolved : List Units → Units → Type 0
IsResolved ips ip =
    (all (λ i. not (is_private_ip i)) ips ≡ true) × ((rest : List Units) × (ips ≡ ip ∷ rest))

check_resolved-IsResolved :
    (ips : List Units) (ip : Units) → check_resolved ips ≡ valid (some ip) → IsResolved ips ip
unfolding check_resolved IsResolved refuse_private
check_resolved-IsResolved [] ip h = absurd (valid_not_invalid (some ip) unresolved h)
check_resolved-IsResolved (i ∷ ips) ip h = found (first_private (i ∷ ips)) refl h
  where
    found :
        (o : Option Units)
        → first_private (i ∷ ips) ≡ o
        → refuse_private o i ≡ valid (some ip)
        → IsResolved (i ∷ ips) ip
    found (some j) e h = absurd (valid_not_invalid (some ip) (resolves_to j) h)
    found none e h = (
      first_private-all (i ∷ ips) e,
      (ips, ap (λ j. j ∷ ips) (some_inj i ip (valid_inj (some i) (some ip) h))),
    )

-- The ways to a valid verdict: the host is an address itself, or its addresses were resolved.
unfoldable pub IsTarget :
    (Units → Bool)
    → (Units → Option (List Units))
    → (Units → Option (List Units))
    → Units
    → Units
    → Type 0
IsTarget is_ip resolve_a resolve_aaaa host ip =
    ((is_ip host ≡ true) × (ip ≡ host))
    ⊎ ((is_ip host ≡ false) × IsResolved (resolve_both resolve_a resolve_aaaa host) ip)

resolve_parsed-IsTarget :
    (is_ip : Units → Bool) (resolve_a resolve_aaaa : Units → Option (List Units)) (p : ParsedUrl)
    (ip : Units)
    → resolve_parsed is_ip resolve_a resolve_aaaa (some p) ≡ valid (some ip)
    → IsTarget is_ip resolve_a resolve_aaaa p.hostname ip
unfolding resolve_parsed IsTarget
resolve_parsed-IsTarget is_ip resolve_a resolve_aaaa p ip h = elim (Bool-cases (is_ip p.hostname)) [
  | inl e ↦
      inl (e, sym (some_inj p.hostname ip (valid_inj (some p.hostname) (some ip) (rw e at h))))
  | inr e ↦
      inr (
        e,
        check_resolved-IsResolved (resolve_both resolve_a resolve_aaaa p.hostname) ip (rw e at h),
      )
]

no_url : invalid invalid_format ≡ check_parsed none
unfolding check_parsed
no_url = refl

-- Where `validateWebhookUrlAsync` allows a URL and names an address for the request, the URL has the
-- protocol `https:`, its host is not private by `isPrivateIp`, and the address is either the host itself,
-- which `IP_REGEX` matches, or the first of the addresses of both lookups, of which none is private.
pub validate_webhook_url_async-IsTarget :
    (parse : Units → Option ParsedUrl) (is_ip : Units → Bool)
    (resolve_a resolve_aaaa : Units → Option (List Units)) (url ip : Units)
    → validate_webhook_url_async parse is_ip resolve_a resolve_aaaa url ≡ valid (some ip)
    → (p : ParsedUrl) × (parse url ≡ some p)
      × (p.protocol ≡ units "https:")
      × (is_private_ip (lower_case p.hostname) ≡ false)
      × IsTarget is_ip resolve_a resolve_aaaa p.hostname ip
unfolding validate_webhook_url_async is_valid_webhook_url after_check
validate_webhook_url_async-IsTarget parse is_ip resolve_a resolve_aaaa url ip h =
    parsed (parse url) (check_parsed (parse url)) refl refl h
  where
    parsed :
        (o : Option ParsedUrl) (v : Verdict)
        → parse url ≡ o
        → check_parsed o ≡ v
        → after_check v (resolve_parsed is_ip resolve_a resolve_aaaa o) ≡ valid (some ip)
        → (p : ParsedUrl) × (parse url ≡ some p)
          × (p.protocol ≡ units "https:")
          × (is_private_ip (lower_case p.hostname) ≡ false)
          × IsTarget is_ip resolve_a resolve_aaaa p.hostname ip
    parsed o (invalid r) e f h = absurd (valid_not_invalid (some ip) r h)
    parsed none (valid q) e f h = absurd (valid_not_invalid q invalid_format (no_url ∙ f))
    parsed (some p) (valid q) e f h =
        let (https, not_private) = check_parsed-public p q f in
        (p, e, https, not_private, resolve_parsed-IsTarget is_ip resolve_a resolve_aaaa p ip h)
