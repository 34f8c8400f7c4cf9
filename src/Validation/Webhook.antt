-- ===== src/Validation/Webhook.antt =====
-- src/orchestrator/infrastructure/system/validation.ts: `isValidWebhookUrl` and
-- `validateWebhookUrlAsync`. The platform's URL parser and resolver are parameters, a resolver that throws
-- gives no addresses; `IP_REGEX` is a parameter too, the test of a host name against it.
pub mod Targets
mod Tests
use Prim.Native.String.{String}
use counter_terrorist.Common.{
  Bool, List, Option, [], false, if◌then◌else◌, none, some, string_eq, ◌++◌, ◌||◌, ◌∷◌,
}
use counter_terrorist.Validation.Addresses.{
  Units, is_private_ip, lower_case, same_units, starts_with, units,
}

-- What the handlers read of a parsed URL.
pub record ParsedUrl : Type 0 where
  pub protocol : Units
  pub hostname : Units

-- The reasons of a refusal.
pub data Reason : Type 0 where
  invalid_format : Reason
  scheme_not_allowed : Units → Reason
  loopback : Reason
  cloud_metadata : Reason
  link_local : Reason
  private_address : Reason
  unresolved : Reason
  resolves_to : Units → Reason

-- A refusal, or a valid URL with the address it resolves to.
pub data Verdict : Type 0 where
  invalid : Reason → Verdict
  valid : Option Units → Verdict

-- Whether the text is one of the names.
unfoldable pub one_of : List String → Units → Bool
unfolding same_units units
one_of [] h = false
one_of (n ∷ ns) h = same_units h (units n) || one_of ns h

-- The tests of the host name in lower case.
unfoldable pub check_hostname : Units → Verdict
unfolding one_of starts_with units is_private_ip
check_hostname hostname =
    if one_of ("localhost" ∷ "0.0.0.0" ∷ "::1" ∷ "[::1]" ∷ "[::]" ∷ []) hostname
      || starts_with (units "127.") hostname
    then invalid loopback
    else if one_of ("169.254.169.254" ∷ "metadata.google.internal" ∷ []) hostname
    then invalid cloud_metadata
    else if starts_with (units "169.254.") hostname
    then invalid link_local
    else if is_private_ip hostname
    then invalid private_address
    else valid none

unfoldable pub check_parsed : Option ParsedUrl → Verdict
unfolding same_units units lower_case check_hostname
check_parsed none = invalid invalid_format
check_parsed (some p) =
    if same_units p.protocol (units "https:")
    then check_hostname (lower_case p.hostname)
    else invalid (scheme_not_allowed p.protocol)

-- `isValidWebhookUrl`.
unfoldable pub is_valid_webhook_url : (Units → Option ParsedUrl) → Units → Verdict
unfolding check_parsed
is_valid_webhook_url parse url = check_parsed (parse url)

-- The loop over the resolved addresses, to the first one that is private.
unfoldable pub first_private : List Units → Option Units
unfolding is_private_ip
first_private [] = none
first_private (ip ∷ ips) =
    let rest = first_private ips in if is_private_ip ip then some ip else rest

unfoldable pub refuse_private : Option Units → Units → Verdict
refuse_private (some ip) first = invalid (resolves_to ip)
refuse_private none first = valid (some first)

unfoldable pub check_resolved : List Units → Verdict
unfolding refuse_private first_private
check_resolved [] = invalid unresolved
check_resolved (ip ∷ ips) = refuse_private (first_private (ip ∷ ips)) ip

-- The answers of one lookup, and of both.
unfoldable pub answers : Option (List Units) → List Units
answers none = []
answers (some ips) = ips

unfoldable pub resolve_both :
    (Units → Option (List Units)) → (Units → Option (List Units)) → Units → List Units
unfolding answers
resolve_both resolve_a resolve_aaaa host = answers (resolve_a host) ++ answers (resolve_aaaa host)

unfoldable pub resolve_parsed :
    (Units → Bool)
    → (Units → Option (List Units))
    → (Units → Option (List Units))
    → Option ParsedUrl
    → Verdict
unfolding resolve_both check_resolved
resolve_parsed is_ip resolve_a resolve_aaaa none = invalid invalid_format
resolve_parsed is_ip resolve_a resolve_aaaa (some p) =
    if is_ip p.hostname
    then valid (some p.hostname)
    else check_resolved (resolve_both resolve_a resolve_aaaa p.hostname)

unfoldable pub after_check : Verdict → Verdict → Verdict
after_check (invalid r) rest = invalid r
after_check (valid o) rest = rest

-- `validateWebhookUrlAsync`.
unfoldable pub validate_webhook_url_async :
    (Units → Option ParsedUrl)
    → (Units → Bool)
    → (Units → Option (List Units))
    → (Units → Option (List Units))
    → Units
    → Verdict
unfolding after_check is_valid_webhook_url resolve_parsed
validate_webhook_url_async parse is_ip resolve_a resolve_aaaa url =
    after_check (is_valid_webhook_url parse url)
      (resolve_parsed is_ip resolve_a resolve_aaaa (parse url))
