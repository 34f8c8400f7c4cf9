-- ===== src/Validation/Webhook/Tests.antt =====
-- A webhook whose host resolves to two public addresses, and one that also resolves to a private one.
use counter_terrorist.Common.{Bool, List, Option, [], false, none, refl, some, string_eq, ◌∷◌, ◌≡◌}
use counter_terrorist.Validation.Addresses.{
  Units, add_front, before_zone, block_of, classify_plain, decimal, decimal_value, digits_first,
  digits_value, dotted, embedded, expand_halves, expand_ipv6, first_two, group_value, groups_of,
  hex_digit, hex_text, hex_unit, hex_value, in_blocks, includes_unit, is_octet, is_private_ip,
  is_private_ipv6, join_before, join_halves, lower_case, or_false, parse_part, private_groups,
  private_prefix, quad_of, same_units, settle_plain, split_on, split_pairs, starts_with,
  trailing_quad, unbracket, unbracket_from, units, without_quad,
}
use counter_terrorist.Validation.Webhook.{
  ParsedUrl, after_check, answers, check_hostname, check_parsed, check_resolved, first_private,
  invalid, is_valid_webhook_url, one_of, refuse_private, resolve_both, resolve_parsed, resolves_to,
  valid, validate_webhook_url_async,
}
use counter_terrorist.Validation.Webhook.Targets.{IsTarget, validate_webhook_url_async-IsTarget}

-- A parser of URLs that consist of a host only.
abbrev parse_host : Units → Option ParsedUrl
parse_host u = some (record { protocol = units "https:"; hostname = u })

abbrev no_literal : Units → Bool
no_literal u = false

abbrev public_answer : Units → Option (List Units)
public_answer u = some (units "93.184.216.34" ∷ [])

abbrev no_answer : Units → Option (List Units)
no_answer u = none

abbrev private_answer : Units → Option (List Units)
private_answer u = some (units "fe80::1" ∷ [])

allowed_run :
    validate_webhook_url_async parse_host no_literal public_answer no_answer (units "hooks.example")
    ≡ valid (some (units "93.184.216.34"))
unfolding validate_webhook_url_async after_check is_valid_webhook_url check_parsed check_hostname
    one_of resolve_parsed resolve_both answers check_resolved first_private refuse_private
    is_private_ip units unbracket unbracket_from classify_plain settle_plain same_units starts_with
    block_of quad_of split_on add_front decimal_value digits_value first_two in_blocks lower_case
    includes_unit
allowed_run = refl

refused_run :
    validate_webhook_url_async parse_host no_literal public_answer private_answer
      (units "hooks.example")
    ≡ invalid (resolves_to (units "fe80::1"))
unfolding validate_webhook_url_async after_check is_valid_webhook_url check_parsed check_hostname
    one_of resolve_parsed resolve_both answers check_resolved first_private refuse_private
    is_private_ip units unbracket unbracket_from classify_plain settle_plain same_units starts_with
    block_of quad_of split_on add_front decimal_value digits_value first_two in_blocks lower_case
    includes_unit is_private_ipv6 expand_ipv6 private_groups private_prefix embedded or_false dotted
    decimal before_zone trailing_quad digits_first join_before without_quad is_octet hex_text
    hex_unit split_pairs expand_halves join_halves parse_part groups_of group_value hex_value
    hex_digit
refused_run = refl

validate_webhook_url_async-IsTarget_example :
    (p : ParsedUrl) × (parse_host (units "hooks.example") ≡ some p)
    × (p.protocol ≡ units "https:")
    × (is_private_ip (lower_case p.hostname) ≡ false)
    × IsTarget no_literal public_answer no_answer p.hostname (units "93.184.216.34")
validate_webhook_url_async-IsTarget_example =
    validate_webhook_url_async-IsTarget parse_host no_literal public_answer no_answer
      (units "hooks.example") (units "93.184.216.34") allowed_run
