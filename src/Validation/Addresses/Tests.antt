-- ===== src/Validation/Addresses/Tests.antt =====
-- Addresses in several spellings.
use Prim.Native.String.{String}
use counter_terrorist.Common.{Bool, List, [], arith, false, refl, string_eq, true, ◌∷◌, ◌≡◌}
use counter_terrorist.Validation.Addresses.{
  add_front, before_zone, block_of, classify_plain, decimal, decimal_value, digits_first,
  digits_value, dotted, embedded, expand_halves, expand_ipv6, first_two, group_value, groups_of,
  hex_digit, hex_text, hex_unit, hex_value, in_blocks, includes_unit, is_octet, is_private_ip,
  is_private_ipv6, join_before, join_halves, lower_case, or_false, parse_part, private_groups,
  private_prefix, quad_of, same_units, settle_plain, split_on, split_pairs, starts_with,
  trailing_quad, unbracket, unbracket_from, units, without_quad,
}
use counter_terrorist.Validation.Addresses.Blocks.{is_unroutable, address, is_private_ip-dotted}

is_private_ip-dotted_example :
    is_private_ip (dotted 172 31 255 1) ≡ is_unroutable (address 172 31 255 1)
is_private_ip-dotted_example =
    is_private_ip-dotted 172 31 255 1 (omega arith) (omega arith) (omega arith) (omega arith)

-- The verdicts on a list of texts.
verdicts : List String → List Bool
verdicts [] = []
verdicts (s ∷ ss) = is_private_ip (units s) ∷ verdicts ss

private_spellings :
    verdicts (
      "[::1]" ∷ "::" ∷ "[::ffff:7f00:1]" ∷ "::ffff:10.1.2.3" ∷ "FE80::1%eth0" ∷ "fd12:3456::1"
      ∷ "169.254.1.1" ∷ "0:0:0:0:0:0:0:1" ∷ "010.0.0.1" ∷ "fc00::1::2" ∷ [])
    ≡ true ∷ true ∷ true ∷ true ∷ true ∷ true ∷ true ∷ true ∷ true ∷ true ∷ []
unfolding verdicts is_private_ip units unbracket unbracket_from classify_plain settle_plain
    same_units starts_with block_of quad_of split_on add_front decimal_value digits_value first_two
    in_blocks lower_case includes_unit is_private_ipv6 expand_ipv6 private_groups private_prefix
    embedded or_false dotted decimal before_zone trailing_quad digits_first join_before without_quad
    is_octet hex_text hex_unit split_pairs expand_halves join_halves parse_part groups_of
    group_value hex_value hex_digit
private_spellings = refl

public_spellings :
    verdicts ("8.8.8.8" ∷ "fcbank.example" ∷ "2001:db8::1" ∷ "::ffff:8.8.8.8" ∷ "172.32.0.1" ∷ [])
    ≡ false ∷ false ∷ false ∷ false ∷ false ∷ []
unfolding verdicts is_private_ip units unbracket unbracket_from classify_plain settle_plain
    same_units starts_with block_of quad_of split_on add_front decimal_value digits_value first_two
    in_blocks lower_case includes_unit is_private_ipv6 expand_ipv6 private_groups private_prefix
    embedded or_false dotted decimal before_zone trailing_quad digits_first join_before without_quad
    is_octet hex_text hex_unit split_pairs expand_halves join_halves parse_part groups_of
    group_value hex_value hex_digit
public_spellings = refl
