-- ===== src/Json/Tests.antt =====
-- An integer at the group width of the source.
use openevent_modules_model.Base.{◌≡◌, refl, pos, negsuc, true, [], ◌∷◌}
use openevent_modules_model.Json.Digits.{str_fuel, str_nat}
use openevent_modules_model.Json.Integer.{
  digits_per_group, groups, join, digits_text, integer_text, parse_int,
}
use openevent_modules_model.Json.RoundTrip.{parse_int-integer_text}

-- In groups of two digits, past a limit of three.
integer_text-groups :
    integer_text 2 3 (negsuc 10203) ≡ record { negative = true; digits = 1 ∷ 0 ∷ 2 ∷ 0 ∷ 4 ∷ [] }
unfolding integer_text digits_text groups join str_nat str_fuel
integer_text-groups = refl

parse_int-integer_text_example :
    parse_int digits_per_group 640 (integer_text digits_per_group 640 (pos 12345)) ≡ pos 12345
parse_int-integer_text_example = parse_int-integer_text 499 640 640 (pos 12345)
