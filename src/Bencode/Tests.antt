-- ===== src/Bencode/Tests.antt =====
-- Runs of the validator.
use weightless.Prelude.{codes, ◌≡◌, ◌≢◌, ◌↔◌, refl}
use weightless.Bencode.{
  peer_message_limits, ok, err, integer_syntax, trailing_data, eof, syntax, validate, value,
  integer, byte_string, out_of_fuel,
}
use weightless.Bencode.Fuel.{validate-ne-out_of_fuel}
use weightless.Bencode.Recognizer.{Recognized, validate-iff-Recognized}

accepts_nested : validate (codes "d1:ali0ei-12e2:xyee") peer_message_limits ≡ ok tt
unfolding validate value integer byte_string
accepts_nested = refl

rejects_leading_zero : validate (codes "i01e") peer_message_limits ≡ err integer_syntax
unfolding validate value integer
rejects_leading_zero = refl

rejects_trailing : validate (codes "i1ee") peer_message_limits ≡ err trailing_data
unfolding validate value integer
rejects_trailing = refl

rejects_short_string : validate (codes "5:abc") peer_message_limits ≡ err eof
unfolding validate value byte_string
rejects_short_string = refl

rejects_key_not_string : validate (codes "di1ei2ee") peer_message_limits ≡ err syntax
unfolding validate value
rejects_key_not_string = refl

validate-iff-Recognized_example :
    (validate (codes "d1:ali0ei-12e2:xyee") peer_message_limits ≡ ok tt)
    ↔ Recognized (codes "d1:ali0ei-12e2:xyee") peer_message_limits
validate-iff-Recognized_example =
    validate-iff-Recognized (codes "d1:ali0ei-12e2:xyee") peer_message_limits

validate-ne-out_of_fuel_example : validate (codes "lllld1:ai1") peer_message_limits ≢ out_of_fuel
validate-ne-out_of_fuel_example = validate-ne-out_of_fuel (codes "lllld1:ai1") peer_message_limits
