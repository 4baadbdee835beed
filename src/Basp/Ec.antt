-- ===== src/Basp/Ec.antt =====
-- caf/net/basp/ec.hpp and src/net/basp/ec_strings.cpp.
use Prim.Native.String.{String}
use text.Mathlib.Text.{◌==◌ as str_eq}
use text.Mathlib.TextEquality.{eq_iff}
use incubator.Prelude.{
  ℕ, ◌==◌, ◌≡◌, refl, Bool, Bool-cases, inl, inr, true, false, Option, none, some, if◌then◌else◌,
  arith,
}

-- A value of the enumeration is a number of its underlying type, uint8_t.
abbrev pub Ec : Type 0
Ec = ℕ

abbrev pub invalid_magic_number : Ec
invalid_magic_number = 1

abbrev pub unexpected_number_of_bytes : Ec
unexpected_number_of_bytes = 2

abbrev pub unexpected_payload : Ec
unexpected_payload = 3

abbrev pub missing_payload : Ec
missing_payload = 4

abbrev pub illegal_state : Ec
illegal_state = 5

abbrev pub invalid_handshake : Ec
invalid_handshake = 6

abbrev pub missing_handshake : Ec
missing_handshake = 7

abbrev pub unexpected_handshake : Ec
unexpected_handshake = 8

abbrev pub version_mismatch : Ec
version_mismatch = 9

abbrev pub unimplemented : Ec
unimplemented = 10

abbrev pub app_identifiers_mismatch : Ec
app_identifiers_mismatch = 11

abbrev pub invalid_payload : Ec
invalid_payload = 12

abbrev pub invalid_scheme : Ec
invalid_scheme = 13

abbrev pub invalid_locator : Ec
invalid_locator = 14

unfoldable pub to_string : Ec → String
to_string x =
    if x == invalid_magic_number
    then "invalid_magic_number"
    else if x == unexpected_number_of_bytes
    then "unexpected_number_of_bytes"
    else if x == unexpected_payload
    then "unexpected_payload"
    else if x == missing_payload
    then "missing_payload"
    else if x == illegal_state
    then "illegal_state"
    else if x == invalid_handshake
    then "invalid_handshake"
    else if x == missing_handshake
    then "missing_handshake"
    else if x == unexpected_handshake
    then "unexpected_handshake"
    else if x == version_mismatch
    then "version_mismatch"
    else if x == unimplemented
    then "unimplemented"
    else if x == app_identifiers_mismatch
    then "app_identifiers_mismatch"
    else if x == invalid_payload
    then "invalid_payload"
    else if x == invalid_scheme
    then "invalid_scheme"
    else if x == invalid_locator
    then "invalid_locator"
    else "???"

-- `none` stands for the result false, which leaves the output parameter alone.
unfoldable pub from_string : String → Option Ec
from_string s =
    if str_eq s "invalid_magic_number"
    then some invalid_magic_number
    else if str_eq s "unexpected_number_of_bytes"
    then some unexpected_number_of_bytes
    else if str_eq s "unexpected_payload"
    then some unexpected_payload
    else if str_eq s "missing_payload"
    then some missing_payload
    else if str_eq s "illegal_state"
    then some illegal_state
    else if str_eq s "invalid_handshake"
    then some invalid_handshake
    else if str_eq s "missing_handshake"
    then some missing_handshake
    else if str_eq s "unexpected_handshake"
    then some unexpected_handshake
    else if str_eq s "version_mismatch"
    then some version_mismatch
    else if str_eq s "unimplemented"
    then some unimplemented
    else if str_eq s "app_identifiers_mismatch"
    then some app_identifiers_mismatch
    else if str_eq s "invalid_payload"
    then some invalid_payload
    else if str_eq s "invalid_scheme"
    then some invalid_scheme
    else if str_eq s "invalid_locator"
    then some invalid_locator
    else none

unfoldable pub from_integer : ℕ → Option Ec
from_integer x =
    if x == invalid_magic_number
    then some x
    else if x == unexpected_number_of_bytes
    then some x
    else if x == unexpected_payload
    then some x
    else if x == missing_payload
    then some x
    else if x == illegal_state
    then some x
    else if x == invalid_handshake
    then some x
    else if x == missing_handshake
    then some x
    else if x == unexpected_handshake
    then some x
    else if x == version_mismatch
    then some x
    else if x == unimplemented
    then some x
    else if x == app_identifiers_mismatch
    then some x
    else if x == invalid_payload
    then some x
    else if x == invalid_scheme
    then some x
    else if x == invalid_locator
    then some x
    else none

from_string_if :
    (b : Bool) (s t : String)
    → from_string (if b then s else t) ≡ (if b then from_string s else from_string t)
from_string_if true s t = refl
from_string_if false s t = refl

-- Reading the text of a value back gives what the check of its number gives: the value where it
-- is an enumerator, and a failure on every other byte.
pub from_string-to_string : (x : Ec) → from_string (to_string x) ≡ from_integer x
unfolding to_string from_integer
from_string-to_string x = simp from_string_if (unfold from_string in ground arith)

-- One test of the ladder: the text that passes it is the text of the value that it gives.
ladder_step :
    (s name : String) (x v : Ec) (rest : Option Ec)
    → to_string v ≡ name
    → (rest ≡ some x → to_string x ≡ s)
    → (if str_eq s name then some v else rest) ≡ some x
    → to_string x ≡ s
ladder_step s name x v rest e below h = elim (Bool-cases (str_eq s name)) [
  | inl hit ↦ let same : some v ≡ some x = (rw hit at h) in cc (e, (eq_iff s name).0 hit)
  | inr miss ↦ below (rw miss at h)
]

-- A text that is read as a value is the text of that value.
pub to_string-from_string : (s : String) (x : Ec) → from_string s ≡ some x → to_string x ≡ s
unfolding to_string from_string
to_string-from_string s x = ladder_step s "invalid_magic_number" x invalid_magic_number _ refl (
    ladder_step s "unexpected_number_of_bytes" x unexpected_number_of_bytes _ refl (
      ladder_step s "unexpected_payload" x unexpected_payload _ refl (
        ladder_step s "missing_payload" x missing_payload _ refl (
          ladder_step s "illegal_state" x illegal_state _ refl (
            ladder_step s "invalid_handshake" x invalid_handshake _ refl (
              ladder_step s "missing_handshake" x missing_handshake _ refl (
                ladder_step s "unexpected_handshake" x unexpected_handshake _ refl (
                  ladder_step s "version_mismatch" x version_mismatch _ refl (
                    ladder_step s "unimplemented" x unimplemented _ refl (
                      ladder_step s "app_identifiers_mismatch" x app_identifiers_mismatch _ refl (
                        ladder_step s "invalid_payload" x invalid_payload _ refl (
                          ladder_step s "invalid_scheme" x invalid_scheme _ refl (
                            ladder_step s "invalid_locator" x invalid_locator _ refl
                              (λ h. cc))))))))))))))
