-- ===== src/Basp/ConnectionState.antt =====
-- caf/net/basp/connection_state.hpp and src/net/basp/connection_state_strings.cpp.
use Prim.Native.String.{String}
use text.Mathlib.Text.{◌==◌ as str_eq}
use text.Mathlib.TextEquality.{eq_iff}
use incubator.Prelude.{
  ℕ, ◌==◌, ◌≡◌, refl, Bool, true, false, Option, none, some, if◌then◌else◌, arith,
}

-- The state of a connection, a value of the underlying type uint8_t.
abbrev pub ConnectionState : Type 0
ConnectionState = ℕ

abbrev pub await_handshake_header : ConnectionState
await_handshake_header = 0

abbrev pub await_handshake_payload : ConnectionState
await_handshake_payload = 1

abbrev pub await_header : ConnectionState
await_header = 2

abbrev pub await_payload : ConnectionState
await_payload = 3

abbrev pub shutdown : ConnectionState
shutdown = 4

unfoldable pub to_string : ConnectionState → String
to_string x =
    if x == await_handshake_header
    then "await_handshake_header"
    else if x == await_handshake_payload
    then "await_handshake_payload"
    else if x == await_header
    then "await_header"
    else if x == await_payload
    then "await_payload"
    else if x == shutdown
    then "shutdown"
    else "???"

-- `none` stands for the result false, which leaves the output parameter alone.
unfoldable pub from_string : String → Option ConnectionState
from_string s =
    if str_eq s "await_handshake_header"
    then some await_handshake_header
    else if str_eq s "await_handshake_payload"
    then some await_handshake_payload
    else if str_eq s "await_header"
    then some await_header
    else if str_eq s "await_payload"
    then some await_payload
    else if str_eq s "shutdown"
    then some shutdown
    else none

unfoldable pub from_integer : ℕ → Option ConnectionState
from_integer x =
    if x == await_handshake_header
    then some x
    else if x == await_handshake_payload
    then some x
    else if x == await_header
    then some x
    else if x == await_payload
    then some x
    else if x == shutdown
    then some x
    else none

from_string_if :
    (b : Bool) (s t : String)
    → from_string (if b then s else t) ≡ (if b then from_string s else from_string t)
from_string_if true s t = refl
from_string_if false s t = refl

-- Reading the text of a value back gives what the check of its number gives: the value where it
-- is an enumerator, and a failure on every other byte.
pub from_string-to_string : (x : ConnectionState) → from_string (to_string x) ≡ from_integer x
unfolding to_string from_integer
from_string-to_string x = simp from_string_if (unfold from_string in ground arith)

-- A text that is read as a value is the text of that value.
pub to_string-from_string :
    (s : String) (x : ConnectionState) → from_string s ≡ some x → to_string x ≡ s
unfolding to_string from_string
to_string-from_string s x h = ground (
  arith,
  eq_iff s "await_handshake_header",
  eq_iff s "await_handshake_payload",
  eq_iff s "await_header",
  eq_iff s "await_payload",
  eq_iff s "shutdown",
)
