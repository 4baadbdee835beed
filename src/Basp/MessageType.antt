-- ===== src/Basp/MessageType.antt =====
-- caf/net/basp/message_type.hpp and src/net/basp/message_type_strings.cpp.
use Prim.Native.String.{String}
use text.Mathlib.Text.{◌==◌ as str_eq}
use text.Mathlib.TextEquality.{eq_iff}
use incubator.Prelude.{
  ℕ, ◌==◌, ◌≡◌, refl, Bool, true, false, Option, none, some, if◌then◌else◌, arith,
}

-- The enumeration has the underlying type uint8_t, and a header read from the wire holds whatever
-- byte came: a value is a number, and the enumerators are constants.
abbrev pub MessageType : Type 0
MessageType = ℕ

abbrev pub handshake : MessageType
handshake = 0

abbrev pub actor_message : MessageType
actor_message = 1

abbrev pub resolve_request : MessageType
resolve_request = 2

abbrev pub resolve_response : MessageType
resolve_response = 3

abbrev pub monitor_message : MessageType
monitor_message = 4

abbrev pub down_message : MessageType
down_message = 5

abbrev pub heartbeat : MessageType
heartbeat = 6

unfoldable pub to_string : MessageType → String
to_string x =
    if x == handshake
    then "handshake"
    else if x == actor_message
    then "actor_message"
    else if x == resolve_request
    then "resolve_request"
    else if x == resolve_response
    then "resolve_response"
    else if x == monitor_message
    then "monitor_message"
    else if x == down_message
    then "down_message"
    else if x == heartbeat
    then "heartbeat"
    else "???"

-- `none` stands for the result false, which leaves the output parameter alone.
unfoldable pub from_string : String → Option MessageType
from_string s =
    if str_eq s "handshake"
    then some handshake
    else if str_eq s "actor_message"
    then some actor_message
    else if str_eq s "resolve_request"
    then some resolve_request
    else if str_eq s "resolve_response"
    then some resolve_response
    else if str_eq s "monitor_message"
    then some monitor_message
    else if str_eq s "down_message"
    then some down_message
    else if str_eq s "heartbeat"
    then some heartbeat
    else none

unfoldable pub from_integer : ℕ → Option MessageType
from_integer x =
    if x == handshake
    then some x
    else if x == actor_message
    then some x
    else if x == resolve_request
    then some x
    else if x == resolve_response
    then some x
    else if x == monitor_message
    then some x
    else if x == down_message
    then some x
    else if x == heartbeat
    then some x
    else none

from_string_if :
    (b : Bool) (s t : String)
    → from_string (if b then s else t) ≡ (if b then from_string s else from_string t)
from_string_if true s t = refl
from_string_if false s t = refl

-- Reading the text of a value back gives what the check of its number gives: the value where it
-- is an enumerator, and a failure on every other byte.
pub from_string-to_string : (x : MessageType) → from_string (to_string x) ≡ from_integer x
unfolding to_string from_integer
from_string-to_string x = simp from_string_if (unfold from_string in ground arith)

-- A text that is read as a value is the text of that value.
pub to_string-from_string :
    (s : String) (x : MessageType) → from_string s ≡ some x → to_string x ≡ s
unfolding to_string from_string
to_string-from_string s x h = ground (
  arith,
  eq_iff s "handshake",
  eq_iff s "actor_message",
  eq_iff s "resolve_request",
  eq_iff s "resolve_response",
  eq_iff s "monitor_message",
  eq_iff s "down_message",
  eq_iff s "heartbeat",
)
