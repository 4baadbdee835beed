-- ===== src/EnumStrings.antt =====
-- The generated text conversions of the enumerations: src/net/basp/message_type_strings.cpp,
-- src/net/basp/ec_strings.cpp, src/net/basp/connection_state_strings.cpp and
-- src/net/operation_strings.cpp, together.
mod EnumTests
use Prim.Native.String.{String}
use incubator.Prelude.{ℕ, ◌≡◌, some}
use incubator.Basp.MessageType
use incubator.Basp.Ec
use incubator.Basp.ConnectionState
use incubator.Net.Operation

-- For each of the four enumerations, reading the text of a number back gives what `from_integer`
-- gives for it: the value where the number is an enumerator, and a failure where it is none.
pub enum_read_back :
    (x : ℕ)
    → (MessageType.from_string (MessageType.to_string x) ≡ MessageType.from_integer x)
      × (Ec.from_string (Ec.to_string x) ≡ Ec.from_integer x)
      × (ConnectionState.from_string (ConnectionState.to_string x) ≡ ConnectionState.from_integer x)
      × (Operation.from_string (Operation.to_string x) ≡ Operation.from_integer x)
enum_read_back x = (
  MessageType.from_string-to_string x,
  Ec.from_string-to_string x,
  ConnectionState.from_string-to_string x,
  Operation.from_string-to_string x,
)

-- For each of the four enumerations, a text that is read as a value is the text of that value.
pub enum_text_of_read :
    (s : String) (x : ℕ)
    → (MessageType.from_string s ≡ some x → MessageType.to_string x ≡ s)
      × (Ec.from_string s ≡ some x → Ec.to_string x ≡ s)
      × (ConnectionState.from_string s ≡ some x → ConnectionState.to_string x ≡ s)
      × (Operation.from_string s ≡ some x → Operation.to_string x ≡ s)
enum_text_of_read s x = (
  MessageType.to_string-from_string s x,
  Ec.to_string-from_string s x,
  ConnectionState.to_string-from_string s x,
  Operation.to_string-from_string s x,
)
