-- ===== src/EnumStrings/EnumTests.antt =====
-- The text conversions of the enumerations on concrete values.
use incubator.Prelude.{◌≡◌}
use incubator.EnumStrings.{enum_read_back}
use incubator.Basp.MessageType
use incubator.Basp.Ec
use incubator.Basp.ConnectionState
use incubator.Net.Operation

enum_read_back_example :
    (MessageType.from_string (MessageType.to_string 6) ≡ MessageType.from_integer 6)
    × (Ec.from_string (Ec.to_string 6) ≡ Ec.from_integer 6)
    × (ConnectionState.from_string (ConnectionState.to_string 6) ≡ ConnectionState.from_integer 6)
    × (Operation.from_string (Operation.to_string 6) ≡ Operation.from_integer 6)
enum_read_back_example = enum_read_back 6
