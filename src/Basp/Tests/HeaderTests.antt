-- ===== src/Basp/Tests/HeaderTests.antt =====
-- Headers and enumerations on concrete inputs.
use Prim.Native.Nat.{compare as compare_ℕ}
use incubator.Prelude.{ℕ, ◌≡◌, refl, arith, List, [], ◌∷◌, ◌++◌}
use incubator.Bytes.{big_endian}
use incubator.Basp.MessageType
use incubator.Basp.Ec
use incubator.Basp.Header.{Header, IsHeader, to_bytes, to_buffer, from_bytes, compare}
use incubator.Basp.Header.Layout.{from_bytes-to_bytes, to_bytes-from_bytes, to_buffer-to_bytes}
use incubator.Basp.Header.Order.{or_else, compare_fields}

abbrev request : Header
request = record { type = MessageType.resolve_request; payload_len = 513; operation_data = 7 }

abbrev request_bytes : List ℕ
request_bytes = 2 ∷ 0 ∷ 0 ∷ 2 ∷ 1 ∷ 0 ∷ 0 ∷ 0 ∷ 0 ∷ 0 ∷ 0 ∷ 0 ∷ 7 ∷ []

request-IsHeader : IsHeader request
request-IsHeader = omega arith

to_bytes-request : to_bytes request ≡ request_bytes
unfolding to_bytes
to_bytes-request = refl

from_bytes-to_bytes_example : from_bytes (to_bytes request ++ (9 ∷ [])) ≡ request
from_bytes-to_bytes_example = from_bytes-to_bytes request (9 ∷ []) request-IsHeader

to_bytes-from_bytes_example : to_bytes (from_bytes request_bytes) ≡ request_bytes
to_bytes-from_bytes_example = to_bytes-from_bytes request_bytes refl (omega arith)

to_buffer-to_bytes_example : to_buffer request (1 ∷ 2 ∷ []) ≡ to_bytes request
to_buffer-to_bytes_example = to_buffer-to_bytes request (1 ∷ 2 ∷ [])

compare_fields_example :
    compare request (record request { operation_data = 8 })
    ≡ or_else (compare_ℕ 2 2) (or_else (compare_ℕ 513 513) (compare_ℕ 7 8))
compare_fields_example =
    compare_fields request (record request { operation_data = 8 }) request-IsHeader (omega arith)

type_from_string-to_string_example :
    MessageType.from_string (MessageType.to_string 9) ≡ MessageType.from_integer 9
type_from_string-to_string_example = MessageType.from_string-to_string 9

type_to_string-from_string_example : MessageType.to_string MessageType.heartbeat ≡ "heartbeat"
unfolding MessageType.from_string
type_to_string-from_string_example =
    MessageType.to_string-from_string "heartbeat" MessageType.heartbeat refl

ec_from_string-to_string_example : Ec.from_string (Ec.to_string 3) ≡ Ec.from_integer 3
ec_from_string-to_string_example = Ec.from_string-to_string 3

ec_to_string-from_string_example : Ec.to_string Ec.missing_payload ≡ "missing_payload"
unfolding Ec.from_string
ec_to_string-from_string_example =
    Ec.to_string-from_string "missing_payload" Ec.missing_payload refl
