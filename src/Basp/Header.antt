-- ===== src/Basp/Header.antt =====
-- caf/net/basp/header.hpp, caf/net/basp/constants.hpp and src/header.cpp.
pub mod Layout
pub mod Order
use Prim.Native.Nat.{Ordering}
use incubator.Prelude.{
  ℕ, ◌+◌, ◌^◌, ◌<◌, ltb, if◌then◌else◌, List, [], ◌∷◌, ◌++◌, length, get_or, take, drop, replicate,
  min,
}
use incubator.Bytes.{Bytes, resize, copy_to, NetworkOrder, encode, decode}
use incubator.Basp.MessageType.{MessageType}

-- The current BASP version.
abbrev pub version : ℕ
version = 1

-- Size of a header in serialized form.
abbrev pub header_size : ℕ
header_size = 13

pub record Header : Type 0 where
  pub type : MessageType
  pub payload_len : ℕ
  pub operation_data : ℕ

-- The fields are a uint8_t, a uint32_t and a uint64_t.
pub record IsHeader (x : Header) : Type 0 where
  pub type_fits : x.type < 256
  pub payload_len_fits : x.payload_len < 256 ^ 4
  pub operation_data_fits : x.operation_data < 256 ^ 8

module _ ⦃net : NetworkOrder⦄ where
  -- Writes through a pointer to the first byte of `buf`.
  to_bytes_impl : Header → Bytes → Bytes
  to_bytes_impl x buf =
      copy_to 5 (encode 8 x.operation_data)
        (copy_to 1 (encode 4 x.payload_len) (copy_to 0 (x.type ∷ []) buf))

  -- The header as an array.
  unfoldable pub to_bytes : Header → Bytes
  unfolding to_bytes_impl
  to_bytes x = to_bytes_impl x (replicate header_size 0)

  -- The header in a buffer, whatever the buffer held.
  unfoldable pub to_buffer : Header → Bytes → Bytes
  unfolding to_bytes_impl
  to_buffer x buf = to_bytes_impl x (resize header_size buf)

  -- The source reads 13 bytes; it requires that many.
  unfoldable pub from_bytes : Bytes → Header
  from_bytes bytes = record {
    type = get_or bytes 0 0;
    payload_len = decode (take 4 (drop 1 bytes));
    operation_data = decode (take 8 (drop 5 bytes));
  }

-- `memcmp` over the bytes of both, as the sign of its result.
abbrev pub memcmp : Bytes → Bytes → Ordering
memcmp [] ys = Ordering.eq
memcmp (x ∷ xs) [] = Ordering.eq
memcmp (x ∷ xs) (y ∷ ys) = elim (Prim.Native.Nat.compare x y) [
  | Ordering.lt ↦ Ordering.lt
  | Ordering.gt ↦ Ordering.gt
  | Ordering.eq ↦ memcmp xs ys
]

module _ ⦃net : NetworkOrder⦄ where
  unfoldable pub compare : Header → Header → Ordering
  compare x y = memcmp (to_bytes x) (to_bytes y)
