-- ===== src/Net/Operation.antt =====
-- caf/net/operation.hpp and src/net/operation_strings.cpp.
use Prim.Native.String.{String}
use text.Mathlib.Text.{◌==◌ as str_eq}
use text.Mathlib.TextEquality.{eq_iff}
use incubator.Prelude.{
  ℕ, ◌==◌, ◌≡◌, refl, Bool, true, false, Option, none, some, if◌then◌else◌, arith,
}

-- Values of a bitmask of I/O operations, as the number that they are cast to.
abbrev pub Operation : Type 0
Operation = ℕ

abbrev pub no_operation : Operation
no_operation = 0

abbrev pub read : Operation
read = 1

abbrev pub write : Operation
write = 2

abbrev pub read_write : Operation
read_write = 3

abbrev pub shutdown : Operation
shutdown = 4

unfoldable pub to_string : Operation → String
to_string x =
    if x == no_operation
    then "none"
    else if x == read
    then "read"
    else if x == write
    then "write"
    else if x == read_write
    then "read_write"
    else if x == shutdown
    then "shutdown"
    else "???"

-- `none` stands for the result false, which leaves the output parameter alone.
unfoldable pub from_string : String → Option Operation
from_string s =
    if str_eq s "none"
    then some no_operation
    else if str_eq s "read"
    then some read
    else if str_eq s "write"
    then some write
    else if str_eq s "read_write"
    then some read_write
    else if str_eq s "shutdown"
    then some shutdown
    else none

unfoldable pub from_integer : ℕ → Option Operation
from_integer x =
    if x == no_operation
    then some x
    else if x == read
    then some x
    else if x == write
    then some x
    else if x == read_write
    then some x
    else if x == shutdown
    then some x
    else none

from_string_if :
    (b : Bool) (s t : String)
    → from_string (if b then s else t) ≡ (if b then from_string s else from_string t)
from_string_if true s t = refl
from_string_if false s t = refl

-- Reading the text of a value back gives what the check of its number gives: the value where it
-- is an enumerator, and a failure on every other byte.
pub from_string-to_string : (x : Operation) → from_string (to_string x) ≡ from_integer x
unfolding to_string from_integer
from_string-to_string x = simp from_string_if (unfold from_string in ground arith)

-- A text that is read as a value is the text of that value.
pub to_string-from_string : (s : String) (x : Operation) → from_string s ≡ some x → to_string x ≡ s
unfolding to_string from_string
to_string-from_string s x h = ground (
  arith,
  eq_iff s "none",
  eq_iff s "read",
  eq_iff s "write",
  eq_iff s "read_write",
  eq_iff s "shutdown",
)
