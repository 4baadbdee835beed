-- ===== src/Net/Error.antt =====
-- The errors that the layers report: a code of the CAF core library (`sec`, `pec`) or of BASP
-- (`ec`), with the text that `make_error` is given, empty where it is given none.
use Prim.Native.String.{String}
use incubator.Prelude.{Option, none, some}
use incubator.Basp.Ec.{Ec}

pub data Code : Type 0 where
  runtime_error socket_invalid socket_operation_failed socket_disconnected : Code
  connection_closed unavailable_or_would_block : Code
  too_many_characters invalid_argument missing_field : Code
  basp : Ec → Code

pub record Error : Type 0 where
  pub code : Code
  pub text : String

abbrev pub make_error : Code → String → Error
make_error code text = record { code = code; text = text }

-- `abort_reason_or`: keeps a reason that is there, and sets the given one otherwise.
abbrev pub or_reason : Option Error → Error → Error
or_reason none e = e
or_reason (some r) e = r
