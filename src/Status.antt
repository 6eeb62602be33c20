-- ===== src/Status.antt =====
-- include/dlms/transport/transport_status.hpp: the status of every transport call.
use Prim.Native.String.{String}
use dlms_transport.Prelude.{Bool, true, false}

pub data Status : Type 0 where
  ok invalid_argument not_open already_open open_failed read_failed write_failed timeout : Status
  connection_closed would_block output_buffer_too_small unsupported_feature internal_error : Status

unfoldable pub to_string : Status → String
to_string ok = "Ok"
to_string invalid_argument = "InvalidArgument"
to_string not_open = "NotOpen"
to_string already_open = "AlreadyOpen"
to_string open_failed = "OpenFailed"
to_string read_failed = "ReadFailed"
to_string write_failed = "WriteFailed"
to_string timeout = "Timeout"
to_string connection_closed = "ConnectionClosed"
to_string would_block = "WouldBlock"
to_string output_buffer_too_small = "OutputBufferTooSmall"
to_string unsupported_feature = "UnsupportedFeature"
to_string internal_error = "InternalError"

-- `status == TransportStatus::Ok`, and the same for the two others that the code compares with.
abbrev pub is_ok : Status → Bool
is_ok ok = true
is_ok _ = false

abbrev pub is_timeout : Status → Bool
is_timeout timeout = true
is_timeout _ = false

abbrev pub is_already_open : Status → Bool
is_already_open already_open = true
is_already_open _ = false
