-- ===== src/CApi/Codes.antt =====
-- The numbers of transport_c_api.h, which are part of the ABI, and their conversions.
use Prim.Native.String.{String}
use dlms_transport.Prelude.{ℕ, Bool, ◌||◌, ◌==◌, if◌then◌else◌, [], Option, none, some}
use dlms_transport.Status.{
  Status, ok, invalid_argument, not_open, already_open, open_failed, read_failed, write_failed,
  timeout, connection_closed, would_block, output_buffer_too_small, unsupported_feature,
  internal_error, to_string,
}
use dlms_transport.Buffer.{Bytes, Read}
use dlms_transport.Timer.{TransportDuration}
use dlms_transport.Serial.Port.{
  SerialParity, no_parity, even_parity, odd_parity, SerialStopBits, one_stop_bit, two_stop_bits,
}

-- `dlms_transport_status_t`
abbrev pub code_ok : ℕ
code_ok = 0

abbrev pub code_invalid_argument : ℕ
code_invalid_argument = 1

abbrev pub code_internal_error : ℕ
code_internal_error = 12

-- `static_cast<int>` of the enumeration: the position of its constant.
unfoldable pub to_c_status : Status → ℕ
to_c_status ok = 0
to_c_status invalid_argument = 1
to_c_status not_open = 2
to_c_status already_open = 3
to_c_status open_failed = 4
to_c_status read_failed = 5
to_c_status write_failed = 6
to_c_status timeout = 7
to_c_status connection_closed = 8
to_c_status would_block = 9
to_c_status output_buffer_too_small = 10
to_c_status unsupported_feature = 11
to_c_status internal_error = 12

-- `static_cast` back: `none` is a value that is no constant of the enumeration.
unfoldable pub from_c_status : ℕ → Option Status
from_c_status code =
    if code == 0
    then some ok
    else if code == 1
    then some invalid_argument
    else if code == 2
    then some not_open
    else if code == 3
    then some already_open
    else if code == 4
    then some open_failed
    else if code == 5
    then some read_failed
    else if code == 6
    then some write_failed
    else if code == 7
    then some timeout
    else if code == 8
    then some connection_closed
    else if code == 9
    then some would_block
    else if code == 10
    then some output_buffer_too_small
    else if code == 11
    then some unsupported_feature
    else if code == 12
    then some internal_error
    else none

-- `ToString` of such a value is "Unknown".
abbrev pub name_of : Option Status → String
name_of none = "Unknown"
name_of (some s) = to_string s

unfoldable pub status_to_string : ℕ → String
unfolding from_c_status
status_to_string code = name_of (from_c_status code)

abbrev pub duration : ℕ → TransportDuration
duration milliseconds = record { milliseconds = milliseconds }

unfoldable pub to_cpp_parity : ℕ → SerialParity
to_cpp_parity parity =
    if parity == 0
    then no_parity
    else if parity == 1
    then even_parity
    else if parity == 2
    then odd_parity
    else no_parity

unfoldable pub to_cpp_stop_bits : ℕ → SerialStopBits
to_cpp_stop_bits stop_bits =
    if stop_bits == 0 then one_stop_bit else if stop_bits == 1 then two_stop_bits else one_stop_bit

abbrev pub valid_parity : ℕ → Bool
valid_parity parity = parity == 0 || (parity == 1 || parity == 2)

abbrev pub valid_stop_bits : ℕ → Bool
valid_stop_bits stop_bits = stop_bits == 0 || stop_bits == 1

-- The code of a read, `*bytes_read` after it (`none` if the pointer is null), and the bytes put at
-- the front of the buffer.
pub record CodedRead : Type 0 where
  pub code : ℕ
  pub bytes_read : Option ℕ
  pub output : Bytes

abbrev pub coded : Read → CodedRead
coded r = record { code = to_c_status r.status; bytes_read = some r.bytes_read; output = r.output }

-- The early return: `*bytes_read` is set to zero, if there is one.
abbrev pub refused_read : Bool → CodedRead
refused_read null = record {
  code = code_invalid_argument;
  bytes_read = if null then none else some 0;
  output = [];
}

-- Of a loop on fuel: no code, if it has not ended.
abbrev pub coded_end : Option Status → Option ℕ
coded_end none = none
coded_end (some s) = some (to_c_status s)
