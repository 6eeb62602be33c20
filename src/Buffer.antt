-- ===== src/Buffer.antt =====
-- The caller-owned buffers of byte_stream.hpp and datagram_transport.hpp, and what a read returns.
use dlms_transport.Prelude.{ℕ, Bool, false, not, ◌&&◌, List, [], length, ◌==◌}
use dlms_transport.Status.{Status}

-- A byte is a number below 256.
abbrev pub Bytes : Type 0
Bytes = List ℕ

-- `const std::uint8_t* input, std::size_t inputSize`: a null pointer with a size, or a buffer.
pub data Input : Type 0 where
  null : ℕ → Input
  bytes : Bytes → Input

abbrev pub input_size : Input → ℕ
input_size (null n) = n
input_size (bytes xs) = length xs

abbrev pub contents : Input → Bytes
contents (null n) = []
contents (bytes xs) = xs

-- `input == 0 && inputSize != 0`
abbrev pub bad_input : Input → Bool
bad_input (null n) = not (n == 0)
bad_input (bytes xs) = false

-- `std::uint8_t* output, std::size_t outputSize`
pub record Output : Type 0 where
  pub is_null : Bool
  pub size : ℕ

-- `output == 0 && outputSize != 0`
abbrev pub bad_output : Output → Bool
bad_output o = o.is_null && not (o.size == 0)

-- The status, the out parameter `bytesRead`, and the bytes put at the front of the buffer.
pub record Read : Type 0 where
  pub status : Status
  pub bytes_read : ℕ
  pub output : Bytes

-- A read that returns early: `bytesRead` was set to zero, and the buffer is untouched.
abbrev pub no_bytes : Status → Read
no_bytes s = record { status = s; bytes_read = 0; output = [] }
