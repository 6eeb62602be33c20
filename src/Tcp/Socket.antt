-- ===== src/Tcp/Socket.antt =====
-- The helpers of tcp_stream_transport.cpp over one socket, in their POSIX branch.
use Prim.Native.Nat.{bit_or}
use dlms_transport.Prelude.{
  ℕ, ℤ, ◌*◌, ◌/◌, ◌%◌, Bool, true, false, not, ◌||◌, ◌==◌, if◌then◌else◌, is_positive, is_zero,
  is_negative, to_size,
}
use dlms_transport.Status.{Status, ok, timeout, read_failed, write_failed, open_failed}
use dlms_transport.Timer.{TransportDuration}
use dlms_transport.Os.{
  Os, Timeval, Io, ◌>>=◌, return, call_getfl, call_setfl, call_select, call_socket_error,
}

-- WinSock needs a start-up call, POSIX does not.
abbrev pub socket_runtime_ready : Bool
socket_runtime_ready = true

abbrev pub is_would_block : Os → ℕ → Bool
is_would_block os error = error == os.einprogress || (error == os.ewouldblock || error == os.eagain)

pub to_timeval : TransportDuration → Timeval
to_timeval t = record { tv_sec = t.milliseconds / 1000; tv_usec = (t.milliseconds % 1000) * 1000 }

module _ (os : Os) where
  unfoldable pub set_non_blocking : ℤ → Io Bool
  set_non_blocking fd = do
    flags ← call_getfl os fd
    if is_negative flags then return false else do
      result ← call_setfl os fd (bit_or (to_size flags) os.o_nonblock)
      return (is_zero result)

  abbrev pub wait_status : Bool → ℤ → Status
  wait_status wait_for_read result =
      if is_positive result
      then ok
      else if is_zero result
      then timeout
      else if wait_for_read
      then read_failed
      else write_failed

  unfoldable pub wait_for_socket : ℤ → Bool → TransportDuration → Io Status
  unfolding to_timeval
  wait_for_socket fd wait_for_read t = do
    result ← call_select os fd wait_for_read (to_timeval t)
    return (wait_status wait_for_read result)

  -- `getsockopt` answers with its result and the pending error of the socket.
  unfoldable pub check_connected : ℤ → Io Status
  check_connected fd = do
    answer ← call_socket_error os fd
    return (
        if not (is_zero answer.0)
        then open_failed
        else if is_zero answer.1
        then ok
        else open_failed)
