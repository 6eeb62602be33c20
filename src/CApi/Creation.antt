-- ===== src/CApi/Creation.antt =====
-- What the functions of the C interface that create report.
use dlms_transport.Prelude.{
  ℕ, ◌≡◌, refl, Bool, not, ◌||◌, if◌then◌else◌, if_cases, ◌⊎◌, inl, inr, Option, none, some,
}
use dlms_transport.Buffer.{Bytes}
use dlms_transport.CApi.Codes.{
  code_ok, code_invalid_argument, code_internal_error, valid_parity, valid_stop_bits,
}
use dlms_transport.CApi.Tcp.{TcpOptions, tcp_create_with, tcp_create}
use dlms_transport.CApi.Udp.{UdpOptions, udp_create}
use dlms_transport.CApi.Serial.{SerialOptions, serial_create_with, serial_create}

-- The code is Ok and there is a handle, or it is one of two others and the handle is null.
abbrev pub IsReported : {T : Type 0} → ℕ × Option T → Type 0
IsReported {T} r =
    (r.0 ≡ code_ok) × ((t : T) × (r.1 ≡ some t))
    ⊎ ((r.0 ≡ code_invalid_argument) ⊎ (r.0 ≡ code_internal_error)) × (r.1 ≡ none)

invalid-IsReported : {T : Type 0} → IsReported {T = T} (code_invalid_argument, none)
invalid-IsReported = inr (inl refl, refl)

module _ {T : Type 0} (b : Bool) where
  -- An early return, and the allocation.
  checked-IsReported :
      {r : ℕ × Option T}
      → IsReported r
      → IsReported (if b then (code_invalid_argument, none) else r)
  checked-IsReported p = if_cases (IsReported {T = T}) b (λ e. invalid-IsReported) (λ e. p)

  allocated-IsReported :
      (t : T) → IsReported (if b then (code_ok, some t) else (code_internal_error, none))
  allocated-IsReported t =
      if_cases (IsReported {T = T}) b (λ e. inl (refl, (t, refl))) (λ e. inr (inr refl, refl))

tcp_create_with-IsReported :
    (memory : Bool) (options : TcpOptions) (host : Option Bytes)
    → IsReported (tcp_create_with memory options host)
tcp_create_with-IsReported memory options none = invalid-IsReported
tcp_create_with-IsReported memory options (some host) = allocated-IsReported memory _

tcp_create-IsReported :
    (memory out_null : Bool) (options : Option TcpOptions)
    → IsReported (tcp_create memory options out_null)
unfolding tcp_create
tcp_create-IsReported memory out_null none = invalid-IsReported
tcp_create-IsReported memory out_null (some options) =
    checked-IsReported out_null (tcp_create_with-IsReported memory options options.host)

udp_create-IsReported :
    (memory out_null : Bool) (options : Option UdpOptions)
    → IsReported (udp_create memory options out_null)
unfolding udp_create
udp_create-IsReported memory out_null none = invalid-IsReported
udp_create-IsReported memory out_null (some options) =
    checked-IsReported out_null (allocated-IsReported memory _)

serial_create_with-IsReported :
    (memory : Bool) (options : SerialOptions) (name : Option Bytes)
    → IsReported (serial_create_with memory options name)
serial_create_with-IsReported memory options none = invalid-IsReported
serial_create_with-IsReported memory options (some name) =
    checked-IsReported
      (not (valid_parity options.parity) || not (valid_stop_bits options.stop_bits))
      (allocated-IsReported memory _)

serial_create-IsReported :
    (memory out_null : Bool) (options : Option SerialOptions)
    → IsReported (serial_create memory options out_null)
unfolding serial_create
serial_create-IsReported memory out_null none = invalid-IsReported
serial_create-IsReported memory out_null (some options) =
    checked-IsReported out_null (serial_create_with-IsReported memory options options.device_name)

-- For all options, null ones and invalid ones included, and whether or not the pointer for the
-- handle is null and the memory runs out: the functions that create a TCP client, a UDP transport
-- and a serial transport return Ok with a handle, or InvalidArgument or InternalError with none.
pub create_reports :
    (memory out_null : Bool) (tcp : Option TcpOptions) (udp : Option UdpOptions)
    (serial : Option SerialOptions)
    → IsReported (tcp_create memory tcp out_null)
      × IsReported (udp_create memory udp out_null)
      × IsReported (serial_create memory serial out_null)
create_reports memory out_null tcp udp serial = (
  tcp_create-IsReported memory out_null tcp,
  udp_create-IsReported memory out_null udp,
  serial_create-IsReported memory out_null serial,
)
