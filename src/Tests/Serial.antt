-- ===== src/Tests/Serial.antt =====
-- Runs of the serial transport.
use dlms_transport.Prelude.{ℕ, pos, true, refl, take, ◌++◌, arith, ℤ, ◌≡◌, false, List, [], ◌∷◌}
use dlms_transport.Buffer.{bytes}
use dlms_transport.Os.{accepted, Hands, IsClean, live}
use dlms_transport.Serial.Port.{
  SerialTransport, read_some, write_all, SerialTransportOptions, no_parity, one_stop_bit,
}
use dlms_transport.Serial.Session.{Call, opens, closes, reads, writes, lifetime}
use dlms_transport.Serial.Ownership.{serial_lifetime_releases}
use dlms_transport.Transfer.Delivery.{Verdict}
use dlms_transport.Serial.Reading.{serial_read_some-Hands}
use dlms_transport.Serial.Writing.{serial_write_all_delivers}
use dlms_transport.ByteStream.{IsByteStream, OpensAsPromised, ClosesWithPeer, Carries}
use dlms_transport.Status.{open_failed}
use dlms_transport.Serial.Promises.{Valid}
use dlms_transport.Serial.Interface.{serial_port, serial_port-IsByteStream}
use dlms_transport.Tests.System.{small_os, small_os-IsPosix, small_os-IsPatient}

abbrev options : SerialTransportOptions
options = record {
  device_name = 47 ∷ [];
  baud_rate = 9600;
  data_bits = 8;
  parity = no_parity;
  stop_bits = one_stop_bit;
  read_timeout = record { milliseconds = 5000 };
  write_timeout = record { milliseconds = 1500 };
}

abbrev calls : List Call
calls =
    opens
    ∷ writes 9 (bytes (1 ∷ 2 ∷ []))
    ∷ reads (record { is_null = false; size = 4 })
    ∷ closes
    ∷ opens
    ∷ []

serial_lifetime_releases_example :
    let after = (lifetime small_os options calls []).1 in
    IsClean after × ((j : ℤ) → live after j ≡ live [] j)
serial_lifetime_releases_example =
    serial_lifetime_releases small_os small_os-IsPosix options calls [] tt

abbrev open_port : SerialTransport
open_port = record { options = options; handle = pos 5; is_open = true }

serial_write_all_delivers_example :
    let r = write_all small_os 9 (bytes (1 ∷ 2 ∷ 3 ∷ [])) open_port [] in
    (n : ℕ) × Verdict r.0 n 3
    × (accepted (pos 5) r.1 ≡ accepted (pos 5) [] ++ take n (1 ∷ 2 ∷ 3 ∷ []))
serial_write_all_delivers_example =
    serial_write_all_delivers small_os (λ h. 0) small_os-IsPosix small_os-IsPatient 9
      (bytes (1 ∷ 2 ∷ 3 ∷ [])) open_port [] refl refl (omega arith)

serial_read_some-Hands_example :
    let r = read_some small_os (record { is_null = false; size = 4 }) open_port [] in
    Hands (pos 5) 4 [] r.0 r.1
serial_read_some-Hands_example =
    serial_read_some-Hands small_os small_os-IsPosix (record { is_null = false; size = 4 })
      open_port []

serial_port-IsByteStream_example :
    IsByteStream (serial_port small_os (λ h. 0))
    × OpensAsPromised
        (serial_port small_os (λ h. 0))
        (λ w. Valid w.0.options)
        (λ s. s ≡ open_failed)
    × ((limit : ℕ)
        → ClosesWithPeer (serial_port small_os (λ h. 0)) limit
          × Carries (serial_port small_os (λ h. 0)) (λ w. accepted w.0.handle w.1) limit)
serial_port-IsByteStream_example =
    serial_port-IsByteStream small_os (λ h. 0) small_os-IsPosix small_os-IsPatient
