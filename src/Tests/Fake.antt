-- ===== src/Tests/Fake.antt =====
-- Runs of the fakes.
use dlms_transport.Prelude.{ℕ, ◌≡◌, true, false, List, [], ◌∷◌, ◌++◌, arith}
use dlms_transport.Status.{ok, timeout}
use dlms_transport.Buffer.{Output}
use dlms_transport.Fake.Stream.{FakeByteStream}
use dlms_transport.Fake.Datagram.{FakeDatagramTransport}
use dlms_transport.Fake.Timer.{monotonic_milliseconds, sleeps, sleeps_advance}
use dlms_transport.Fake.Laws.{Act, scripts, scripts_status, reads, play, pending, play_fifo}
use dlms_transport.Fake.Delivery.{contents_of, AllFit, deliver, deliver_fifo}

abbrev buffer : ℕ → Output
buffer n = record { is_null = false; size = n }

abbrev acts : List Act
acts =
    scripts (1 ∷ 2 ∷ 3 ∷ [])
    ∷ reads (buffer 2)
    ∷ scripts_status timeout
    ∷ reads (buffer 2)
    ∷ scripts (4 ∷ [])
    ∷ reads (buffer 2)
    ∷ []

abbrev stream : FakeByteStream
stream = record {
  is_open = true;
  read_chunks = [];
  writes = [];
  next_read_status = ok;
  next_write_status = ok;
}

abbrev datagram : FakeDatagramTransport
datagram = record {
  is_open = true;
  receive_datagrams = [];
  sent_datagrams = [];
  next_receive_status = ok;
  next_send_status = ok;
}

play_fifo_example :
    (play acts stream).0 ++ pending (play acts stream).1.read_chunks ≡ 1 ∷ 2 ∷ 3 ∷ 4 ∷ []
play_fifo_example = play_fifo acts stream

deliver_fifo_example :
    (contents_of (deliver acts datagram).0 ++ (deliver acts datagram).1.receive_datagrams
      ≡ (1 ∷ 2 ∷ 3 ∷ []) ∷ (4 ∷ []) ∷ [])
    × AllFit (deliver acts datagram).0
deliver_fifo_example = deliver_fifo acts datagram

-- The clock wraps.
sleeps_advance_example :
    monotonic_milliseconds (
      sleeps
        (record { milliseconds = 7 } ∷ record { milliseconds = 5 } ∷ [])
        (record { now = 0xffff_ffff_ffff_fff9 }))
    ≡ (ok, 5)
sleeps_advance_example =
    sleeps_advance (record { milliseconds = 7 } ∷ record { milliseconds = 5 } ∷ [])
      (record { now = 0xffff_ffff_ffff_fff9 }) (omega arith)
