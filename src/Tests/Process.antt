-- ===== src/Tests/Process.antt =====
-- Runs of the listener, and of a process.
use dlms_transport.Prelude.{ℕ, ℤ, pos, ◌≡◌, true, false, List, [], ◌∷◌, some}
use dlms_transport.Buffer.{bytes, Input, Output}
use dlms_transport.Os.{IsClean, live, Agrees}
use dlms_transport.Tcp.Stream
use dlms_transport.Server.Accepted.{AcceptedTcpStream, close_stream, read_some, write_all}
use dlms_transport.Server.Listener.{TcpServerTransport, TcpServerTransportOptions, accept}
use dlms_transport.Server.Session.{ServerCall, StreamCall}
use dlms_transport.Server.Agreement.{
  client_of, SameRead, SameStatus, SameWrite, accepted_stream-Agrees,
}
use dlms_transport.Server.Outcomes.{Accepts, accept-Accepts}
use dlms_transport.Process.Objects.{makes_listener, makes_connection, on_listener, on_connection}
use dlms_transport.Process.Session.{Step, constructs, calls, accepts, destroys, lifetime}
use dlms_transport.Process.Ownership.{process_lifetime_releases}
use dlms_transport.Tests.System.{small_os, small_os-IsPosix}

abbrev server_options : TcpServerTransportOptions
server_options = record {
  host = [];
  port = 4059;
  backlog = pos 1;
  accept_timeout = record { milliseconds = 5000 };
  read_timeout = record { milliseconds = 5000 };
  write_timeout = record { milliseconds = 1500 };
}

abbrev open_server : TcpServerTransport
open_server = record { options = server_options; socket = pos 3; is_open = true; local_port = 4059 }

abbrev stream : AcceptedTcpStream
stream = record {
  socket = pos 4;
  read_timeout = record { milliseconds = 5000 };
  write_timeout = record { milliseconds = 1500 };
  is_open = true;
}

accept-Accepts_example : Accepts open_server (accept small_os (some stream) open_server []).0
accept-Accepts_example = accept-Accepts small_os (some stream) open_server []

accepted_stream-Agrees_example :
    Agrees SameStatus (close_stream stream) (Stream.close_stream small_os (client_of stream)) []
    × ((output : Output)
        → Agrees SameRead
            (read_some small_os output stream)
            (Stream.read_some small_os output (client_of stream))
            [])
    × ((fuel : ℕ) (input : Input)
        → Agrees
            (SameWrite stream)
            (write_all small_os fuel input stream)
            (Stream.write_all small_os fuel input (client_of stream))
            [])
accepted_stream-Agrees_example = accepted_stream-Agrees small_os stream []

-- A listener outlived by the stream that it accepted, a second accept into the same pointer, and a
-- pointer that is left to the end.
abbrev steps : List Step
steps =
    constructs (makes_listener server_options)
    ∷ constructs makes_connection
    ∷ calls 0 (on_listener ServerCall.opens)
    ∷ accepts 0 1
    ∷ calls 1 (on_connection (StreamCall.writes 9 (bytes (1 ∷ 2 ∷ []))))
    ∷ accepts 0 1
    ∷ destroys 0
    ∷ calls 1 (on_connection (StreamCall.reads (record { is_null = false; size = 4 })))
    ∷ []

process_lifetime_releases_example :
    let after = (lifetime small_os steps []).1 in
    IsClean after × ((j : ℤ) → live after j ≡ live [] j)
process_lifetime_releases_example = process_lifetime_releases small_os small_os-IsPosix steps [] tt
