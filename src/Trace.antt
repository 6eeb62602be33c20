-- ===== src/Trace.antt =====
-- include/dlms/transport/transport_trace.hpp: the trace events, and their delivery to a sink.
use dlms_transport.Prelude.{ℕ, [], Option, none, some}
use dlms_transport.Status.{Status, ok}
use dlms_transport.Buffer.{Bytes}

pub data TransportTraceEventKind : Type 0 where
  opens closes accepts reads writes sends receives : TransportTraceEventKind

pub data TransportTraceDirection : Type 0 where
  no_direction inbound outbound : TransportTraceDirection

pub record TransportTraceEvent : Type 0 where
  pub kind : TransportTraceEventKind
  pub direction : TransportTraceDirection
  pub status : Status
  pub endpoint : Bytes
  pub byte_count : ℕ
  pub timestamp_milliseconds : ℕ

-- The constructor.
abbrev pub new_event : TransportTraceEvent
new_event = record {
  kind = opens;
  direction = no_direction;
  status = ok;
  endpoint = [];
  byte_count = 0;
  timestamp_milliseconds = 0;
}

-- `ITransportTraceSink`: what the user's sink does to the state of the program.
abbrev pub TraceSink : Type 0 → Type 0
TraceSink W = TransportTraceEvent → W → W

-- `DisabledTransportTraceSink`
abbrev pub disabled_sink : {W : Type 0} → TraceSink W
disabled_sink event w = w

-- The sink is a pointer, which may be null.
abbrev pub emit_transport_trace : {W : Type 0} → Option (TraceSink W) → TraceSink W
emit_transport_trace none event w = w
emit_transport_trace (some sink) event w = sink event w
