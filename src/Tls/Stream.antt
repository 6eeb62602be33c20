-- ===== src/Tls/Stream.antt =====
-- `TlsStreamTransport` of tls_stream_transport.cpp, over the interface of the lower stream and of
-- the backend, which the user supplies.
use dlms_transport.Prelude.{
  Bool, true, false, not, ◌&&◌, ◌||◌, if◌then◌else◌, is_empty, Option, none, some,
}
use dlms_transport.Status.{
  Status, ok, invalid_argument, not_open, already_open, unsupported_feature, is_ok, is_already_open,
}
use dlms_transport.Buffer.{Bytes, Input, bad_input, Output, bad_output, Read, no_bytes}
use dlms_transport.ByteStream.{ByteStream}

pub record TlsStreamTransportOptions : Type 0 where
  pub server_name : Bytes
  pub verify_peer : Bool

-- `ITlsStreamBackend`. The operations work on the lower stream by its state, and may keep their
-- own in `W` as well.
pub record TlsStreamBackend (W : Type 0) : Type 0 where
  pub handshake : ByteStream W → TlsStreamTransportOptions → W → Status × W
  pub close_backend : ByteStream W → W → Status × W
  pub read_backend : ByteStream W → Output → W → Read × W
  pub write_backend : ByteStream W → Input → W → Status × W

abbrev pub unsupported_backend : {W : Type 0} → TlsStreamBackend W
unsupported_backend = record {
  handshake = λ lower options w. (unsupported_feature, w);
  close_backend = λ lower w. lower.close_stream w;
  read_backend = λ lower output w. (no_bytes unsupported_feature, w);
  write_backend = λ lower input w. (unsupported_feature, w);
}

-- A null pointer is `none`.
pub record TlsStreamTransport (W : Type 0) : Type 0 where
  pub lower : Option (ByteStream W)
  pub backend : Option (TlsStreamBackend W)
  pub options : TlsStreamTransportOptions
  pub is_open : Bool

abbrev pub is_null : {A : Type 0} → Option A → Bool
is_null none = true
is_null (some a) = false

-- `none` is the dereference of a null pointer.
abbrev pub Outcome : Type 0 → Type 0
Outcome W = Option (Status × TlsStreamTransport W × W)

module _ {W : Type 0} where
  -- The constructor.
  abbrev pub new_stream :
      Option (ByteStream W)
      → Option (TlsStreamBackend W)
      → TlsStreamTransportOptions
      → TlsStreamTransport W
  new_stream lower backend options = record {
    lower = lower;
    backend = backend;
    options = options;
    is_open = false;
  }

  abbrev pub has_valid_configuration : TlsStreamTransport W → Bool
  has_valid_configuration t =
      if is_null t.lower || is_null t.backend
      then false
      else if t.options.verify_peer && is_empty t.options.server_name
      then false
      else true

  -- After the handshake.
  unfoldable pub shaken : ByteStream W → TlsStreamTransport W → Status × W → Outcome W
  shaken lower t answer =
      if is_ok answer.0
      then some (ok, record t { is_open = true }, answer.1)
      else some (answer.0, t, (lower.close_stream answer.1).1)

  unfoldable pub connect :
      TlsStreamTransport W → Option (ByteStream W) → Option (TlsStreamBackend W) → W → Outcome W
  unfolding shaken
  connect t (some lower) (some backend) w =
      let answer = lower.open_stream w in
      if not (is_ok answer.0) && not (is_already_open answer.0)
      then some (answer.0, t, answer.1)
      else shaken lower t (backend.handshake lower t.options answer.1)
  connect t none backend w = none
  connect t (some lower) none w = none

  unfoldable pub open_stream : TlsStreamTransport W → W → Outcome W
  unfolding connect
  open_stream t w =
      if t.is_open
      then some (already_open, t, w)
      else if not (has_valid_configuration t)
      then some (invalid_argument, t, w)
      else connect t t.lower t.backend w

  -- `Close` asks for each pointer, so it dereferences no null pointer.
  abbrev pub close_lower : Option (ByteStream W) → W → Status × W
  close_lower none w = (ok, w)
  close_lower (some lower) w = lower.close_stream w

  abbrev pub close_both : Option (ByteStream W) → Option (TlsStreamBackend W) → W → Status × W
  close_both (some lower) (some backend) w =
      let status = backend.close_backend lower w in
      let lower_status = lower.close_stream status.1 in
      (if is_ok status.0 then lower_status.0 else status.0, lower_status.1)
  close_both lower none w = close_lower lower w
  close_both none (some backend) w = (ok, w)

  unfoldable pub close_stream : TlsStreamTransport W → W → Status × TlsStreamTransport W × W
  close_stream t w =
      if not t.is_open
      then (ok, t, (close_lower t.lower w).1)
      else let closed = close_both t.lower t.backend w in
        (closed.0, record t { is_open = false }, closed.1)

  abbrev pub is_lower_open : Option (ByteStream W) → W → Bool
  is_lower_open none w = false
  is_lower_open (some lower) w = lower.is_open w

  unfoldable pub is_stream_open : TlsStreamTransport W → W → Bool
  is_stream_open t w = t.is_open && is_lower_open t.lower w

  abbrev pub read_through :
      Option (ByteStream W) → Option (TlsStreamBackend W) → Output → W → Option (Read × W)
  read_through (some lower) (some backend) output w = some (backend.read_backend lower output w)
  read_through none backend output w = none
  read_through (some lower) none output w = none

  unfoldable pub read_some : TlsStreamTransport W → Output → W → Option (Read × W)
  read_some t output w =
      if not t.is_open
      then some (no_bytes not_open, w)
      else if bad_output output
      then some (no_bytes invalid_argument, w)
      else read_through t.lower t.backend output w

  abbrev pub write_through :
      Option (ByteStream W) → Option (TlsStreamBackend W) → Input → W → Option (Status × W)
  write_through (some lower) (some backend) input w = some (backend.write_backend lower input w)
  write_through none backend input w = none
  write_through (some lower) none input w = none

  unfoldable pub write_all : TlsStreamTransport W → Input → W → Option (Status × W)
  write_all t input w =
      if not t.is_open
      then some (not_open, w)
      else if bad_input input
      then some (invalid_argument, w)
      else write_through t.lower t.backend input w
