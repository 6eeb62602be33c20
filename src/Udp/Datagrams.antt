-- ===== src/Udp/Datagrams.antt =====
-- One `Receive` of the UDP transport, and the datagrams that wait in the socket.
use dlms_transport.Prelude.{ℕ, ℤ, ◌^◌, ◌<◌, refl, not, List, ltb, Option, none, some, arith}
use dlms_transport.Status.{not_open, invalid_argument, read_failed, is_ok}
use dlms_transport.Buffer.{Bytes, Output, bad_output, no_bytes}
use dlms_transport.Os.{
  Os, History, Ends, Ends-return, Ends-bind, Ends-if, Kept, Kept-refl, IsDatagramSystem,
}
use dlms_transport.Udp.Transport.{UdpTransport, receive_pending, receive}
use dlms_transport.Udp.Waiting.{
  ReceivesOne, Refused, Ready, Asked, waited-Ready, pending-Asked, Kept-asked, left_one, recv-One,
}

module _ (os : Os) (waiting : ℤ → History → List Bytes) (system : IsDatagramSystem os waiting)
    (output : Output) (t : UdpTransport) (short : output.size < 2 ^ 31) where
  receive_pending-One :
      (pending : Option ℕ) (h k l : History)
      → Kept os waiting t.socket h k
      → Ready os waiting system t.socket k
      → Asked os waiting system t.socket k pending l
      → Ends (receive_pending os output t pending) l (ReceivesOne os waiting t.socket output.size h)
  unfolding receive_pending
  receive_pending-One none h k l arrived ready told = rw told.0 (
      Ends-return _ (
        Refused os waiting system t.socket read_failed refl refl
          (Kept-asked os waiting system t.socket output.size short h k arrived ready)))
  receive_pending-One (some pending) h k l arrived ready told =
      let front_size = told.1 pending refl in
      rw told.0 (
        Ends-if (ltb output.size pending)
          (λ g. Ends-return _ (
            left_one os waiting system t.socket output.size short h k arrived ready (ground arith)))
          (λ g.
            recv-One os waiting system t.socket output.size short h k arrived ready (ground arith)))

-- `Receive` with a buffer whose size fits an `int`, over a system whose datagram sockets behave as
-- udp(7) and recv(2) document it, in every state and on every branch. When it is `Ok`, what it hands
-- out is one whole datagram, counted and within the buffer: with what arrived meanwhile behind them,
-- the datagrams that waited are this one followed by those that wait now. Otherwise it counts no
-- bytes, and every datagram that waited still waits, in its place. And when it is
-- OutputBufferTooSmall, the datagram in front is larger than the buffer.
pub receive-One :
    (os : Os) (waiting : ℤ → History → List Bytes)
    → IsDatagramSystem os waiting
    → (output : Output) (t : UdpTransport) (h : History) → output.size < 2 ^ 31
    → let r = receive os output t h in ReceivesOne os waiting t.socket output.size h r.0 r.1
receive-One os waiting system output t h short = ended.at
  where
    nothing : ReceivesOne os waiting t.socket output.size h (no_bytes not_open) h
    nothing =
        Refused os waiting system t.socket not_open refl refl (Kept-refl os waiting t.socket h)

    ended : Ends (receive os output t) h (ReceivesOne os waiting t.socket output.size h)
    ended =
        unfold receive in
        Ends-if (not t.is_open) (λ e. Ends-return _ nothing)
          λ e.
            Ends-if (bad_output output)
              (λ e. Ends-return _ (
                Refused os waiting system t.socket invalid_argument refl refl
                  (Kept-refl os waiting t.socket h)))
              λ e.
                Ends-bind (waited-Ready os waiting system t.socket t.options.receive_timeout h)
                  λ waited k p.
                    Ends-if (not (is_ok waited))
                      (λ f.
                        Ends-return _
                          (Refused os waiting system t.socket waited (ground arith) p.2 p.0))
                      λ f. Ends-bind (pending-Asked os waiting system t.socket k) λ pending l q.
                        receive_pending-One os waiting system output t short pending h k l p.0
                          (p.1 (ground arith)) q
