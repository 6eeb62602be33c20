-- ===== src/Fake/Delivery.antt =====
-- What the fake datagram transport delivers.
use dlms_transport.Prelude.{
  ℕ, ◌≤◌, ◌≡◌, refl, sym, ap, ◌∙◌, not, List, [], ◌∷◌, ◌++◌, length, append_assoc, append-nil,
  if◌then◌else◌, if_cases, ltb, arith, Bool-cases, inl, inr,
}
use dlms_transport.Status.{is_ok}
use dlms_transport.Buffer.{Bytes, Output, bad_output, Read}
use dlms_transport.Fake.Datagram.{
  FakeDatagramTransport, receive, receive_front, script_receive, script_next_receive_status,
}
use dlms_transport.Fake.Laws.{Act, scripts, scripts_status, reads}

-- A receive hands out a datagram when it returns `Ok`.
abbrev pub delivered : Read → List Bytes
delivered r = if is_ok r.status then r.output ∷ [] else []

-- A receive that gave `r` and left `queue`, from `before` into a buffer of this size.
pub record Receives (size : ℕ) (before : List Bytes) (r : Read) (queue : List Bytes) : Type 0 where
  pub order : delivered r ++ queue ≡ before
  pub counted : r.bytes_read ≡ length r.output
  pub fits : r.bytes_read ≤ size

receive_front-Receives :
    (size : ℕ) (s : FakeDatagramTransport) (queue : List Bytes)
    → s.receive_datagrams ≡ queue
    → let r = receive_front size s queue in Receives size queue r.0 r.1.receive_datagrams
receive_front-Receives size s [] e = record { order = e; counted = refl; fits = omega arith }
receive_front-Receives size s (datagram ∷ later) e =
    if_cases
      (λ (r : Read × FakeDatagramTransport).
        Receives size (datagram ∷ later) r.0 r.1.receive_datagrams)
      (ltb size (length datagram))
      (λ small. record { order = e; counted = refl; fits = omega arith })
      (λ large. record { order = refl; counted = refl; fits = ground arith })

receive-Receives :
    (output : Output) (s : FakeDatagramTransport)
    → let r = receive output s in Receives output.size s.receive_datagrams r.0 r.1.receive_datagrams
unfolding receive
receive-Receives output s =
    if_cases Q (not s.is_open) (λ e. record { order = refl; counted = refl; fits = omega arith })
      λ e.
        if_cases Q (bad_output output)
          (λ e. record { order = refl; counted = refl; fits = omega arith })
          λ e.
            if_cases Q (not (is_ok s.next_receive_status))
              (λ e. record { order = ground arith; counted = refl; fits = omega arith })
              (λ e. receive_front-Receives output.size s s.receive_datagrams refl)
  where
    Q : Read × FakeDatagramTransport → Type 0
    Q r = Receives output.size s.receive_datagrams r.0 r.1.receive_datagrams

-- What the receives of a test deliver, in order, each datagram with the size of the buffer that it
-- was put in; and the transport at the end.
abbrev pub delivered_into : ℕ → Read → List (ℕ × Bytes)
delivered_into size r = if is_ok r.status then (size, r.output) ∷ [] else []

pub deliver : List Act → FakeDatagramTransport → List (ℕ × Bytes) × FakeDatagramTransport
deliver [] s = ([], s)
deliver (scripts xs ∷ acts) s = deliver acts (script_receive xs s)
deliver (scripts_status status ∷ acts) s = deliver acts (script_next_receive_status status s)
deliver (reads output ∷ acts) s =
    let r = receive output s in
    let rest = deliver acts r.1 in (delivered_into output.size r.0 ++ rest.0, rest.1)

-- The datagrams without the sizes, and that each fits its buffer.
abbrev pub contents_of : List (ℕ × Bytes) → List Bytes
contents_of [] = []
contents_of ((size, xs) ∷ l) = xs ∷ contents_of l

abbrev pub AllFit : List (ℕ × Bytes) → Type 0
AllFit [] = Unit {0}
AllFit ((size, xs) ∷ l) = (length xs ≤ size) × AllFit l

contents_of-delivered :
    (size : ℕ) (r : Read) (l : List (ℕ × Bytes))
    → contents_of (delivered_into size r ++ l) ≡ delivered r ++ contents_of l
contents_of-delivered size r l = elim (Bool-cases (is_ok r.status)) [
  | inl e ↦ rw e refl
  | inr e ↦ rw e refl
]

AllFit-delivered :
    (size : ℕ) (r : Read) (l : List (ℕ × Bytes))
    → length r.output ≤ size
    → AllFit l
    → AllFit (delivered_into size r ++ l)
AllFit-delivered size r l p rest = elim (Bool-cases (is_ok r.status)) [
  | inl e ↦ rw e (p, rest)
  | inr e ↦ rw e rest
]

-- The datagrams scripted.
abbrev pub datagrams : List Act → List Bytes
datagrams [] = []
datagrams (scripts xs ∷ acts) = xs ∷ datagrams acts
datagrams (_ ∷ acts) = datagrams acts

deliver_order :
    (acts : List Act) (s : FakeDatagramTransport)
    → contents_of (deliver acts s).0 ++ (deliver acts s).1.receive_datagrams
      ≡ s.receive_datagrams ++ datagrams acts
unfolding deliver script_receive script_next_receive_status
deliver_order [] s = sym (append-nil _)
deliver_order (scripts xs ∷ acts) s =
    deliver_order acts (script_receive xs s)
    ∙ append_assoc s.receive_datagrams (xs ∷ []) (datagrams acts)
deliver_order (scripts_status status ∷ acts) s =
    deliver_order acts (script_next_receive_status status s)
deliver_order (reads output ∷ acts) s =
    let r = receive output s in
    ap (λ b. b ++ (deliver acts r.1).1.receive_datagrams)
      (contents_of-delivered output.size r.0 (deliver acts r.1).0)
    ∙ append_assoc (delivered r.0) _ _
    ∙ ap (◌++◌ (delivered r.0)) (deliver_order acts r.1)
    ∙ sym (append_assoc (delivered r.0) _ _)
    ∙ ap (λ b. b ++ datagrams acts) (receive-Receives output s).order

deliver-AllFit : (acts : List Act) (s : FakeDatagramTransport) → AllFit (deliver acts s).0
unfolding deliver script_receive script_next_receive_status
deliver-AllFit [] s = tt
deliver-AllFit (scripts xs ∷ acts) s = deliver-AllFit acts (script_receive xs s)
deliver-AllFit (scripts_status status ∷ acts) s =
    deliver-AllFit acts (script_next_receive_status status s)
deliver-AllFit (reads output ∷ acts) s =
    let p = receive-Receives output s in
    AllFit-delivered output.size (receive output s).0 (deliver acts (receive output s).1).0
      (omega (arith, p.counted, p.fits)) (deliver-AllFit acts (receive output s).1)

-- However scripting, one-shot failures and receives into buffers of any sizes alternate, the
-- datagrams delivered and then those still queued are those queued at first and then those
-- scripted, each whole; and every datagram delivered fits the buffer that it was received into, so
-- that one that does not stays queued.
pub deliver_fifo :
    (acts : List Act) (s : FakeDatagramTransport)
    → (contents_of (deliver acts s).0 ++ (deliver acts s).1.receive_datagrams
        ≡ s.receive_datagrams ++ datagrams acts)
      × AllFit (deliver acts s).0
deliver_fifo acts s = (deliver_order acts s, deliver-AllFit acts s)
