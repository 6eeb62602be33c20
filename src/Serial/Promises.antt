-- ===== src/Serial/Promises.antt =====
-- `SerialTransport`: the statuses of `Open` on a closed object, and of `ReadSome`.
use dlms_transport.Prelude.{
  ℕ, ◌<◌, ◌≤◌, ◌==ℤ◌, ◌==◌, ◌≡◌, refl, true, false, not, length, if_cases, is_empty, [], ◌∷◌,
  Bool-cases, inl, inr, ◌⊎◌, is_negative, ℤ, arith,
}
use dlms_transport.Status.{Status, ok, invalid_argument, open_failed, is_ok}
use dlms_transport.Buffer.{Bytes, Output, bad_output}
use dlms_transport.Os.{
  Os, History, invalid, call_open_device, call_select, call_read, last_error, Ends, Ends-return,
  Ends-bind, Ends-any, Ends-if, return,
}
use dlms_transport.Serial.Port.{
  SerialTransportOptions, SerialTransport, is_would_block, options_are_valid, open_port,
  native_read, read_some,
}
use dlms_transport.Timer.{TransportDuration}
use dlms_transport.Tcp.Socket.{wait_for_socket, to_timeval}
use dlms_transport.Tcp.Reading.{is_connection_closed}

-- A device, a baud rate, and five to eight data bits.
abbrev pub Valid : SerialTransportOptions → Type 0
Valid o = (0 < length o.device_name) × (0 < o.baud_rate) × (5 ≤ o.data_bits) × (o.data_bits ≤ 8)

length_positive : (xs : Bytes) → is_empty xs ≡ false → 0 < length xs
length_positive [] e = absurd (ground arith)
length_positive (x ∷ xs) e = omega arith

not_empty : (xs : Bytes) → 0 < length xs → is_empty xs ≡ false
not_empty [] e = absurd (omega arith)
not_empty (x ∷ xs) e = refl

valid : (o : SerialTransportOptions) → options_are_valid o ≡ true → Valid o
valid o e = (length_positive o.device_name (ground arith), ground arith, ground arith, ground arith)

accepted_options : (o : SerialTransportOptions) → Valid o → options_are_valid o ≡ true
accepted_options o v = let e = not_empty o.device_name v.0 in ground arith

module _ (os : Os) where
  pub open_port_invalid :
      (t : SerialTransport) (h : History)
      → t.is_open ≡ false
      → ¬ Valid t.options
      → open_port os t h ≡ ((invalid_argument, t), h)
  unfolding open_port return
  open_port_invalid t h closed bad = elim (Bool-cases (options_are_valid t.options)) [
    | inl e ↦ absurd (bad (valid t.options e))
    | inr e ↦ rw (closed, e) refl
  ]

  pub open_port-Valid :
      (t : SerialTransport) (h : History)
      → t.is_open ≡ false
      → Valid t.options
      → let s = (open_port os t h).0.0 in (s ≡ ok) ⊎ (s ≡ open_failed)
  open_port-Valid t h closed v = ended.at
    where
      ended : Ends (open_port os t) h (λ r k. (r.0 ≡ ok) ⊎ (r.0 ≡ open_failed))
      ended =
          let e = accepted_options t.options v in
          unfold open_port in
          Ends-if t.is_open (λ f. absurd (ground arith))
            λ f.
              Ends-if (not (options_are_valid t.options)) (λ g. absurd (ground arith))
                λ g.
                  Ends-bind (Ends-any (call_open_device os t.options.device_name) h) λ handle k u.
                    Ends-return _ (
                      if_cases (λ (r : Status × SerialTransport). (r.0 ≡ ok) ⊎ (r.0 ≡ open_failed))
                        (handle ==ℤ invalid) (λ i. inr refl) (λ i. inl refl))

  wait_open :
      (fd : ℤ) (d : TransportDuration) (h : History)
      → Ends (wait_for_socket os fd true d) h (λ s k. is_connection_closed s ≡ false)
  unfolding wait_for_socket
  wait_open fd d h =
      Ends-bind (Ends-any (call_select os fd true (to_timeval d)) h)
        λ result k u. Ends-return _ (ground arith)

  native_read-open :
      (fd : ℤ) (size : ℕ) (d : TransportDuration) (h : History)
      → Ends (native_read os fd size d) h (λ r k. is_connection_closed r.status ≡ false)
  unfolding native_read
  native_read-open fd size d h = Ends-bind (wait_open fd d h) λ waited k p.
      Ends-if (not (is_ok waited)) (λ e. Ends-return _ p)
        λ e. Ends-bind (Ends-any (call_read os fd size) k) λ answer l u.
          Ends-if (not (is_negative answer.0)) (λ f. Ends-return _ refl)
            λ f. Ends-bind (Ends-any (last_error os) l) λ error m v. Ends-return _ (
              if_cases (λ s. is_connection_closed s ≡ false) (is_would_block os error) (λ g. refl)
                (λ g. refl))

  pub read_some-open :
      (output : Output) (t : SerialTransport) (h : History)
      → is_connection_closed (read_some os output t h).0.status ≡ false
  read_some-open output t h = ended.at
    where
      ended : Ends (read_some os output t) h (λ r k. is_connection_closed r.status ≡ false)
      ended =
          unfold read_some in
          Ends-if (not t.is_open) (λ e. Ends-return _ refl)
            λ e.
              Ends-if (bad_output output) (λ e. Ends-return _ refl)
                λ e.
                  Ends-if (output.size == 0) (λ f. Ends-return _ refl)
                    (λ f. native_read-open t.handle output.size t.options.read_timeout h)
