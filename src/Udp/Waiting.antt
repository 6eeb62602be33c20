-- ===== src/Udp/Waiting.antt =====
-- The steps of one `Receive` of the UDP transport, and the datagrams that wait in the socket.
use dlms_transport.Prelude.{
  ℕ, ℤ, pos, negsuc, suc, zero, ◌||◌, ◌^◌, ◌<◌, ◌≤◌, ◌≡◌, refl, sym, ap, ◌∙◌, true, false, not,
  Bool, ◌++◌, List, [], ◌∷◌, length, take_all, is_zero, is_negative, is_positive, to_size, to_int,
  to_size-to_int, append_assoc, if◌then◌else◌, Option, none, some, arith,
}
use dlms_transport.Status.{Status, output_buffer_too_small, is_ok}
use dlms_transport.Buffer.{Bytes, Read, no_bytes}
use dlms_transport.Timer.{TransportDuration}
use dlms_transport.Os.{
  Os, History, call_select, call_pending, call_recv, last_error, ◌>>=◌, Ends, Ends-return,
  Ends-bind, front, Kept, Kept-trans, Waits, Waits-Kept, IsDatagramSystem,
}
use dlms_transport.Tcp.Socket.{wait_for_socket, to_timeval}
use dlms_transport.Udp.Socket.{pending_datagram_size}
use dlms_transport.Udp.Transport.{received}

abbrev is_too_small : Status → Bool
is_too_small output_buffer_too_small = true
is_too_small _ = false

-- What a receive into `size` bytes did with the datagrams that wait in the socket.
pub record ReceivesOne (os : Os) (waiting : ℤ → History → List Bytes) (fd : ℤ) (size : ℕ)
    (h : History) (r : Read) (k : History) : Type 0 where
  pub kept : is_ok r.status ≡ false → (r.bytes_read ≡ 0) × Kept os waiting fd h k
  pub whole :
      is_ok r.status ≡ true
      → (r.bytes_read ≤ size)
        × (length r.output ≡ r.bytes_read)
        × (more : List Bytes) × (waiting fd h ++ more ≡ r.output ∷ waiting fd k)
  pub too_small :
      r.status ≡ output_buffer_too_small
      → (datagram : Bytes) × (rest : List Bytes) × (waiting fd k ≡ datagram ∷ rest)
        × (size < length datagram)

size_of :
    (a : ℤ × ℤ) (m : ℕ)
    → (a.0 ≡ pos 0 → a.1 ≡ pos m)
    → (n : ℕ) → (if not (is_zero a.0) || is_negative a.1 then none else some (to_size a.1)) ≡ some n
    → n ≡ m
size_of (pos zero, pos b) m p n e = let q = p refl in ground (arith, q, e)
size_of (pos zero, negsuc b) m p n e = absurd (ground (arith, e))
size_of (pos (suc a), b) m p n e = absurd (ground (arith, e))
size_of (negsuc a, b) m p n e = absurd (ground (arith, e))

front-Waits :
    (l : List Bytes) (size : ℕ)
    → size < front l
    → (d : Bytes) × (rest : List Bytes) × (l ≡ d ∷ rest) × (size < length d)
front-Waits [] size p = absurd (omega arith)
front-Waits (d ∷ rest) size p = (d, rest, refl, p)

front-append :
    (l more : List Bytes) (d : Bytes) (rest : List Bytes)
    → l ≡ d ∷ rest
    → front (l ++ more) ≡ front l
front-append l more d rest e = ap (λ x. front (x ++ more)) e ∙ ap front (sym e)

module _ (os : Os) (waiting : ℤ → History → List Bytes) (system : IsDatagramSystem os waiting)
    (fd : ℤ) where
  -- A `recv` behind the question for the size would take a datagram that waits already.
  abbrev pub Ready : History → Type 0
  Ready k =
      (len n : ℕ) → (os.recv (call_pending os fd k).1 fd len).0 ≡ pos n → Waits os waiting fd k

  pub Refused :
      {h k : History} {size : ℕ} (s : Status)
      → is_ok s ≡ false
      → is_too_small s ≡ false
      → Kept os waiting fd h k
      → ReceivesOne os waiting fd size h (no_bytes s) k
  Refused s e f kept = record {
    kept = λ g. (refl, kept);
    whole = λ g. absurd (ground arith);
    too_small = λ g. absurd (differ g);
  }
    where
      differ : s ≡ output_buffer_too_small → ⊥
      differ g = let c = sym f ∙ ap is_too_small g in ground (arith, c)

  pub waited-Ready :
      (d : TransportDuration) (h : History)
      → Ends
          (wait_for_socket os fd true d)
          h
          (λ s k. Kept os waiting fd h k × (is_ok s ≡ true → Ready k) × (is_too_small s ≡ false))
  unfolding wait_for_socket
  waited-Ready d h =
      Ends-bind {P = λ result k. Kept os waiting fd h k × (is_positive result ≡ true → Ready k)}
        (record { at = (system.select_keeps h fd true _, selected) })
        λ result k p. Ends-return _ (p.0, (λ e. p.1 (ground arith)), ground arith)
    where
      selected :
          is_positive (call_select os fd true (to_timeval d) h).0 ≡ true
          → Ready (call_select os fd true (to_timeval d) h).1
      selected e len n f = unfold call_select in system.ready_waits h fd (to_timeval d) len n e f

  -- The question for the size leaves the log that `Ready` speaks of.
  abbrev pub Asked : History → Option ℕ → History → Type 0
  Asked k pending l =
      (l ≡ (call_pending os fd k).1) × ((n : ℕ) → pending ≡ some n → n ≡ front (waiting fd k))

  pub pending-Asked : (k : History) → Ends (pending_datagram_size os fd) k (Asked k)
  unfolding pending_datagram_size
  pending-Asked k =
      Ends-bind {P = λ answer l. (answer ≡ os.pending k fd) × (l ≡ (call_pending os fd k).1)}
        (record { at = (unfold call_pending in refl, refl) })
        λ answer l p. Ends-return _ (
          p.1,
          size_of answer _
              λ e. ap (λ a. a.1) p.0 ∙ system.pending_size k fd (sym (ap (λ a. a.0) p.0) ∙ e),
        )

  received-One :
      (size : ℕ) (answer : ℤ × Bytes) (h m : History)
      → (is_negative answer.0 ≡ true → Kept os waiting fd h m)
      → ((n : ℕ)
          → answer.0 ≡ pos n
          → (n ≤ size)
            × (length answer.1 ≡ n)
            × (more : List Bytes) × (waiting fd h ++ more ≡ answer.1 ∷ waiting fd m))
      → Ends (received os answer) m (ReceivesOne os waiting fd size h)
  unfolding received
  received-One size (pos n, xs) h m failed took = Ends-return _ (record {
    kept = λ e. absurd (ground arith);
    whole = λ e. took n refl;
    too_small = λ e. absurd (let c = ap is_too_small e in ground (arith, c));
  })
  received-One size (negsuc n, xs) h m failed took =
      Ends-bind {P = λ error k. Kept os waiting fd h k}
        (unfold last_error in record { at = failed refl })
        λ error k p. Ends-return _ (Refused _ (ground arith) (ground arith) p)

  module _ (size : ℕ) (short : size < 2 ^ 31) (h k : History) (arrived : Kept os waiting fd h k)
      (ready : Ready k) where
    -- The log at the `recv`.
    abbrev pub asked : History
    asked = (call_pending os fd k).1

    abbrev pub len : ℕ
    len = to_size (to_int size)

    abbrev pub answer : ℤ × Bytes
    answer = os.recv asked fd len

    pub Kept-asked : Kept os waiting fd h asked
    Kept-asked = Kept-trans os waiting fd h k asked arrived (system.pending_keeps k fd)

    -- What waits in front when the size is asked is what the `recv` takes.
    took_one :
        front (waiting fd k) ≤ size
        → (n : ℕ) → answer.0 ≡ pos n
        → (n ≤ size)
          × (length answer.1 ≡ n)
          × (more : List Bytes) × (waiting fd h ++ more
              ≡ answer.1 ∷ waiting fd (call_recv os fd len asked).1)
    took_one fits n e =
        let waits = ready len n e in
        let taken = system.recv_takes asked fd len n e in
        let m = system.pending_keeps k fd in
        let waits_asked = Waits-Kept os waiting fd k asked m waits in
        let f = ap front (sym m.1) ∙ front-append _ m.0 waits.0 waits.1 waits.2 in
        let g =
          sym (ap front taken.2)
          ∙ front-append _ taken.1 waits_asked.0 waits_asked.1 waits_asked.2 in
        let l = to_size-to_int size short in
        let all : answer.1 ≡ taken.0 = taken.3 ∙ take_all len taken.0 (omega (arith, l, f, g)) in
        (
          omega (arith, taken.4, ap length all, f, g),
          taken.4,
          Kept-asked.0 ++ taken.1,
          sym (append_assoc _ Kept-asked.0 taken.1)
              ∙ ap (λ x. x ++ taken.1) Kept-asked.1
              ∙ taken.2
              ∙ ap (λ x. x ∷ waiting fd (call_recv os fd len asked).1) (sym all),
        )

    pub left_one :
        size < front (waiting fd k)
        → ReceivesOne os waiting fd size h (no_bytes output_buffer_too_small) asked
    left_one p = record {
      kept = λ q. (refl, Kept-asked);
      whole = λ q. absurd (ground arith);
      too_small = λ q.
          let m = system.pending_keeps k fd in
          let w = front-Waits _ size p in (w.0, w.1 ++ m.0, sym m.1 ∙ ap (λ x. x ++ m.0) w.2, w.3);
    }

    pub recv-One :
        front (waiting fd k) ≤ size
        → Ends (call_recv os fd len >>= received os) asked (ReceivesOne os waiting fd size h)
    recv-One fits =
        Ends-bind {P = λ a m. (a ≡ answer) × (m ≡ (call_recv os fd len asked).1)}
          (record { at = (unfold call_recv in refl, refl) })
          λ a m p.
            rw (p.0, p.1)
              (received-One size answer h (call_recv os fd len asked).1
                (λ e.
                  Kept-trans os waiting fd h asked _ Kept-asked (system.recv_fails asked fd len e))
                (took_one fits))
