-- ===== src/Os/Datagrams.antt =====
-- What the UDP transport relies on of the system, as udp(7), select(2) and recv(2) of Linux document
-- it: the datagrams that wait in a socket, in their order, are known from the log.
use dlms_transport.Prelude.{
  ℕ, ℤ, pos, Bool, is_positive, is_negative, ◌≡◌, sym, ap, ◌∙◌, true, List, [], ◌∷◌, ◌++◌,
  append_assoc, append-nil, length, take,
}
use dlms_transport.Buffer.{Bytes}
use dlms_transport.Os.Events.{Os, History, Timeval}
use dlms_transport.Os.Calls.{call_select, call_pending, call_recv}

-- The size of the datagram in front, and 0 if none waits.
abbrev pub front : List Bytes → ℕ
front [] = 0
front (datagram ∷ rest) = length datagram

module _ (os : Os) (waiting : ℤ → History → List Bytes) where
  -- Nothing was taken; more may have arrived.
  abbrev pub Kept : ℤ → History → History → Type 0
  Kept fd h k = (more : List Bytes) × (waiting fd h ++ more ≡ waiting fd k)

  abbrev pub Waits : ℤ → History → Type 0
  Waits fd h = (datagram : Bytes) × (rest : List Bytes) × (waiting fd h ≡ datagram ∷ rest)

  pub record IsDatagramSystem : Type 0 where
    pub select_keeps :
        (h : History) (fd : ℤ) (r : Bool) (t : Timeval) → Kept fd h (call_select os fd r t h).1
    pub pending_keeps : (h : History) (fd : ℤ) → Kept fd h (call_pending os fd h).1
    -- `FIONREAD` tells the size of the next datagram, or 0.
    pub pending_size :
        (h : History) (fd : ℤ)
        → (os.pending h fd).0 ≡ pos 0
        → (os.pending h fd).1 ≡ pos (front (waiting fd h))
    -- A successful `recv` takes one datagram and hands out what fits; the rest of it is lost.
    pub recv_takes :
        (h : History) (fd : ℤ) (len n : ℕ)
        → (os.recv h fd len).0 ≡ pos n
        → (datagram : Bytes) × (more : List Bytes) × (waiting fd h ++ more
            ≡ datagram ∷ waiting fd (call_recv os fd len h).1)
          × ((os.recv h fd len).1 ≡ take len datagram)
          × (length (os.recv h fd len).1 ≡ n)
    pub recv_fails :
        (h : History) (fd : ℤ) (len : ℕ)
        → is_negative (os.recv h fd len).0 ≡ true
        → Kept fd h (call_recv os fd len h).1
    -- When a wait has said that the socket can be read and a `recv` then succeeds, a datagram was
    -- waiting at the end of the wait. It leaves aside the case of select(2), BUGS, of a datagram that
    -- is dropped for its checksum after the wait.
    pub ready_waits :
        (h : History) (fd : ℤ) (t : Timeval) (len n : ℕ)
        → is_positive (os.select h fd true t) ≡ true
        → let k = (call_select os fd true t h).1 in
          (os.recv (call_pending os fd k).1 fd len).0 ≡ pos n → Waits fd k

  module _ (fd : ℤ) where
    pub Kept-refl : (h : History) → Kept fd h h
    Kept-refl h = ([], append-nil _)

    pub Kept-trans : (h k l : History) → Kept fd h k → Kept fd k l → Kept fd h l
    Kept-trans h k l (m, p) (n, q) = (m ++ n, sym (append_assoc _ m n) ∙ ap (λ x. x ++ n) p ∙ q)

    pub Waits-Kept : (h k : History) → Kept fd h k → Waits fd h → Waits fd k
    Waits-Kept h k (m, p) (d, rest, q) = (d, rest ++ m, sym p ∙ ap (λ x. x ++ m) q)
