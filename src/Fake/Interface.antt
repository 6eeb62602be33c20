-- ===== src/Fake/Interface.antt =====
-- `FakeByteStream` as an `IByteStream`.
use dlms_transport.Prelude.{
  true, false, sym, ap, ◌∙◌, ◌==◌, ◌++◌, append-nil, append_assoc, ℕ, ◌<◌, ◌≤◌, inl, ◌≡◌, refl, not,
  if_cases, length, length-take, min, List, [], ◌∷◌, arith,
}
use dlms_transport.Status.{Status, connection_closed, is_ok}
use dlms_transport.Buffer.{Input, input_size, contents, bad_input, Bytes, Output, bad_output, Read}
use dlms_transport.ByteStream.{ByteStream, IsByteStream, OpensAsPromised, ClosesWithPeer, Carries}
use dlms_transport.Fake.Stream.{
  FakeByteStream, new_fake, open_stream, close_stream, read_front, read_some, write_all,
}

abbrev pub fake_stream : ByteStream FakeByteStream
fake_stream = record {
  open_stream = open_stream;
  close_stream = close_stream;
  is_open = λ s. s.is_open;
  read_some = read_some;
  write_all = write_all;
}

-- Within the buffer, and counted.
abbrev Fits : ℕ → Read × FakeByteStream → Type 0
Fits size r = (r.0.bytes_read ≤ size) × (length r.0.output ≡ r.0.bytes_read)

read_front-Fits :
    (size : ℕ) (s : FakeByteStream) (chunks : List Bytes) → Fits size (read_front size s chunks)
read_front-Fits size s [] = (omega arith, refl)
read_front-Fits size s (chunk ∷ later) =
    (omega arith, omega (arith, length-take (min size (length chunk)) chunk))

read_some-Fits : (output : Output) (s : FakeByteStream) → Fits output.size (read_some output s)
unfolding read_some
read_some-Fits output s =
    if_cases (Fits output.size) (not s.is_open) (λ e. (omega arith, refl))
      λ e.
        if_cases (Fits output.size) (bad_output output) (λ f. (omega arith, refl))
          λ f.
            if_cases (Fits output.size) (not (is_ok s.next_read_status)) (λ g. (omega arith, refl))
              (λ g. read_front-Fits output.size s s.read_chunks)

-- All the bytes that were written.
abbrev pub written : List Bytes → Bytes
written [] = []
written (xs ∷ later) = xs ++ written later

written-append : (l : List Bytes) (xs : Bytes) → written (l ++ (xs ∷ [])) ≡ written l ++ xs
written-append [] xs = append-nil xs
written-append (ys ∷ l) xs =
    ap (◌++◌ ys) (written-append l xs) ∙ sym (append_assoc ys (written l) xs)

-- A write that is `Ok` has written its input.
abbrev Exact : Input → FakeByteStream → Status × FakeByteStream → Type 0
Exact input s r = is_ok r.0 ≡ true → written r.1.writes ≡ written s.writes ++ contents input

empty_input : (input : Input) → (input_size input == 0) ≡ true → [] ≡ contents input
empty_input (Input.null n) e = refl
empty_input (Input.bytes []) e = refl
empty_input (Input.bytes (x ∷ xs)) e = absurd (ground arith)

write_all-Exact : (input : Input) (s : FakeByteStream) → Exact input s (write_all input s)
unfolding write_all
write_all-Exact input s =
    if_cases (Exact input s) (not s.is_open) (λ e f. absurd (ground arith))
      λ e.
        if_cases (Exact input s) (bad_input input) (λ f g. absurd (ground arith))
          λ f.
            if_cases (Exact input s) (not (is_ok s.next_write_status))
              (λ g i. absurd (ground arith))
              λ g.
                if_cases (Exact input s) (input_size input == 0)
                  (λ i j.
                    written-append s.writes [] ∙ ap (◌++◌ (written s.writes)) (empty_input input i))
                  (λ i j. written-append s.writes (contents input))

-- It is open, and the next read is told that the peer has closed.
abbrev hung_up : FakeByteStream
hung_up = record new_fake { is_open = true; next_read_status = connection_closed }

-- `FakeByteStream` keeps all of the contract of `IByteStream` but one clause: after a read whose
-- scripted status is ConnectionClosed it can still be open, where the header has it closed. Kept are: an `Open` that is `Ok` leaves it open, a second
-- `Open` is AlreadyOpen and changes nothing, and one that fails leaves it closed; an `Open` of a closed object is `Ok`; `Close` is `Ok` and
-- leaves it closed; when it is closed `ReadSome` and `WriteAll` are NotOpen and change nothing; a null
-- buffer with a size is refused; a read is within the buffer and counts its bytes; and a `WriteAll` that
-- is `Ok` has written exactly its input.
pub fake_stream-IsByteStream :
    IsByteStream fake_stream
    × OpensAsPromised fake_stream (λ s. Unit {0}) (λ s. ⊥)
    × ((limit : ℕ) → Carries fake_stream (λ s. written s.writes) limit)
    × ((limit : ℕ) → 0 < limit → ¬ ClosesWithPeer fake_stream limit)
unfolding open_stream close_stream read_some write_all
fake_stream-IsByteStream = (
  record {
    open_ok = λ s e. ground arith;
    open_twice = λ s e. rw e refl;
    open_failure = λ s e f. ground arith;
    close_ok = λ s. refl;
    close_closes = λ s. refl;
    read_not_open = λ output s e. rw e refl;
    read_null = λ output s e f. rw (e, f) refl;
    write_not_open = λ input s e. rw e refl;
    write_null = λ input s e f. rw (e, f) refl;
  },
  record { open_invalid = λ s e bad. absurd (bad tt); open_valid = λ s e v. inl (rw e refl) },
  λ limit. record {
    read_fits = λ output s short. read_some-Fits output s;
    write_exact = λ input s short e. write_all-Exact input s e;
  },
  λ limit room p.
      absurd
        (ground (arith, p.peer_close (record { is_null = false; size = 0 }) hung_up room refl)),
)
