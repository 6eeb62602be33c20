-- ===== src/Fake/Laws.antt =====
-- What the fake channels promise to the tests of the upper layers.
use dlms_transport.Prelude.{
  ℕ, ◌≤◌, ◌≡◌, refl, sym, ap, ◌∙◌, not, List, [], ◌∷◌, ◌++◌, length, take, min, append_assoc,
  append-nil, take-append-drop, take_all, length-take, ◌==◌, arith, Bool-cases, if_cases, inl, inr,
}
use dlms_transport.Status.{Status, is_ok}
use dlms_transport.Buffer.{Bytes, Output, bad_output, Read}
use dlms_transport.Fake.Stream.{
  FakeByteStream, read_some, read_front, script_read, script_next_read_status,
}

-- The bytes that are scripted and not yet read.
abbrev pub pending : List Bytes → Bytes
pending [] = []
pending (chunk ∷ later) = chunk ++ pending later

-- A read that gave `r` and left `chunks`, from `before` into a buffer of this size.
pub record Reads (size : ℕ) (before : Bytes) (r : Read) (chunks : List Bytes) : Type 0 where
  pub order : r.output ++ pending chunks ≡ before
  pub counted : r.bytes_read ≡ length r.output
  pub fits : r.bytes_read ≤ size

read_front-Reads :
    (size : ℕ) (s : FakeByteStream) (chunks : List Bytes)
    → s.read_chunks ≡ chunks
    → Reads size
        (pending chunks)
        (read_front size s chunks).0
        (read_front size s chunks).1.read_chunks
read_front-Reads size s [] e = record { order = rw e; counted = refl; fits = omega arith }
read_front-Reads size s (chunk ∷ later) e = record {
  order = elim (Bool-cases (min size (length chunk) == length chunk)) [
    | inl all ↦ rw all (ap (λ xs. xs ++ pending later) (take_all _ chunk (ground arith)))
    | inr part ↦ rw part (
        sym (append_assoc (take (min size (length chunk)) chunk) _ (pending later))
        ∙ ap (λ xs. xs ++ pending later) (take-append-drop _ chunk))
  ];
  counted = omega (arith, length-take (min size (length chunk)) chunk);
  fits = omega arith;
}

-- One read, on every branch.
read_some-Reads :
    (output : Output) (s : FakeByteStream)
    → Reads output.size
        (pending s.read_chunks)
        (read_some output s).0
        (read_some output s).1.read_chunks
unfolding read_some
read_some-Reads output s =
    if_cases Q (not s.is_open) (λ e. record { order = refl; counted = refl; fits = omega arith })
      λ e.
        if_cases Q (bad_output output)
          (λ e. record { order = refl; counted = refl; fits = omega arith })
          λ e.
            if_cases Q (not (is_ok s.next_read_status))
              (λ e. record { order = refl; counted = refl; fits = omega arith })
              (λ e. read_front-Reads output.size s s.read_chunks refl)
  where
    Q : Read × FakeByteStream → Type 0
    Q r = Reads output.size (pending s.read_chunks) r.0 r.1.read_chunks

-- What a test does with a fake stream on the reading side.
pub data Act : Type 0 where
  scripts : Bytes → Act
  scripts_status : Status → Act
  reads : Output → Act

-- The bytes read, in order, and the stream at the end.
pub play : List Act → FakeByteStream → Bytes × FakeByteStream
play [] s = ([], s)
play (scripts xs ∷ acts) s = play acts (script_read xs s)
play (scripts_status status ∷ acts) s = play acts (script_next_read_status status s)
play (reads output ∷ acts) s =
    let r = read_some output s in let rest = play acts r.1 in (r.0.output ++ rest.0, rest.1)

-- The bytes scripted.
abbrev pub script : List Act → Bytes
script [] = []
script (scripts xs ∷ acts) = xs ++ script acts
script (_ ∷ acts) = script acts

pending-append : (xs ys : List Bytes) → pending (xs ++ ys) ≡ pending xs ++ pending ys
pending-append [] ys = refl
pending-append (x ∷ xs) ys =
    ap (◌++◌ x) (pending-append xs ys) ∙ sym (append_assoc x (pending xs) (pending ys))

-- However scripting, one-shot failures and reads into buffers of any sizes alternate, the bytes
-- read and then those still queued are the bytes queued at first and then those scripted: a fake
-- stream loses, repeats and reorders nothing, and joins and splits chunks freely.
pub play_fifo :
    (acts : List Act) (s : FakeByteStream)
    → (play acts s).0 ++ pending (play acts s).1.read_chunks ≡ pending s.read_chunks ++ script acts
unfolding play script_read script_next_read_status
play_fifo [] s = sym (append-nil _)
play_fifo (scripts xs ∷ acts) s =
    play_fifo acts (script_read xs s)
    ∙ ap (λ b. b ++ script acts)
        (pending-append s.read_chunks (xs ∷ []) ∙ ap (◌++◌ (pending s.read_chunks)) (append-nil xs))
    ∙ append_assoc (pending s.read_chunks) xs (script acts)
play_fifo (scripts_status status ∷ acts) s = play_fifo acts (script_next_read_status status s)
play_fifo (reads output ∷ acts) s =
    let r = read_some output s in
    append_assoc r.0.output _ _
    ∙ ap (◌++◌ r.0.output) (play_fifo acts r.1)
    ∙ sym (append_assoc r.0.output _ _)
    ∙ ap (λ b. b ++ script acts) (read_some-Reads output s).order
