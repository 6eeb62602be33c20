-- ===== src/Serial/Ownership.antt =====
-- The serial transport owns exactly the device that it has open, through every sequence of calls.
use dlms_transport.Prelude.{
  Bool, ℕ, ℤ, zero, suc, ◌==ℤ◌, ◌≡◌, refl, true, false, not, ◌==◌, ltb, length, List, [], ◌∷◌,
  if_cases, arith, is_positive, is_zero, is_negative,
}
use dlms_transport.Status.{Status, is_ok, open_failed, ok}
use dlms_transport.Buffer.{Bytes, Input, bad_input, input_size, Output, bad_output}
use dlms_transport.Timer.{TransportDuration}
use dlms_transport.Os.{
  Os, History, invalid, live, IsClean, Works, Works-refl, Works-trans, IsPosix, Ends, Ends-return,
  Ends-bind, Ends-then, Ends-if, Ends-weaken, EndsWorks, refused, made, call_open_device-Ends,
  call_read-Ends, call_write-Ends, last_error-Ends, Owner, Owner-none, Owner-Works, Owner-Keeps,
  Owner-Gains, give_back-Owner,
}
use dlms_transport.Tcp.Custody.{wait_for_socket-Works}
use dlms_transport.Serial.Port.{
  SerialTransport, SerialTransportOptions, new_port, options_are_valid, is_would_block, open_port,
  close_port, native_read, read_some, native_write_all, write_all,
}
use dlms_transport.Serial.Session.{Call, opens, closes, reads, writes, step, run, lifetime}

-- The object owns its device, if it is open.
abbrev pub Owns : (ℤ → Bool) → SerialTransport → History → Type 0
Owns base t h = Owner base t.handle t.is_open h

module _ (os : Os) (base : ℤ → Bool) where
  open_port-Owns :
      IsPosix os
      → (t : SerialTransport) (h : History) → Owns base t h
      → Ends (open_port os t) h (λ r k. Owns base r.1 k)
  unfolding open_port
  open_port-Owns posix t h o =
      Ends-if t.is_open (λ e. Ends-return _ o)
        λ closed.
          Ends-if (not (options_are_valid t.options)) (λ e. Ends-return _ o)
            λ e. Ends-bind (call_open_device-Ends os posix _ h) λ handle k p. Ends-return _ (
              if_cases {A = Status × SerialTransport} (λ r. Owns base r.1 k) (handle ==ℤ invalid)
                {x = (open_failed, t)} {y = (ok, record t { handle = handle; is_open = true })}
                (λ f. Owner-Keeps o (refused handle f p))
                (λ f. Owner-Gains closed o (made handle f p)))

  pub close_port-Owns :
      (t : SerialTransport) (h : History)
      → Owns base t h
      → Ends (close_port os t) h (λ r k. Owns base r.1 k × (r.1.is_open ≡ false))
  unfolding close_port
  close_port-Owns t h o =
      Ends-then (give_back-Owner t.handle t.is_open h o) λ k p. Ends-return _ (p, refl)

  native_read-Works :
      (fd : ℤ) (size : ℕ) (t : TransportDuration) (h : History)
      → EndsWorks fd (native_read os fd size t) h
  unfolding native_read
  native_read-Works fd size t h = Ends-bind (wait_for_socket-Works os fd true t h) λ waited k w.
      Ends-if (not (is_ok waited)) (λ e. Ends-return _ w)
        λ e. Ends-bind (call_read-Ends os fd size k) λ answer l v.
          let done = Works-trans w v in
          Ends-if (not (is_negative answer.0)) (λ f. Ends-return _ done)
            λ f. Ends-bind (last_error-Ends os fd l) λ error m x. Ends-return _ (Works-trans done x)

  read_some-Owns :
      (output : Output) (t : SerialTransport) (h : History)
      → Owns base t h
      → Ends (read_some os output t) h (λ r k. Owns base t k)
  unfolding read_some
  read_some-Owns output t h o =
      Ends-if (not t.is_open) (λ e. Ends-return _ o)
        λ up.
          Ends-if (bad_output output) (λ e. Ends-return _ o)
            λ e.
              Ends-if (output.size == 0) (λ f. Ends-return _ o)
                λ f.
                  Ends-weaken (native_read-Works t.handle output.size _ h)
                    λ r k w. Owner-Works (ground arith) o w

  native_write_all-Works :
      (fd : ℤ) (t : TransportDuration) (input : Bytes) (fuel written : ℕ) (h : History)
      → EndsWorks fd (native_write_all os fd t input fuel written) h
  unfolding native_write_all
  native_write_all-Works fd t input zero written h = Ends-return _ (Works-refl fd h)
  native_write_all-Works fd t input (suc fuel) written h =
      Ends-if (not (ltb written (length input))) (λ e. Ends-return _ (Works-refl fd h))
        λ e. Ends-bind (wait_for_socket-Works os fd false t h) λ waited k w.
          Ends-if (not (is_ok waited)) (λ f. Ends-return _ w)
            λ f. Ends-bind (call_write-Ends os fd _ _ k) λ chunk l v.
              let sent = Works-trans w v in
              let later = λ (n : ℕ) (m : History) (x : Works fd h m).
                Ends-weaken (native_write_all-Works fd t input fuel n m)
                  (λ a z y. Works-trans x y) in
              Ends-if (is_positive chunk) (λ g. later _ l sent)
                λ g.
                  Ends-if (is_zero chunk) (λ i. Ends-return _ sent)
                    λ i. Ends-bind (last_error-Ends os fd l) λ error m y.
                      let seen = Works-trans sent y in
                      Ends-if (is_would_block os error) (λ x. later written m seen)
                        (λ x. Ends-return _ seen)

  write_all-Owns :
      (fuel : ℕ) (input : Input) (t : SerialTransport) (h : History)
      → Owns base t h
      → Ends (write_all os fuel input t) h (λ r k. Owns base t k)
  unfolding write_all
  write_all-Owns fuel input t h o =
      Ends-if (not t.is_open) (λ e. Ends-return _ o)
        λ up.
          Ends-if (bad_input input) (λ f. Ends-return _ o)
            λ f.
              Ends-if (input_size input == 0) (λ f. Ends-return _ o)
                λ f.
                  Ends-weaken (native_write_all-Works t.handle _ _ fuel 0 h)
                    λ r k w. Owner-Works (ground arith) o w

  pub step-Owns :
      IsPosix os
      → (c : Call) (t : SerialTransport) (h : History) → Owns base t h
      → Ends (step os c t) h (λ r k. Owns base r k)
  unfolding step
  step-Owns posix opens t h o = Ends-bind (open_port-Owns posix t h o) λ r k p. Ends-return _ p
  step-Owns posix closes t h o = Ends-bind (close_port-Owns t h o) λ r k p. Ends-return _ p.0
  step-Owns posix (reads output) t h o =
      Ends-bind (read_some-Owns output t h o) λ r k p. Ends-return _ p
  step-Owns posix (writes fuel input) t h o =
      Ends-bind (write_all-Owns fuel input t h o) λ r k p. Ends-return _ p

  run-Owns :
      IsPosix os
      → (cs : List Call) (t : SerialTransport) (h : History) → Owns base t h
      → Ends (run os cs t) h (λ r k. Owns base r k)
  unfolding run
  run-Owns posix [] t h o = Ends-return _ o
  run-Owns posix (c ∷ cs) t h o =
      Ends-bind (step-Owns posix c t h o) λ next k p. run-Owns posix cs next k p

pub new_port-Owns :
    (options : SerialTransportOptions) (h : History)
    → IsClean h
    → Owns (live h) (new_port options) h
unfolding new_port
new_port-Owns options h c = Owner-none h c

-- From a log whose calls all work on descriptors in use, whatever calls are made on a
-- `SerialTransport` and whatever a POSIX system answers, during its life every system call works on
-- a descriptor that is in use at that moment, and after the destructor exactly the descriptors are
-- in use that were in use before the constructor.
pub serial_lifetime_releases :
    (os : Os)
    → IsPosix os
    → (options : SerialTransportOptions) (cs : List Call) (h : History) → IsClean h
    → let after = (lifetime os options cs h).1 in
      IsClean after × ((j : ℤ) → live after j ≡ live h j)
serial_lifetime_releases os posix options cs h c = ended.at
  where
    ended : Ends (lifetime os options cs) h (λ r k. IsClean k × ((j : ℤ) → live k j ≡ live h j))
    ended =
        unfold lifetime in
        Ends-bind (run-Owns os (live h) posix cs _ h (new_port-Owns options h c)) λ t k o.
          Ends-bind (close_port-Owns os (live h) t k o)
            λ closed l p. Ends-return _ (p.0.clean, λ j. ground (arith, p.0.exact j, p.1))
