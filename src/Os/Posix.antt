-- ===== src/Os/Posix.antt =====
-- What the transports rely on of the system, as POSIX documents it.
use dlms_transport.Prelude.{ℕ, ℤ, pos, ◌≡◌, false, ◌≤◌, length}
use dlms_transport.Buffer.{Bytes}
use dlms_transport.Os.Events.{Os, History}
use dlms_transport.Os.Descriptors.{live}

pub record IsPosix (os : Os) : Type 0 where
  -- A new descriptor is one that is not in use.
  pub socket_fresh :
      (h : History) (family kind protocol : ℕ) → live h (os.socket h family kind protocol) ≡ false
  pub accept_fresh : (h : History) (fd : ℤ) → live h (os.accept h fd) ≡ false
  pub open_device_fresh : (h : History) (name : Bytes) → live h (os.open_device h name) ≡ false
  -- A transfer moves at most the bytes asked for, and a receive answers with their number.
  pub send_bound :
      (h : History) (fd : ℤ) (xs : Bytes) (len n : ℕ) → os.send h fd xs len ≡ pos n → n ≤ len
  pub write_bound :
      (h : History) (fd : ℤ) (xs : Bytes) (len n : ℕ) → os.write h fd xs len ≡ pos n → n ≤ len
  pub recv_bound :
      (h : History) (fd : ℤ) (len n : ℕ)
      → (os.recv h fd len).0 ≡ pos n
      → (n ≤ len) × (length (os.recv h fd len).1 ≡ n)
  pub read_bound :
      (h : History) (fd : ℤ) (len n : ℕ)
      → (os.read h fd len).0 ≡ pos n
      → (n ≤ len) × (length (os.read h fd len).1 ≡ n)
