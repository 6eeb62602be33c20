-- ===== src/Os/Calls.antt =====
-- The calls as actions on the log, and the sequencing of actions.
use dlms_transport.Prelude.{ℕ, ℤ, Bool, List, ◌∷◌, Option}
use dlms_transport.Buffer.{Bytes}
use dlms_transport.Os.Events.{Os, Event, History, Address, Hints, Timeval, SockName}

-- An action: its value, and the log with the calls that it made.
abbrev pub Io : Type 0 → Type 0
Io A = History → A × History

infixl 5 ◌>>=◌ ◌>>◌
unfoldable pub ◌>>=◌ : {A B : Type 0} → Io A → (A → Io B) → Io B
◌>>=◌ m f h = f (m h).0 (m h).1

unfoldable pub ◌>>◌ : {B : Type 0} → Io (Unit {0}) → Io B → Io B
◌>>◌ m k h = k (m h).1

unfoldable pub return : {A : Type 0} → A → Io A
return a h = (a, h)

module _ (os : Os) where
  unfoldable pub call_getaddrinfo : Option Bytes → ℕ → Hints → Io (Option (List Address))
  call_getaddrinfo node port hints h =
      let r = os.getaddrinfo h node port hints in (r, Event.getaddrinfo node port hints r ∷ h)

  unfoldable pub call_socket : ℕ → ℕ → ℕ → Io ℤ
  call_socket family kind protocol h =
      let r = os.socket h family kind protocol in (r, Event.socket family kind protocol r ∷ h)

  unfoldable pub call_getfl : ℤ → Io ℤ
  call_getfl fd h = let r = os.getfl h fd in (r, Event.getfl fd r ∷ h)

  unfoldable pub call_setfl : ℤ → ℕ → Io ℤ
  call_setfl fd flags h = let r = os.setfl h fd flags in (r, Event.setfl fd flags r ∷ h)

  unfoldable pub call_reuse_address : ℤ → Io ℤ
  call_reuse_address fd h = let r = os.reuse_address h fd in (r, Event.reuse_address fd r ∷ h)

  unfoldable pub call_bind : ℤ → Address → Io ℤ
  call_bind fd a h = let r = os.bind h fd a in (r, Event.bind fd a r ∷ h)

  unfoldable pub call_listen : ℤ → ℤ → Io ℤ
  call_listen fd backlog h = let r = os.listen h fd backlog in (r, Event.listen fd backlog r ∷ h)

  unfoldable pub call_accept : ℤ → Io ℤ
  call_accept fd h = let r = os.accept h fd in (r, Event.accept fd r ∷ h)

  unfoldable pub call_connect : ℤ → Address → Io ℤ
  call_connect fd a h = let r = os.connect h fd a in (r, Event.connect fd a r ∷ h)

  unfoldable pub call_socket_error : ℤ → Io (ℤ × ℤ)
  call_socket_error fd h = let r = os.socket_error h fd in (r, Event.socket_error fd r ∷ h)

  unfoldable pub call_getsockname : ℤ → Io (Option SockName)
  call_getsockname fd h = let r = os.getsockname h fd in (r, Event.getsockname fd r ∷ h)

  unfoldable pub call_select : ℤ → Bool → Timeval → Io ℤ
  call_select fd wait_for_read t h =
      let r = os.select h fd wait_for_read t in (r, Event.select fd wait_for_read t r ∷ h)

  unfoldable pub call_pending : ℤ → Io (ℤ × ℤ)
  call_pending fd h = let r = os.pending h fd in (r, Event.pending fd r ∷ h)

  unfoldable pub call_recv : ℤ → ℕ → Io (ℤ × Bytes)
  call_recv fd len h = let r = os.recv h fd len in (r, Event.recv fd len r ∷ h)

  unfoldable pub call_send : ℤ → Bytes → ℕ → Io ℤ
  call_send fd xs len h = let r = os.send h fd xs len in (r, Event.send fd xs len r ∷ h)

  unfoldable pub call_open_device : Bytes → Io ℤ
  call_open_device name h = let r = os.open_device h name in (r, Event.open_device name r ∷ h)

  unfoldable pub call_read : ℤ → ℕ → Io (ℤ × Bytes)
  call_read fd len h = let r = os.read h fd len in (r, Event.read fd len r ∷ h)

  unfoldable pub call_write : ℤ → Bytes → ℕ → Io ℤ
  call_write fd xs len h = let r = os.write h fd xs len in (r, Event.write fd xs len r ∷ h)

  -- errno
  unfoldable pub last_error : Io ℕ
  last_error h = (os.errno h, h)

unfoldable pub call_close : ℤ → Io (Unit {0})
call_close fd h = (tt, Event.close fd ∷ h)

unfoldable pub call_freeaddrinfo : List Address → Io (Unit {0})
call_freeaddrinfo addresses h = (tt, Event.freeaddrinfo addresses ∷ h)
