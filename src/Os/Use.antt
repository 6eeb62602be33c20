-- ===== src/Os/Use.antt =====
-- The change of the descriptors by each call.
use dlms_transport.Prelude.{ℕ, ℤ, ◌==ℤ◌, ◌≡◌, refl, true, false, Bool, ◌⊎◌, inl, inr, List, Option}
use dlms_transport.Buffer.{Bytes}
use dlms_transport.Os.Events.{Os, History, Address, Hints, Timeval}
use dlms_transport.Os.Calls.{
  Io, call_getaddrinfo, call_socket, call_accept, call_open_device, call_close, call_freeaddrinfo,
  last_error, call_getfl, call_setfl, call_reuse_address, call_bind, call_listen, call_connect,
  call_socket_error, call_getsockname, call_select, call_pending, call_recv, call_send, call_read,
  call_write,
}
use dlms_transport.Os.Descriptors.{live, invalid}
use dlms_transport.Os.Posix.{IsPosix}
use dlms_transport.Os.Custody.{
  Keeps, Works, Gains, Drops, Works-refl, Works-call, Keeps-call, Gains-call, call_close-Drops,
  live-subst,
}
use dlms_transport.Os.Outcome.{Ends}

-- The action works on the descriptor.
abbrev pub EndsWorks : {A : Type 0} → ℤ → Io A → History → Type 0
EndsWorks fd m h = Ends m h (λ a k. Works fd h k)

abbrev pub EndsKeeps : {A : Type 0} → Io A → History → Type 0
EndsKeeps m h = Ends m h (λ a k. Keeps h k)

-- The answer is the invalid descriptor, or a new one.
abbrev pub EndsGains : Io ℤ → History → Type 0
EndsGains m h = Ends m h (λ r k. ((r ==ℤ invalid) ≡ true) × Keeps h k ⊎ Gains r h k)

-- The answer, once it is tested.
pub refused :
    (r : ℤ) {h k : History}
    → (r ==ℤ invalid) ≡ true
    → ((r ==ℤ invalid) ≡ true) × Keeps h k ⊎ Gains r h k
    → Keeps h k
refused r e (inl p) = p.1
refused r e (inr g) = absurd (cc (g.valid))

pub made :
    (r : ℤ) {h k : History}
    → (r ==ℤ invalid) ≡ false
    → ((r ==ℤ invalid) ≡ true) × Keeps h k ⊎ Gains r h k
    → Gains r h k
made r e (inl p) = absurd (cc (p.0))
made r e (inr g) = g

pub call_close-Ends : (fd : ℤ) (h : History) → Ends (call_close fd) h (λ a k. Drops fd h k)
call_close-Ends fd h = record { at = call_close-Drops fd h }

pub call_freeaddrinfo-Ends : (l : List Address) (h : History) → EndsKeeps (call_freeaddrinfo l) h
unfolding call_freeaddrinfo
call_freeaddrinfo-Ends l h = record { at = Keeps-call _ h (λ j. refl) (λ j b. refl) }

module _ (os : Os) where
  pub last_error-Ends : (fd : ℤ) (h : History) → EndsWorks fd (last_error os) h
  unfolding last_error
  last_error-Ends fd h = record { at = Works-refl fd h }

  pub call_getaddrinfo-Ends :
      (node : Option Bytes) (port : ℕ) (hints : Hints) (h : History)
      → EndsKeeps (call_getaddrinfo os node port hints) h
  unfolding call_getaddrinfo
  call_getaddrinfo-Ends host port hints h = record { at = Keeps-call _ h (λ j. refl) (λ j b. refl) }

  pub call_getfl-Ends : (fd : ℤ) (h : History) → EndsWorks fd (call_getfl os fd) h
  unfolding call_getfl
  call_getfl-Ends fd h = record { at = Works-call fd _ h (λ j. refl) (λ j b. refl) }

  pub call_setfl-Ends : (fd : ℤ) (n : ℕ) (h : History) → EndsWorks fd (call_setfl os fd n) h
  unfolding call_setfl
  call_setfl-Ends fd n h = record { at = Works-call fd _ h (λ j. refl) (λ j b. refl) }

  pub call_reuse_address-Ends : (fd : ℤ) (h : History) → EndsWorks fd (call_reuse_address os fd) h
  unfolding call_reuse_address
  call_reuse_address-Ends fd h = record { at = Works-call fd _ h (λ j. refl) (λ j b. refl) }

  pub call_bind-Ends : (fd : ℤ) (a : Address) (h : History) → EndsWorks fd (call_bind os fd a) h
  unfolding call_bind
  call_bind-Ends fd a h = record { at = Works-call fd _ h (λ j. refl) (λ j b. refl) }

  pub call_listen-Ends : (fd : ℤ) (n : ℤ) (h : History) → EndsWorks fd (call_listen os fd n) h
  unfolding call_listen
  call_listen-Ends fd n h = record { at = Works-call fd _ h (λ j. refl) (λ j b. refl) }

  pub call_connect-Ends :
      (fd : ℤ) (a : Address) (h : History) → EndsWorks fd (call_connect os fd a) h
  unfolding call_connect
  call_connect-Ends fd a h = record { at = Works-call fd _ h (λ j. refl) (λ j b. refl) }

  pub call_socket_error-Ends : (fd : ℤ) (h : History) → EndsWorks fd (call_socket_error os fd) h
  unfolding call_socket_error
  call_socket_error-Ends fd h = record { at = Works-call fd _ h (λ j. refl) (λ j b. refl) }

  pub call_getsockname-Ends : (fd : ℤ) (h : History) → EndsWorks fd (call_getsockname os fd) h
  unfolding call_getsockname
  call_getsockname-Ends fd h = record { at = Works-call fd _ h (λ j. refl) (λ j b. refl) }

  pub call_select-Ends :
      (fd : ℤ) (r : Bool) (t : Timeval) (h : History) → EndsWorks fd (call_select os fd r t) h
  unfolding call_select
  call_select-Ends fd r t h = record { at = Works-call fd _ h (λ j. refl) (λ j b. refl) }

  pub call_pending-Ends : (fd : ℤ) (h : History) → EndsWorks fd (call_pending os fd) h
  unfolding call_pending
  call_pending-Ends fd h = record { at = Works-call fd _ h (λ j. refl) (λ j b. refl) }

  pub call_recv-Ends : (fd : ℤ) (len : ℕ) (h : History) → EndsWorks fd (call_recv os fd len) h
  unfolding call_recv
  call_recv-Ends fd len h = record { at = Works-call fd _ h (λ j. refl) (λ j b. refl) }

  pub call_send-Ends :
      (fd : ℤ) (xs : Bytes) (len : ℕ) (h : History) → EndsWorks fd (call_send os fd xs len) h
  unfolding call_send
  call_send-Ends fd xs len h = record { at = Works-call fd _ h (λ j. refl) (λ j b. refl) }

  pub call_read-Ends : (fd : ℤ) (len : ℕ) (h : History) → EndsWorks fd (call_read os fd len) h
  unfolding call_read
  call_read-Ends fd len h = record { at = Works-call fd _ h (λ j. refl) (λ j b. refl) }

  pub call_write-Ends :
      (fd : ℤ) (xs : Bytes) (len : ℕ) (h : History) → EndsWorks fd (call_write os fd xs len) h
  unfolding call_write
  call_write-Ends fd xs len h = record { at = Works-call fd _ h (λ j. refl) (λ j b. refl) }

  module _ (posix : IsPosix os) where
    pub call_socket-Ends :
        (family kind protocol : ℕ) (h : History) → EndsGains (call_socket os family kind protocol) h
    unfolding call_socket
    call_socket-Ends family kind protocol h = record {
      at = Gains-call _ _ h (λ j u. cc) (λ j b. refl) (posix.socket_fresh h family kind protocol);
    }

    pub call_open_device-Ends :
        (name : Bytes) (h : History) → EndsGains (call_open_device os name) h
    unfolding call_open_device
    call_open_device-Ends name h = record {
      at = Gains-call _ _ h (λ j u. cc) (λ j b. refl) (posix.open_device_fresh h name);
    }

    pub call_accept-Ends :
        (fd : ℤ) (h : History) → live h fd ≡ true → EndsGains (call_accept os fd) h
    unfolding call_accept
    call_accept-Ends fd h l = record {
      at = Gains-call _ _ h (live-subst h fd l) (λ j b. refl) (posix.accept_fresh h fd);
    }
