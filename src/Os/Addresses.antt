-- ===== src/Os/Addresses.antt =====
-- The address lists that the system hands out and that are given back. A null pointer is no list.
use dlms_transport.Prelude.{ℕ, ℤ, ◌+◌, ◌≡◌, Bool, List, [], ◌∷◌, Option, none, some, arith}
use dlms_transport.Buffer.{Bytes}
use dlms_transport.Os.Events.{Os, Event, History, Address, Hints, Timeval}
use dlms_transport.Os.Calls.{
  Io, call_getaddrinfo, call_freeaddrinfo, call_close, last_error, call_socket, call_getfl,
  call_setfl, call_bind, call_connect, call_socket_error, call_select,
}
use dlms_transport.Os.Outcome.{Ends}

abbrev pub list_count : List Address → ℕ
list_count [] = 0
list_count (a ∷ l) = 1

abbrev pub obtained_by : Event → ℕ
obtained_by (Event.getaddrinfo host port hints (some l)) = list_count l
obtained_by _ = 0

abbrev pub released_by : Event → ℕ
released_by (Event.freeaddrinfo l) = list_count l
released_by _ = 0

unfoldable pub obtained : History → ℕ
obtained [] = 0
obtained (e ∷ h) = obtained_by e + obtained h

unfoldable pub released : History → ℕ
released [] = 0
released (e ∷ h) = released_by e + released h

-- Between the two logs, that many lists were obtained more than were released.
pub record Holding (n : ℕ) (h k : History) : Type 0 where
  pub balance : obtained k + released h ≡ obtained h + released k + n

abbrev pub EndsHolding : {A : Type 0} → Io A → History → (A → ℕ) → Type 0
EndsHolding m h n = Ends m h (λ a k. Holding (n a) h k)

pub Holding-refl : (h : History) → Holding 0 h h
Holding-refl h = record { balance = omega arith }

pub Holding-trans :
    {m n : ℕ} {h k l : History} → Holding m h k → Holding n k l → Holding (m + n) h l
Holding-trans p q = record { balance = omega (arith, p.balance, q.balance) }

-- An action that neither obtains nor releases.
pub Holding-idle : {n : ℕ} {h k l : History} → Holding n h k → Holding 0 k l → Holding n h l
Holding-idle p q = record { balance = omega (arith, p.balance, q.balance) }

pub Holding-start : {n : ℕ} {h k l : History} → Holding 0 h k → Holding n k l → Holding n h l
Holding-start p q = record { balance = omega (arith, p.balance, q.balance) }

-- A list that is held is released.
pub free-Holding :
    (l : List Address) {h k : History}
    → Holding (list_count l) h k
    → Ends (call_freeaddrinfo l) k (λ u m. Holding 0 h m)
unfolding call_freeaddrinfo obtained released
free-Holding l p = record { at = record { balance = omega (arith, p.balance) } }

pub call_close-Holding : (fd : ℤ) (h : History) → EndsHolding (call_close fd) h (λ u. 0)
unfolding call_close obtained released
call_close-Holding fd h = record { at = record { balance = omega arith } }

abbrev pub answer_count : Option (List Address) → ℕ
answer_count none = 0
answer_count (some l) = list_count l

module _ (os : Os) where
  pub call_getaddrinfo-Holding :
      (node : Option Bytes) (port : ℕ) (hints : Hints) (h : History)
      → EndsHolding (call_getaddrinfo os node port hints) h answer_count
  unfolding call_getaddrinfo obtained released
  call_getaddrinfo-Holding node port hints h = record {
    at = record { balance = counted (os.getaddrinfo h node port hints) };
  }
    where
      counted :
          (r : Option (List Address))
          → obtained_by (Event.getaddrinfo node port hints r) + obtained h + released h
            ≡ obtained h + (0 + released h) + answer_count r
      counted none = omega arith
      counted (some l) = omega arith

  pub last_error-Holding : (h : History) → EndsHolding (last_error os) h (λ u. 0)
  unfolding last_error
  last_error-Holding h = record { at = Holding-refl h }

  pub call_socket-Holding :
      (family kind protocol : ℕ) (h : History)
      → EndsHolding (call_socket os family kind protocol) h (λ u. 0)
  unfolding call_socket obtained released
  call_socket-Holding family kind protocol h = record { at = record { balance = omega arith } }

  pub call_getfl-Holding : (fd : ℤ) (h : History) → EndsHolding (call_getfl os fd) h (λ u. 0)
  unfolding call_getfl obtained released
  call_getfl-Holding fd h = record { at = record { balance = omega arith } }

  pub call_setfl-Holding :
      (fd : ℤ) (n : ℕ) (h : History) → EndsHolding (call_setfl os fd n) h (λ u. 0)
  unfolding call_setfl obtained released
  call_setfl-Holding fd n h = record { at = record { balance = omega arith } }

  pub call_bind-Holding :
      (fd : ℤ) (a : Address) (h : History) → EndsHolding (call_bind os fd a) h (λ u. 0)
  unfolding call_bind obtained released
  call_bind-Holding fd a h = record { at = record { balance = omega arith } }

  pub call_connect-Holding :
      (fd : ℤ) (a : Address) (h : History) → EndsHolding (call_connect os fd a) h (λ u. 0)
  unfolding call_connect obtained released
  call_connect-Holding fd a h = record { at = record { balance = omega arith } }

  pub call_socket_error-Holding :
      (fd : ℤ) (h : History) → EndsHolding (call_socket_error os fd) h (λ u. 0)
  unfolding call_socket_error obtained released
  call_socket_error-Holding fd h = record { at = record { balance = omega arith } }

  pub call_select-Holding :
      (fd : ℤ) (r : Bool) (t : Timeval) (h : History)
      → EndsHolding (call_select os fd r t) h (λ u. 0)
  unfolding call_select obtained released
  call_select-Holding fd r t h = record { at = record { balance = omega arith } }
