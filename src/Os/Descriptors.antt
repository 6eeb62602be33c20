-- ===== src/Os/Descriptors.antt =====
-- Which descriptors the log leaves in use.
use dlms_transport.Prelude.{
  ℤ, negsuc, ◌==ℤ◌, ◌≡◌, refl, Bool, true, false, not, ◌&&◌, [], ◌∷◌, if◌then◌else◌, arith,
}
use dlms_transport.Os.Events.{Event, History}

-- kInvalidSocket and kInvalidSerialHandle
abbrev pub invalid : ℤ
invalid = negsuc 0

-- A call that makes a descriptor answers with it, or with the invalid one.
abbrev pub opens : ℤ → ℤ → Bool → Bool
opens r fd before = if r ==ℤ fd && not (fd ==ℤ invalid) then true else before

-- One call's effect on the use of a descriptor.
abbrev pub live_after : Event → ℤ → Bool → Bool
live_after (Event.socket family kind protocol r) fd before = opens r fd before
live_after (Event.accept listener r) fd before = opens r fd before
live_after (Event.open_device name r) fd before = opens r fd before
live_after (Event.close r) fd before = if r ==ℤ fd then false else before
live_after _ fd before = before

unfoldable pub live : History → ℤ → Bool
live [] fd = false
live (e ∷ h) fd = live_after e fd (live h fd)

-- The descriptor that a call works on.
abbrev pub uses : Event → ℤ → Bool
uses (Event.getfl r a) fd = r ==ℤ fd
uses (Event.setfl r flags a) fd = r ==ℤ fd
uses (Event.reuse_address r a) fd = r ==ℤ fd
uses (Event.bind r a b) fd = r ==ℤ fd
uses (Event.listen r a b) fd = r ==ℤ fd
uses (Event.accept r a) fd = r ==ℤ fd
uses (Event.connect r a b) fd = r ==ℤ fd
uses (Event.socket_error r a) fd = r ==ℤ fd
uses (Event.getsockname r a) fd = r ==ℤ fd
uses (Event.select r a b c) fd = r ==ℤ fd
uses (Event.pending r a) fd = r ==ℤ fd
uses (Event.recv r a b) fd = r ==ℤ fd
uses (Event.send r a b c) fd = r ==ℤ fd
uses (Event.read r a b) fd = r ==ℤ fd
uses (Event.write r a b c) fd = r ==ℤ fd
uses (Event.close r) fd = r ==ℤ fd
uses _ fd = false

-- Every call of the log works on a descriptor that is in use at that moment: nothing is used
-- after it was closed, closed twice, or used though it was never made.
abbrev pub IsClean : History → Type 0
IsClean [] = Unit {0}
IsClean (e ∷ h) = ((fd : ℤ) → uses e fd ≡ true → live h fd ≡ true) × IsClean h

live_after-invalid : (e : Event) → live_after e invalid false ≡ false
live_after-invalid (Event.socket family kind protocol r) = ground arith
live_after-invalid (Event.close r) = ground arith
live_after-invalid _ = ground arith

pub live-invalid : (h : History) → live h invalid ≡ false
unfolding live
live-invalid [] = refl
live-invalid (e ∷ h) = rw (live-invalid h) (live_after-invalid e)
