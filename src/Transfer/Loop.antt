-- ===== src/Transfer/Loop.antt =====
-- The loop over the actions that wait and that write a part, which the three transports fill in.
use dlms_transport.Prelude.{
  ℕ, ℤ, zero, suc, ◌+◌, ◌-◌, Bool, not, ltb, if◌then◌else◌, is_positive, is_zero, to_size, length,
  drop, Option, none, some,
}
use dlms_transport.Status.{Status, ok, timeout, write_failed, is_ok, is_timeout}
use dlms_transport.Buffer.{Bytes}
use dlms_transport.Os.{Os, Io, ◌>>=◌, return, last_error}

module _ (os : Os) (wait : Io Status) (put : Bytes → ℕ → Io ℤ) (again : ℕ → Bool)
    (input : Bytes) where
  -- One round, which goes on with the loop.
  abbrev pub transfer_round : (ℕ → Io (Option Status)) → ℕ → Io (Option Status)
  transfer_round loop written = if not (ltb written (length input)) then return (some ok) else do
    waited ← wait
    if not (is_ok waited)
        then return (some (if is_timeout waited then timeout else write_failed))
        else do
          chunk ← put (drop written input) (length input - written)
          if is_positive chunk
              then loop (written + to_size chunk)
              else if is_zero chunk
              then return (some write_failed)
              else do
                error ← last_error os
                if again error then loop written else return (some write_failed)

  -- On fuel: `none` means that it has not ended within the fuel.
  unfoldable pub transfer_loop : ℕ → ℕ → Io (Option Status)
  transfer_loop zero = λ written. return none
  transfer_loop (suc fuel) = transfer_round (transfer_loop fuel)
