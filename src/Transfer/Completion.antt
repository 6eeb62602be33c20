-- ===== src/Transfer/Completion.antt =====
-- On a willing system the loop ends with everything written.
use dlms_transport.Prelude.{
  ℕ, ℤ, zero, suc, ◌+◌, ◌-◌, ◌<◌, ◌≡◌, refl, Bool, true, false, not, length, drop, ltb, is_positive,
  is_zero, to_size, Option, none, some, arith,
}
use dlms_transport.Status.{Status, ok, is_ok}
use dlms_transport.Buffer.{Bytes}
use dlms_transport.Os.{Os, Io, History, last_error, Ends, Ends-return, Ends-bind, Ends-if}
use dlms_transport.Transfer.Delivery.{Verdict}
use dlms_transport.Transfer.Loop.{transfer_loop}

-- The loop has not failed.
abbrev pub Unfailed : Option Status → Type 0
Unfailed none = Unit {0}
Unfailed (some ok) = Unit {0}
Unfailed (some _) = ⊥

-- With the verdict on what was written.
pub Unfailed-all :
    (r : Option Status) (n total : ℕ) → Unfailed r → Verdict r n total → (r ≡ some ok) × (n ≡ total)
Unfailed-all none n total u v = absurd v
Unfailed-all (some ok) n total u v = (refl, v)
Unfailed-all (some _) n total u v = absurd u

module _ (os : Os) (wait : Io Status) (put : Bytes → ℕ → Io ℤ) (again : ℕ → Bool) (xs : Bytes)
    (ready : (h : History) → Ends wait h (λ s k. is_ok s ≡ true))
    (moves : (done : ℕ) (h : History)
      → done < length xs
      → Ends (put (drop done xs) (length xs - done)) h (λ chunk k. is_zero chunk ≡ false))
    (patient : (h : History) → again (os.errno h) ≡ true) where
  pub transfer_loop-Unfailed :
      (fuel done : ℕ) (h : History)
      → Ends (transfer_loop os wait put again xs fuel done) h (λ r k. Unfailed r)
  unfolding transfer_loop
  transfer_loop-Unfailed zero done h = Ends-return _ tt
  transfer_loop-Unfailed (suc fuel) done h =
      Ends-if (not (ltb done (length xs))) (λ e. Ends-return _ tt)
        λ more. Ends-bind (ready h) λ waited k up.
          Ends-if (not (is_ok waited)) (λ e. absurd (ground arith))
            λ e. Ends-bind (moves done k (ground arith)) λ chunk l moved.
              Ends-if (is_positive chunk)
                (λ f. transfer_loop-Unfailed fuel (done + to_size chunk) l)
                λ f.
                  Ends-if (is_zero chunk) (λ g. absurd (ground arith))
                    λ g.
                      Ends-bind {P = λ error m. again error ≡ true}
                        (unfold last_error in record { at = patient l })
                        λ error m p.
                          Ends-if (again error) (λ i. transfer_loop-Unfailed fuel done m)
                            (λ i. absurd (ground arith))
