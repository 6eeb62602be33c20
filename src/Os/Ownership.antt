-- ===== src/Os/Ownership.antt =====
-- An object that owns one descriptor while it is open: the TCP client, the UDP transport.
use dlms_transport.Prelude.{
  ℤ, ◌==ℤ◌, ==ℤ_iff, ==ℤ_refl, ◌≡◌, refl, ◌∙◌, Bool, true, false, not, ◌&&◌, if◌then◌else◌, arith,
}
use dlms_transport.Os.Events.{History}
use dlms_transport.Os.Calls.{return, call_close}
use dlms_transport.Os.Descriptors.{invalid, live, live-invalid, IsClean}
use dlms_transport.Os.Custody.{Keeps, Works, Gains, Drops}
use dlms_transport.Os.Outcome.{Ends, Ends-return, Ends-if, Ends-weaken}
use dlms_transport.Os.Use.{call_close-Ends}

-- Beside the descriptors of a set, the one of an open object is in use, and no other.
pub record Owner (base : ℤ → Bool) (fd : ℤ) (opened : Bool) (h : History) : Type 0 where
  pub flag : opened ≡ not (fd ==ℤ invalid)
  pub void : base invalid ≡ false
  pub outside : base fd ≡ false
  pub exact : (j : ℤ) → live h j ≡ (if opened && fd ==ℤ j then true else base j)
  pub clean : IsClean h

pub Owner-none : (h : History) → IsClean h → Owner (live h) invalid false h
Owner-none h c = record {
  flag = refl;
  void = live-invalid h;
  outside = live-invalid h;
  exact = λ j. refl;
  clean = c;
}

pub Owner-live :
    {base : ℤ → Bool} {fd : ℤ} {opened : Bool} {h : History}
    → opened ≡ true
    → Owner base fd opened h
    → live h fd ≡ true
Owner-live {base} {fd} e o = ground (arith, o.exact fd, ==ℤ_refl fd)

module _ {base : ℤ → Bool} {fd : ℤ} {opened : Bool} {h k : History} where
  pub Owner-Works : opened ≡ true → Owner base fd opened h → Works fd h k → Owner base fd opened k
  Owner-Works e o w = record {
    flag = o.flag;
    void = o.void;
    outside = o.outside;
    exact = λ j. w.same j ∙ o.exact j;
    clean = w.clean (Owner-live e o) o.clean;
  }

  pub Owner-Keeps : Owner base fd opened h → Keeps h k → Owner base fd opened k
  Owner-Keeps o w = record {
    flag = o.flag;
    void = o.void;
    outside = o.outside;
    exact = λ j. w.same j ∙ o.exact j;
    clean = w.clean o.clean;
  }

  pub Owner-Gains :
      {new : ℤ} → opened ≡ false → Owner base fd opened h → Gains new h k → Owner base new true k
  Owner-Gains {new} e o p = record {
    flag = ground (arith, p.valid);
    void = o.void;
    outside = ground (arith, o.exact new, p.fresh);
    exact = λ j. ground (arith, p.more j, o.exact j);
    clean = p.clean o.clean;
  }

  Owner-Drops : opened ≡ true → Owner base fd opened h → Drops fd h k → Owner base invalid false k
  Owner-Drops e o d = record {
    flag = refl;
    void = o.void;
    outside = o.void;
    exact = λ j. ground (arith, d.less j, o.exact j, own j);
    clean = d.clean (Owner-live e o) o.clean;
  }
    where
      own : (j : ℤ) → (fd ==ℤ j) ≡ true → base j ≡ false
      own j same = rw (← (==ℤ_iff fd j).0 same) o.outside

-- What the `Close` operations do with the descriptor.
pub give_back-Owner :
    {base : ℤ → Bool} (fd : ℤ) (opened : Bool) (h : History)
    → Owner base fd opened h
    → Ends
        (if fd ==ℤ invalid then return tt else call_close fd)
        h
        (λ u k. Owner base invalid false k)
give_back-Owner {base} fd opened h o =
    Ends-if (fd ==ℤ invalid)
      (λ e. Ends-return tt (record {
        flag = refl;
        void = o.void;
        outside = o.void;
        exact = λ j. ground (arith, o.exact j, o.flag);
        clean = o.clean;
      }))
      (λ e. Ends-weaken (call_close-Ends fd h) λ u k d. Owner-Drops (ground (arith, o.flag)) o d)

-- A closed object owns nothing.
pub Owner-closed :
    {base : ℤ → Bool} {fd : ℤ} {opened : Bool} {h : History}
    → Owner base fd opened h
    → opened ≡ false
    → Owner base invalid false h
Owner-closed o e = record {
  flag = refl;
  void = o.void;
  outside = o.void;
  exact = λ j. ground (arith, o.exact j);
  clean = o.clean;
}
