-- ===== src/Os/Shares.antt =====
-- Several objects on one system, each of which owns one descriptor while it is open.
use dlms_transport.Prelude.{
  ℕ, zero, suc, ℤ, ◌+◌, ◌==ℤ◌, ==ℤ_iff, ==ℤ_refl, ◌≡◌, ◌≢◌, refl, ap, Bool, true, false, not, ◌&&◌,
  List, [], ◌∷◌, ◌++◌, Option, none, some, if◌then◌else◌, arith,
}
use dlms_transport.Os.Events.{History}
use dlms_transport.Os.Descriptors.{invalid, live, live-invalid, IsClean}
use dlms_transport.Os.Ownership.{Owner}

-- The descriptor of an object, and whether the object is open.
abbrev pub Handle : Type 0
Handle = ℤ × Bool

abbrev pub closed_handle : Handle
closed_handle = (invalid, false)

abbrev pub holds : Handle → ℤ → Bool
holds o j = o.1 && o.0 ==ℤ j

abbrev pub to_ℕ : Bool → ℕ
to_ℕ true = 1
to_ℕ false = 0

-- How many of the objects hold a descriptor.
unfoldable pub held : ℤ → List Handle → ℕ
held j [] = 0
held j (o ∷ l) = to_ℕ (holds o j) + held j l

abbrev pub IsFlagged : List Handle → Type 0
IsFlagged [] = Unit {0}
IsFlagged (o ∷ l) = (o.1 ≡ not (o.0 ==ℤ invalid)) × IsFlagged l

-- Beside the descriptors that `base` counts, each open object has one in use of its own. As the
-- left side is at most 1, no two share one.
pub record Owners (base : ℤ → ℕ) (l : List Handle) (h : History) : Type 0 where
  pub flags : IsFlagged l
  pub count : (j : ℤ) → to_ℕ (live h j) ≡ base j + held j l
  pub clean : IsClean h

module _ {ℓ} {A : Type ℓ} where
  unfoldable pub at : ℕ → List A → Option A
  at i [] = none
  at zero (x ∷ l) = some x
  at (suc i) (x ∷ l) = at i l

  -- A position beyond the list leaves it alone.
  unfoldable pub put : ℕ → A → List A → List A
  put i y [] = []
  put zero y (x ∷ l) = y ∷ l
  put (suc i) y (x ∷ l) = x ∷ put i y l

held-put :
    (j : ℤ) (i : ℕ) (o p : Handle) (l : List Handle)
    → at i l ≡ some o
    → held j (put i p l) + to_ℕ (holds o j) ≡ held j l + to_ℕ (holds p j)
unfolding held at put
held-put j i o p [] e = absurd (cc e)
held-put j zero o p (x ∷ l) e = let q : x ≡ o = cc e in rw q (omega arith)
held-put j (suc i) o p (x ∷ l) e = omega (arith, held-put j i o p l e)

IsFlagged-put :
    (i : ℕ) (p : Handle) (l : List Handle)
    → p.1 ≡ not (p.0 ==ℤ invalid)
    → IsFlagged l
    → IsFlagged (put i p l)
unfolding put
IsFlagged-put i p [] e f = tt
IsFlagged-put zero p (x ∷ l) e f = (e, f.1)
IsFlagged-put (suc i) p (x ∷ l) e f = (f.0, IsFlagged-put i p l e f.1)

IsFlagged-at :
    (i : ℕ) (o : Handle) (l : List Handle)
    → at i l ≡ some o
    → IsFlagged l
    → o.1 ≡ not (o.0 ==ℤ invalid)
unfolding at
IsFlagged-at i o [] e f = absurd (cc e)
IsFlagged-at zero o (x ∷ l) e f = let q : x ≡ o = cc e in rw (← q) f.0
IsFlagged-at (suc i) o (x ∷ l) e f = IsFlagged-at i o l e f.1

at-held :
    (j : ℤ) (i : ℕ) (o : Handle) (l : List Handle)
    → at i l ≡ some o
    → (m : ℕ) × (held j l ≡ to_ℕ (holds o j) + m)
unfolding at held
at-held j i o [] e = absurd (cc e)
at-held j zero o (x ∷ l) e = let q : x ≡ o = cc e in (held j l, rw q refl)
at-held j (suc i) o (x ∷ l) e =
    let p = at-held j i o l e in (to_ℕ (holds x j) + p.0, omega (arith, p.1))

-- The balance when one object changes from `ho` to `hp` at a descriptor that is in use as `lh`.
balance :
    (hp ho lh lk : Bool) (s m n : ℕ)
    → lk ≡ (if hp then true else (lh && not ho))
    → (hp ≡ true → (lh && not ho) ≡ false)
    → (ho ≡ true → lh ≡ true)
    → to_ℕ lh ≡ s + m
    → n + to_ℕ ho ≡ m + to_ℕ hp
    → to_ℕ lk ≡ s + n
balance true true true lk s m n e f g c d = rw e (omega arith)
balance true true false lk s m n e f g c d = absurd (cc (g refl))
balance true false true lk s m n e f g c d = absurd (cc (f refl))
balance true false false lk s m n e f g c d = rw e (omega arith)
balance false true true lk s m n e f g c d = rw e (omega arith)
balance false true false lk s m n e f g c d = absurd (cc (g refl))
balance false false lh lk s m n e f g c d =
    let q : lk ≡ lh = ground (arith, e) in rw q (omega arith)

-- What is in use beside the descriptor of one object.
abbrev pub others : Handle → History → ℤ → Bool
others o h j = live h j && not (holds o j)

module _ {base : ℤ → ℕ} {l : List Handle} {h : History} where
  Owners-live :
      (i : ℕ) (o : Handle) (j : ℤ)
      → Owners base l h
      → at i l ≡ some o
      → holds o j ≡ true
      → live h j ≡ true
  Owners-live i o j w e held_j = let p = at-held j i o l e in ground (arith, w.count j, p.1)

  -- One object as the owner of its descriptor, beside all else that is in use.
  pub Owners-Owner :
      (i : ℕ) (o : Handle) → Owners base l h → at i l ≡ some o → Owner (others o h) o.0 o.1 h
  Owners-Owner i o w e = record {
    flag = IsFlagged-at i o l e w.flags;
    void = ground (arith, live-invalid h);
    outside =
        ground
          (arith, live-invalid h, IsFlagged-at i o l e w.flags, ==ℤ_refl o.0, ==ℤ_iff o.0 invalid);
    exact = λ j. ground (arith, Owners-live i o j w e);
    clean = w.clean;
  }

  -- What one object has done beside the others.
  pub Owners-put :
      {k : History} (i : ℕ) (o p : Handle)
      → Owners base l h
      → at i l ≡ some o
      → Owner (others o h) p.0 p.1 k
      → Owners base (put i p l) k
  Owners-put {k = k} i o p w e q = record {
    flags = IsFlagged-put i p l q.flag w.flags;
    count = λ j.
        balance (holds p j) (holds o j) (live h j) (live k j) (base j) (held j l)
          (held j (put i p l)) (q.exact j) (free j) (Owners-live i o j w e) (w.count j)
          (held-put j i o p l e);
    clean = q.clean;
  }
    where
      free : (j : ℤ) → holds p j ≡ true → others o h j ≡ false
      free j x = let y : p.0 ≡ j = (==ℤ_iff p.0 j).0 (ground arith) in rw (← y) q.outside

held-append : (j : ℤ) (l m : List Handle) → held j (l ++ m) ≡ held j l + held j m
unfolding held
held-append j [] m = omega arith
held-append j (o ∷ l) m = omega (arith, held-append j l m)

IsFlagged-append : (l m : List Handle) → IsFlagged l → IsFlagged m → IsFlagged (l ++ m)
IsFlagged-append [] m f g = g
IsFlagged-append (o ∷ l) m f g = (f.0, IsFlagged-append l m f.1 g)

-- A new object is closed.
pub Owners-append :
    {base : ℤ → ℕ} {l : List Handle} {h : History}
    → Owners base l h
    → Owners base (l ++ closed_handle ∷ []) h
unfolding held
Owners-append {l = l} w = record {
  flags = IsFlagged-append l (closed_handle ∷ []) w.flags (refl, tt);
  count = λ j. omega (arith, w.count j, held-append j l (closed_handle ∷ []));
  clean = w.clean;
}

pub Owners-none : (h : History) → IsClean h → Owners (λ j. to_ℕ (live h j)) [] h
unfolding held
Owners-none h c = record { flags = tt; count = λ j. omega arith; clean = c }

-- When every object is closed, what is in use is what was in use at the start.
abbrev pub AllClosed : List Handle → Type 0
AllClosed [] = Unit {0}
AllClosed (o ∷ l) = (o.1 ≡ false) × AllClosed l

held-closed : (j : ℤ) (l : List Handle) → AllClosed l → held j l ≡ 0
unfolding held
held-closed j [] c = refl
held-closed j (o ∷ l) c = ground (arith, c.0, held-closed j l c.1)

to_ℕ-inj : (a b : Bool) → to_ℕ a ≡ to_ℕ b → a ≡ b
to_ℕ-inj true true e = refl
to_ℕ-inj false false e = refl
to_ℕ-inj true false e = absurd (omega arith)
to_ℕ-inj false true e = absurd (omega arith)

pub Owners-closed :
    (start : History) {l : List Handle} {h : History}
    → Owners (λ j. to_ℕ (live start j)) l h
    → AllClosed l
    → (j : ℤ) → live h j ≡ live start j
Owners-closed start {l} {h} w c j =
    to_ℕ-inj (live h j) (live start j) (omega (arith, w.count j, held-closed j l c))

-- The first object may be counted with the base.
pub Owners-tail :
    {base : ℤ → ℕ} {o : Handle} {l : List Handle} {h : History}
    → Owners base (o ∷ l) h
    → Owners (λ j. base j + to_ℕ (holds o j)) l h
unfolding held
Owners-tail w = record { flags = w.flags.1; count = λ j. omega (arith, w.count j); clean = w.clean }

pub Owners-cons :
    {base : ℤ → ℕ} {o : Handle} {l : List Handle} {h : History}
    → o.1 ≡ not (o.0 ==ℤ invalid)
    → Owners (λ j. base j + to_ℕ (holds o j)) l h
    → Owners base (o ∷ l) h
unfolding held
Owners-cons e w = record {
  flags = (e, w.flags);
  count = λ j. omega (arith, w.count j);
  clean = w.clean;
}

-- Two objects of the list.
two-held :
    (j : ℤ) (i k : ℕ) (o p : Handle) (l : List Handle)
    → at i l ≡ some o
    → at k l ≡ some p
    → i ≢ k
    → (m : ℕ) × (held j l ≡ to_ℕ (holds o j) + to_ℕ (holds p j) + m)
unfolding at held
two-held j i k o p [] a b d = absurd (cc a)
two-held j zero zero o p (x ∷ l) a b d = absurd (d refl)
two-held j zero (suc k) o p (x ∷ l) a b d =
    let q : x ≡ o = cc a in let r = at-held j k p l b in (r.0, rw q (omega (arith, r.1)))
two-held j (suc i) zero o p (x ∷ l) a b d =
    let q : x ≡ p = cc b in let r = at-held j i o l a in (r.0, rw q (omega (arith, r.1)))
two-held j (suc i) (suc k) o p (x ∷ l) a b d =
    let r = two-held j i k o p l a b (λ e. d (ap suc e)) in
    (to_ℕ (holds x j) + r.0, omega (arith, r.1))

-- One object works on the descriptor of another, which is open: it is in use beside its own.
pub other-live :
    {base : ℤ → ℕ} {l : List Handle} {h : History} (i k : ℕ) (o p : Handle)
    → Owners base l h
    → at i l ≡ some o
    → at k l ≡ some p
    → i ≢ k
    → o.1 ≡ true
    → others p h o.0 ≡ true
other-live i k o p w a b d e =
    let r = two-held o.0 i k o p _ a b d in
    exclusive (holds o o.0) (holds p o.0) (live _ o.0) _ _ _ (ground (arith, e, ==ℤ_refl o.0))
      (w.count o.0) r.1
  where
    exclusive :
        (ho hp lh : Bool) (s n m : ℕ)
        → ho ≡ true
        → to_ℕ lh ≡ s + n
        → n ≡ to_ℕ ho + to_ℕ hp + m
        → (lh && not hp) ≡ true
    exclusive true false true s n m e c q = refl
    exclusive true false false s n m e c q = absurd (omega arith)
    exclusive true true true s n m e c q = absurd (omega arith)
    exclusive true true false s n m e c q = absurd (omega arith)
    exclusive false hp lh s n m e c q = absurd (cc e)
