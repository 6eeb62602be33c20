-- ===== src/Os/Custody.antt =====
-- How an action changes the descriptors in use, and how such changes compose.
use dlms_transport.Prelude.{
  ℤ, ◌==ℤ◌, ==ℤ_iff, ==ℤ_refl, ◌≡◌, refl, sym, ◌∙◌, Bool, true, false, ◌⊎◌, inl, inr, Bool-cases,
  ◌∷◌, if◌then◌else◌, arith,
}
use dlms_transport.Os.Events.{Event, History}
use dlms_transport.Os.Calls.{call_close}
use dlms_transport.Os.Descriptors.{live, uses, live_after, opens, invalid, IsClean}

-- The same descriptors are in use as before, and only such were worked on.
pub record Keeps (h k : History) : Type 0 where
  pub same : (fd : ℤ) → live k fd ≡ live h fd
  pub clean : IsClean h → IsClean k

-- The same for an action that works on one descriptor, which has to be in use.
pub record Works (fd : ℤ) (h k : History) : Type 0 where
  pub same : (j : ℤ) → live k j ≡ live h j
  pub clean : live h fd ≡ true → IsClean h → IsClean k

-- One more descriptor is in use.
pub record Gains (fd : ℤ) (h k : History) : Type 0 where
  pub valid : (fd ==ℤ invalid) ≡ false
  pub fresh : live h fd ≡ false
  pub more : (j : ℤ) → live k j ≡ (if fd ==ℤ j then true else live h j)
  pub clean : IsClean h → IsClean k

-- One descriptor less.
pub record Drops (fd : ℤ) (h k : History) : Type 0 where
  pub less : (j : ℤ) → live k j ≡ (if fd ==ℤ j then false else live h j)
  pub clean : live h fd ≡ true → IsClean h → IsClean k

pub Keeps-refl : (h : History) → Keeps h h
Keeps-refl h = record { same = λ j. refl; clean = λ c. c }

pub Keeps-trans : {h k l : History} → Keeps h k → Keeps k l → Keeps h l
Keeps-trans p q = record { same = λ j. q.same j ∙ p.same j; clean = λ c. q.clean (p.clean c) }

pub Works-refl : (fd : ℤ) (h : History) → Works fd h h
Works-refl fd h = record { same = λ j. refl; clean = λ l c. c }

pub Works-trans : {fd : ℤ} {h k l : History} → Works fd h k → Works fd k l → Works fd h l
Works-trans {fd} p q = record {
  same = λ j. q.same j ∙ p.same j;
  clean = λ l c. q.clean (p.same fd ∙ l) (p.clean l c);
}

pub Keeps-Gains : {fd : ℤ} {h k l : History} → Keeps h k → Gains fd k l → Gains fd h l
Keeps-Gains {fd} p q = record {
  valid = q.valid;
  fresh = sym (p.same fd) ∙ q.fresh;
  more = λ j. rw (← p.same j) (q.more j);
  clean = λ c. q.clean (p.clean c);
}

pub Gains-Keeps : {fd : ℤ} {h k l : History} → Gains fd h k → Keeps k l → Gains fd h l
Gains-Keeps p q = record {
  valid = p.valid;
  fresh = p.fresh;
  more = λ j. q.same j ∙ p.more j;
  clean = λ c. q.clean (p.clean c);
}

Gains-live : {fd : ℤ} {h k : History} → Gains fd h k → live k fd ≡ true
Gains-live {fd} p = ground (arith, p.more fd, ==ℤ_refl fd)

pub Gains-Works : {fd : ℤ} {h k l : History} → Gains fd h k → Works fd k l → Gains fd h l
Gains-Works p q = record {
  valid = p.valid;
  fresh = p.fresh;
  more = λ j. q.same j ∙ p.more j;
  clean = λ c. q.clean (Gains-live p) (p.clean c);
}

-- What was gained and is given back leaves the descriptors as they were.
pub Gains-Drops : {fd : ℤ} {h k l : History} → Gains fd h k → Drops fd k l → Keeps h l
Gains-Drops {fd} {h} p q = record {
  same = λ j. ground (arith, p.more j, q.less j, moved j);
  clean = λ c. q.clean (Gains-live p) (p.clean c);
}
  where
    moved : (j : ℤ) → (fd ==ℤ j) ≡ true → live h j ≡ false
    moved j e = rw (← (==ℤ_iff fd j).0 e) p.fresh

pub live-subst :
    (h : History) (fd : ℤ) → live h fd ≡ true → (j : ℤ) → (fd ==ℤ j) ≡ true → live h j ≡ true
live-subst h fd l j e = rw (← (==ℤ_iff fd j).0 e) l

-- A call that works on one descriptor and makes or closes none.
pub Works-call :
    (fd : ℤ) (e : Event) (h : History)
    → ((j : ℤ) → uses e j ≡ (fd ==ℤ j))
    → ((j : ℤ) (b : Bool) → live_after e j b ≡ b)
    → Works fd h (e ∷ h)
unfolding live
Works-call fd e h u s = record {
  same = λ j. s j (live h j);
  clean = λ l c. ((λ j used. live-subst h fd l j (sym (u j) ∙ used)), c);
}

-- A call that works on no descriptor and makes or closes none.
pub Keeps-call :
    (e : Event) (h : History)
    → ((j : ℤ) → uses e j ≡ false)
    → ((j : ℤ) (b : Bool) → live_after e j b ≡ b)
    → Keeps h (e ∷ h)
unfolding live
Keeps-call e h u s = record {
  same = λ j. s j (live h j);
  clean = λ c. ((λ j used. ground (arith, u j)), c);
}

-- A call that works on a descriptor in use and may make another.
pub Gains-call :
    (r : ℤ) (e : Event) (h : History)
    → ((j : ℤ) → uses e j ≡ true → live h j ≡ true)
    → ((j : ℤ) (b : Bool) → live_after e j b ≡ opens r j b)
    → live h r ≡ false
    → ((r ==ℤ invalid) ≡ true) × Keeps h (e ∷ h) ⊎ Gains r h (e ∷ h)
unfolding live
Gains-call r e h u s fresh = elim (Bool-cases (r ==ℤ invalid)) [
  | inl bad ↦ inl (
    bad,
    record {
      same = λ j. ground (arith, s j (live h j), ==ℤ_iff r j, ==ℤ_iff r invalid, ==ℤ_iff j invalid);
      clean = λ c. (u, c);
    },
  )
  | inr good ↦ inr (record {
    valid = good;
    fresh = fresh;
    more = λ j. ground (arith, s j (live h j), ==ℤ_iff r j, ==ℤ_iff r invalid, ==ℤ_iff j invalid);
    clean = λ c. (u, c);
  })
]

pub call_close-Drops : (fd : ℤ) (h : History) → Drops fd h (call_close fd h).1
unfolding call_close live
call_close-Drops fd h = record { less = λ j. refl; clean = λ l c. (live-subst h fd l, c) }
