-- ===== src/Os/Agreement.antt =====
-- Two actions that make the same calls, with related values: rules that follow their texts.
use dlms_transport.Prelude.{◌≡◌, refl, ap, ◌∙◌, Bool, true, false, if◌then◌else◌}
use mathlib.Core.Path.{subst}
use dlms_transport.Os.Events.{History}
use dlms_transport.Os.Calls.{Io, ◌>>=◌, ◌>>◌, return}
use dlms_transport.Os.Outcome.{Ends}

pub record Agrees {A B : Type 0} (R : A → B → Type 0) (m : Io A) (n : Io B) (h : History)
    : Type 0 where
  pub value : R (m h).0 (n h).0
  pub log : (m h).1 ≡ (n h).1

pub Agrees-return :
    {A B : Type 0} {R : A → B → Type 0} (a : A) (b : B) (h : History)
    → R a b
    → Agrees R (return a) (return b) h
unfolding return
Agrees-return a b h r = record { value = r; log = refl }

-- Related values, with the same log, go on to related values.
pub Agrees-bind :
    {A B C D : Type 0} {R : A → B → Type 0} {S : C → D → Type 0} {m : Io A} {n : Io B}
    {f : A → Io C} {g : B → Io D} {h : History}
    → Agrees R m n h
    → ((a : A) (b : B) (k : History) → R a b → Agrees S (f a) (g b) k)
    → Agrees S (m >>= f) (n >>= g) h
unfolding ◌>>=◌
Agrees-bind {S = S} {m = m} {n = n} {f = f} {g = g} {h = h} p next =
    let q = next (m h).0 (n h).0 (m h).1 p.value in
    record {
      value = subst (λ k. S (f (m h).0 (m h).1).0 (g (n h).0 k).0) p.log q.value;
      log = q.log ∙ ap (λ k. (g (n h).0 k).1) p.log;
    }

-- The same action on both sides.
pub Agrees-bind_same :
    {A C D : Type 0} {S : C → D → Type 0} (m : Io A) {f : A → Io C} {g : A → Io D} {h : History}
    → ((a : A) (k : History) → Agrees S (f a) (g a) k)
    → Agrees S (m >>= f) (m >>= g) h
unfolding ◌>>=◌
Agrees-bind_same m {h = h} next =
    let p = next (m h).0 (m h).1 in record { value = p.value; log = p.log }

pub Agrees-then_same :
    {C D : Type 0} {S : C → D → Type 0} (m : Io (Unit {0})) {n : Io C} {o : Io D} {h : History}
    → ((k : History) → Agrees S n o k)
    → Agrees S (m >> n) (m >> o) h
unfolding ◌>>◌
Agrees-then_same m {h = h} next = let p = next (m h).1 in record { value = p.value; log = p.log }

pub Agrees-if :
    {A B : Type 0} {R : A → B → Type 0} (b : Bool) {m n : Io A} {o p : Io B} {h : History}
    → (b ≡ true → Agrees R m o h)
    → (b ≡ false → Agrees R n p h)
    → Agrees R (if b then m else n) (if b then o else p) h
Agrees-if true f g = f refl
Agrees-if false f g = g refl

-- What holds at the end of one holds at the end of the other.
pub Agrees-Ends :
    {A B : Type 0} {R : A → B → Type 0} {m : Io A} {n : Io B} {h : History}
    {P : B → History → Type 0} {Q : A → History → Type 0}
    → Agrees R m n h
    → Ends n h P
    → ((a : A) (b : B) (k : History) → R a b → P b k → Q a k)
    → Ends m h Q
Agrees-Ends {m = m} {n = n} {h = h} {P = P} p e imp = record {
  at = imp (m h).0 (n h).0 (m h).1 p.value (rw (p.log) e.at);
}
