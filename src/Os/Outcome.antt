-- ===== src/Os/Outcome.antt =====
-- What holds of the value and the log at the end of an action, by rules that follow its text.
use dlms_transport.Prelude.{◌≡◌, refl, Bool, true, false, if◌then◌else◌}
use dlms_transport.Os.Events.{History}
use dlms_transport.Os.Calls.{Io, ◌>>=◌, ◌>>◌, return}

pub record Ends {A : Type 0} (m : Io A) (h : History) (Q : A → History → Type 0) : Type 0 where
  pub at : Q (m h).0 (m h).1

pub Ends-return :
    {A : Type 0} (a : A) {h : History} {Q : A → History → Type 0} → Q a h → Ends (return a) h Q
unfolding return
Ends-return a q = record { at = q }

module _ {A B : Type 0} {h : History} {Q : B → History → Type 0} where
  pub Ends-bind :
      {m : Io A} {f : A → Io B} {P : A → History → Type 0}
      → Ends m h P
      → ((a : A) (k : History) → P a k → Ends (f a) k Q)
      → Ends (m >>= f) h Q
  unfolding ◌>>=◌
  Ends-bind p next = record { at = (next _ _ p.at).at }

pub Ends-then :
    {B : Type 0} {h : History} {Q : B → History → Type 0} {m : Io (Unit {0})} {n : Io B}
    {P : Unit {0} → History → Type 0}
    → Ends m h P
    → ((k : History) → P tt k → Ends n k Q)
    → Ends (m >> n) h Q
unfolding ◌>>◌
Ends-then p next = record { at = (next _ p.at).at }

pub Ends-if :
    {A : Type 0} (b : Bool) {m n : Io A} {h : History} {Q : A → History → Type 0}
    → (b ≡ true → Ends m h Q)
    → (b ≡ false → Ends n h Q)
    → Ends (if b then m else n) h Q
Ends-if true p q = p refl
Ends-if false p q = q refl

pub Ends-weaken :
    {A : Type 0} {m : Io A} {h : History} {P Q : A → History → Type 0}
    → Ends m h P
    → ((a : A) (k : History) → P a k → Q a k)
    → Ends m h Q
Ends-weaken p imp = record { at = imp _ _ p.at }

-- Nothing is asked of the action.
pub Ends-any : {A : Type 0} (m : Io A) (h : History) → Ends m h (λ a k. Unit {0})
Ends-any m h = record { at = tt }
