-- ===== src/Serial/Sorting.antt =====
-- The sort of serial_port_discovery.cpp: an ascending rearrangement, of which there is only one.
use dlms_transport.Prelude.{◌≡◌, sym, ap, ◌∙◌, false, if_cases, List, [], ◌∷◌, ◌++◌}
use mathlib.Core.Logic.Or
use mathlib.Core.Path.{ap₂}
use mathlib.Core.List.{
  Mem, mem-cons, mem-cons_self, mem-cons_of_mem, Perm, Pairwise, Pairwise-singleton,
  append_cancel_left,
}
use mathlib.Core.List.Pairwise
use mathlib.Core.List.Perm
use dlms_transport.Serial.Discovery.{
  SerialPortInfo, bytes_less, port_of, insert_port, sort_ports, dev,
}
use dlms_transport.Serial.Order.{
  bytes_less_refl, bytes_less_asym, bytes_less_trans, bytes_less_antisym,
}

-- One port may stand before another: its device is not the greater one.
abbrev pub IsBefore : SerialPortInfo → SerialPortInfo → Type 0
IsBefore p q = bytes_less q.device p.device ≡ false

abbrev pub IsAscending : List SerialPortInfo → Type 0
IsAscending = Pairwise IsBefore

IsBefore-prop : (p q : SerialPortInfo) → IsProp (IsBefore p q)
IsBefore-prop p q = hlevel

abbrev IsBelow : SerialPortInfo → List SerialPortInfo → Type 0
IsBelow p l = (q : SerialPortInfo) → Mem q l → IsBefore p q

IsBelow-cons :
    (p : SerialPortInfo) {q : SerialPortInfo} {l : List SerialPortInfo}
    → IsBefore p q
    → IsBelow p l
    → IsBelow p (q ∷ l)
IsBelow-cons p first rest x m =
    Or.elim (IsBefore-prop p x) (mem-cons.0 m) (λ e. rw e first) (rest x)

insert_port-Perm : (p : SerialPortInfo) (l : List SerialPortInfo) → Perm (insert_port p l) (p ∷ l)
unfolding insert_port
insert_port-Perm p [] = Perm.rfl
insert_port-Perm p (q ∷ l) =
    if_cases (λ r. Perm r (p ∷ q ∷ l)) (bytes_less q.device p.device)
      (λ e. Perm.trans (Perm.cons q (insert_port-Perm p l)) (Perm.swap p q l)) (λ e. Perm.rfl)

insert_port-IsAscending :
    (p : SerialPortInfo) {l : List SerialPortInfo} → IsAscending l → IsAscending (insert_port p l)
unfolding insert_port
insert_port-IsAscending p Pairwise.nil = Pairwise-singleton _ p
insert_port-IsAscending p (Pairwise.cons {a = q} {l = l} below s) =
    if_cases IsAscending (bytes_less q.device p.device)
      (λ e.
        Pairwise.cons
          (λ x m.
            IsBelow-cons q (bytes_less_asym q.device p.device e) below x
              ((Perm.mem_iff (insert_port-Perm p l)).0 m))
          (insert_port-IsAscending p s))
      (λ e.
        Pairwise.cons
          (IsBelow-cons p e λ x m. bytes_less_trans p.device q.device x.device e (below x m))
          (Pairwise.cons below s))

pub sort_ports-Perm : (l : List SerialPortInfo) → Perm (sort_ports l) l
unfolding sort_ports
sort_ports-Perm [] = Perm.rfl
sort_ports-Perm (p ∷ l) =
    Perm.trans (insert_port-Perm p (sort_ports l)) (Perm.cons p (sort_ports-Perm l))

pub sort_ports-IsAscending : (l : List SerialPortInfo) → IsAscending (sort_ports l)
unfolding sort_ports
sort_ports-IsAscending [] = Pairwise.nil
sort_ports-IsAscending (p ∷ l) = insert_port-IsAscending p (sort_ports-IsAscending l)

-- A port as the discovery makes it.
abbrev pub IsMade : SerialPortInfo → Type 0
IsMade p = p ≡ port_of dev p.display_name

pub IsMade-prop : (p : SerialPortInfo) → IsProp (IsMade p)
IsMade-prop p = hlevel

same_ports : (p q : SerialPortInfo) → IsMade p → IsMade q → IsBefore p q → IsBefore q p → p ≡ q
same_ports p q made made' before after =
    let devices = bytes_less_antisym p.device q.device before after in
    let names =
      append_cancel_left (dev ++ 47 ∷ []) p.display_name q.display_name
        (sym (ap (λ r. r.device) made) ∙ devices ∙ ap (λ r. r.device) made') in
    made ∙ ap (port_of dev) names ∙ sym made'

head-IsBelow :
    {p : SerialPortInfo} {l : List SerialPortInfo} → IsAscending (p ∷ l) → IsBelow p (p ∷ l)
head-IsBelow {p} (Pairwise.cons below s) = IsBelow-cons p (bytes_less_refl p.device) below

-- Whatever sort is used, the ascending rearrangement is the same.
pub ascending_unique :
    {l r : List SerialPortInfo}
    → ((p : SerialPortInfo) → Mem p l → IsMade p)
    → IsAscending l
    → IsAscending r
    → Perm l r
    → l ≡ r
ascending_unique {l = []} made s t perm = Perm.nil-eq perm
ascending_unique {l = p ∷ l} {r = []} made s t perm = Perm.eq-nil perm
ascending_unique {l = p ∷ l} {r = q ∷ r} made s t perm =
    let later = (Perm.mem_iff perm).1 mem-cons_self in
    let earlier = (Perm.mem_iff perm).0 mem-cons_self in
    let heads =
      same_ports p q (made p mem-cons_self) (made q later) (head-IsBelow s q later)
        (head-IsBelow t p earlier) in
    let tails = Perm.cons_inv (Perm.trans perm (Perm.symm (Perm.cons' heads Perm.rfl))) in
    ap₂ ◌∷◌ heads (
      ascending_unique {l = l} {r = r} (λ x m. made x (mem-cons_of_mem p m)) (Pairwise.of_cons s)
        (Pairwise.of_cons t) tails)
