-- ===== src/Serial/Listing.antt =====
-- What `ListPorts` of serial_port_discovery.cpp lists, and in what order.
use dlms_transport.Prelude.{
  ◌≡◌, refl, sym, ap, ◌∙◌, Bool, true, false, ◌||◌, Bool-cases, ◌⊎◌, inl, inr, List, [], ◌∷◌, ◌++◌,
  append_assoc, append-nil, Option, none, some, arith,
}
use mathlib.Core.Logic.Or
use mathlib.Core.List.{Mem, mem-cons, not-mem-nil, Perm}
use mathlib.Core.List.Perm
use dlms_transport.Status.{ok}
use dlms_transport.Buffer.{Bytes}
use dlms_transport.Serial.Discovery.{
  SerialPortInfo, has_prefix, tty_s, tty_usb, tty_acm, cu_dot, is_port_name, port_of,
  append_entries, append_ports_from_directory, sort_ports, dev, list_ports,
}
use dlms_transport.Serial.Order.{has_prefix-append, append-has_prefix}
use dlms_transport.Serial.Sorting.{
  IsAscending, IsMade, IsMade-prop, sort_ports-Perm, sort_ports-IsAscending, ascending_unique,
}

-- The name begins with one of the four prefixes.
abbrev pub HasPortPrefix : Bytes → Type 0
HasPortPrefix name =
    (rest : Bytes) × ((name ≡ tty_s ++ rest)
      ⊎ (name ≡ tty_usb ++ rest)
      ⊎ (name ≡ tty_acm ++ rest)
      ⊎ (name ≡ cu_dot ++ rest))

-- The ports of the entries that have one, in the order of the directory.
pub data Selects : List Bytes → List SerialPortInfo → Type 0 where
  none_left : Selects [] []
  takes :
      {name : Bytes} {names : List Bytes} {ports : List SerialPortInfo}
      → HasPortPrefix name
      → Selects names ports
      → Selects (name ∷ names) (port_of dev name ∷ ports)
  skips :
      {name : Bytes} {names : List Bytes} {ports : List SerialPortInfo}
      → ¬ HasPortPrefix name
      → Selects names ports
      → Selects (name ∷ names) ports

or_cases : (a b : Bool) → (a || b) ≡ true → (a ≡ true) ⊎ (b ≡ true)
or_cases true b e = inl refl
or_cases false b e = inr e

is_port_name-HasPortPrefix : (name : Bytes) → is_port_name name ≡ true → HasPortPrefix name
unfolding is_port_name
is_port_name-HasPortPrefix name e = elim (or_cases (has_prefix name tty_s) _ e) [
  | inl p ↦ let r = has_prefix-append name tty_s p in (r.0, inl r.1)
  | inr e₁ ↦ elim (or_cases (has_prefix name tty_usb) _ e₁) [
    | inl p ↦ let r = has_prefix-append name tty_usb p in (r.0, inr (inl r.1))
    | inr e₂ ↦ elim (or_cases (has_prefix name tty_acm) _ e₂) [
      | inl p ↦ let r = has_prefix-append name tty_acm p in (r.0, inr (inr (inl r.1)))
      | inr p ↦ let r = has_prefix-append name cu_dot p in (r.0, inr (inr (inr r.1)))
    ]
  ]
]

HasPortPrefix-is_port_name : (name : Bytes) → HasPortPrefix name → is_port_name name ≡ true
unfolding is_port_name
HasPortPrefix-is_port_name name (rest, inl e) = rw (e, append-has_prefix tty_s rest) refl
HasPortPrefix-is_port_name name (rest, inr (inl e)) =
    rw e (ground (arith, append-has_prefix tty_usb rest))
HasPortPrefix-is_port_name name (rest, inr (inr (inl e))) =
    rw e (ground (arith, append-has_prefix tty_acm rest))
HasPortPrefix-is_port_name name (rest, inr (inr (inr e))) =
    rw e (ground (arith, append-has_prefix cu_dot rest))

pub not-HasPortPrefix : (name : Bytes) → is_port_name name ≡ false → ¬ HasPortPrefix name
not-HasPortPrefix name e p = ground (arith, HasPortPrefix-is_port_name name p)

append_entries-Selects :
    (names : List Bytes) (ports : List SerialPortInfo)
    → (l : List SerialPortInfo) × (append_entries dev names ports ≡ ports ++ l) × Selects names l
unfolding append_entries
append_entries-Selects [] ports = ([], sym (append-nil ports), none_left)
append_entries-Selects (name ∷ names) ports = elim (Bool-cases (is_port_name name)) [
  | inl e ↦
      let rest = append_entries-Selects names (ports ++ port_of dev name ∷ []) in
      (
        port_of dev name ∷ rest.0,
        rw e (rest.1 ∙ append_assoc ports (port_of dev name ∷ []) rest.0),
        takes (is_port_name-HasPortPrefix name e) rest.2,
      )
  | inr e ↦
      let rest = append_entries-Selects names ports in
      (rest.0, rw e rest.1, skips (not-HasPortPrefix name e) rest.2)
]

Selects-IsMade :
    {names : List Bytes} {l : List SerialPortInfo}
    → Selects names l
    → (p : SerialPortInfo) → Mem p l
    → IsMade p
Selects-IsMade none_left p m = absurd (not-mem-nil m)
Selects-IsMade (takes {name = name} h s) p m =
    Or.elim (IsMade-prop p) (mem-cons.0 m) (λ e. e ∙ ap (λ q. port_of dev q.display_name) (sym e))
      (Selects-IsMade s p)
Selects-IsMade (skips h s) p m = Selects-IsMade s p m

-- The entries of the directory, none if it cannot be opened.
abbrev pub entries_or_none : Option (List Bytes) → List Bytes
entries_or_none none = []
entries_or_none (some names) = names

Selects-unique :
    {names : List Bytes} {l r : List SerialPortInfo} → Selects names l → Selects names r → l ≡ r
Selects-unique none_left none_left = refl
Selects-unique (takes {name = name} h s) (takes h' t) =
    ap (◌∷◌ (port_of dev name)) (Selects-unique s t)
Selects-unique (takes h s) (skips h' t) = absurd (h' h)
Selects-unique (skips h s) (takes h' t) = absurd (h h')
Selects-unique (skips h s) (skips h' t) = Selects-unique s t

-- The result is what the selected ports come to when they are sorted.
appended :
    (entries : Option (List Bytes))
    → (l : List SerialPortInfo) × (append_ports_from_directory dev entries [] ≡ l)
      × Selects (entries_or_none entries) l
appended none = ([], refl, none_left)
appended (some names) = append_entries-Selects names []

-- Whatever the vector has before and whether or not "/dev" can be opened, `ListPorts` returns Ok,
-- and lists exactly the ports of the entries whose name begins with ttyS, ttyUSB, ttyACM or cu.,
-- once for each entry, ascending by their device.
pub list_ports_lists :
    (entries : Option (List Bytes)) (old : List SerialPortInfo)
    → let r = list_ports entries old in
      (r.0 ≡ ok)
      × IsAscending r.1
      × (selected : List SerialPortInfo) × Selects (entries_or_none entries) selected
      × Perm r.1 selected
unfolding list_ports
list_ports_lists entries old =
    let l = appended entries in
    (refl, sort_ports-IsAscending _, l.0, l.2, rw l.1 (sort_ports-Perm l.0))

-- If a list is a rearrangement of the ports of the entries whose name begins with ttyS, ttyUSB,
-- ttyACM or cu., and is ascending by their device, then it is the list that `ListPorts` gives,
-- with the status Ok, whatever the vector has before: the outcome does not depend on how
-- `std::sort` works.
pub list_ports_unique :
    (entries : Option (List Bytes)) (old selected sorted : List SerialPortInfo)
    → Selects (entries_or_none entries) selected
    → Perm sorted selected
    → IsAscending sorted
    → list_ports entries old ≡ (ok, sorted)
unfolding list_ports
list_ports_unique entries old selected sorted s perm ascending =
    let l = appended entries in
    let same = Selects-unique l.2 s in
    let listed : Perm (sort_ports l.0) sorted =
      Perm.trans (sort_ports-Perm l.0) (rw same (Perm.symm perm)) in
    let made = λ (p : SerialPortInfo) (m : Mem p (sort_ports l.0)).
      Selects-IsMade l.2 p ((Perm.mem_iff (sort_ports-Perm l.0)).0 m) in
    rw l.1 (ap (λ r. (ok, r)) (ascending_unique made (sort_ports-IsAscending l.0) ascending listed))
