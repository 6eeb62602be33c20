-- ===== src/Tests/Discovery.antt =====
-- Runs of the discovery of serial ports.
use dlms_transport.Prelude.{◌≡◌, refl, inr, List, [], ◌∷◌, some}
use mathlib.Core.List.{Perm, Pairwise-singleton}
use mathlib.Core.List.Perm
use dlms_transport.Status.{ok}
use dlms_transport.Buffer.{Bytes}
use dlms_transport.Serial.Discovery.{
  SerialPortInfo, port_of, dev, list_ports, is_port_name, has_prefix, bytes_equal, bytes_less,
  append_entries, insert_port, sort_ports,
}
use dlms_transport.Serial.Sorting.{IsAscending}
use dlms_transport.Serial.Listing.{
  Selects, none_left, takes, skips, HasPortPrefix, not-HasPortPrefix, list_ports_lists,
  list_ports_unique,
}

-- "ttyS1", "null" and "cu.a"
abbrev tty_s1 : Bytes
tty_s1 = 116 ∷ 116 ∷ 121 ∷ 83 ∷ 49 ∷ []

abbrev null_device : Bytes
null_device = 110 ∷ 117 ∷ 108 ∷ 108 ∷ []

abbrev cu_a : Bytes
cu_a = 99 ∷ 117 ∷ 46 ∷ 97 ∷ []

abbrev names : List Bytes
names = tty_s1 ∷ null_device ∷ cu_a ∷ []

abbrev stale : List SerialPortInfo
stale = port_of dev null_device ∷ []

listing_run : list_ports (some names) stale ≡ (ok, port_of dev cu_a ∷ port_of dev tty_s1 ∷ [])
unfolding list_ports is_port_name has_prefix bytes_equal bytes_less append_entries insert_port
    sort_ports
listing_run = refl

list_ports_lists_example :
    let r = list_ports (some names) stale in
    (r.0 ≡ ok)
    × IsAscending r.1
    × (selected : List SerialPortInfo) × Selects names selected
    × Perm r.1 selected
list_ports_lists_example = list_ports_lists (some names) stale

null_device_rejected : ¬ HasPortPrefix null_device
unfolding is_port_name has_prefix bytes_equal
null_device_rejected = not-HasPortPrefix null_device refl

-- The directory has one port, and another entry.
list_ports_unique_example :
    list_ports (some (null_device ∷ cu_a ∷ [])) stale ≡ (ok, port_of dev cu_a ∷ [])
list_ports_unique_example =
    list_ports_unique (some (null_device ∷ cu_a ∷ [])) stale (port_of dev cu_a ∷ [])
      (port_of dev cu_a ∷ [])
      (skips null_device_rejected (takes (97 ∷ [], inr (inr (inr refl))) none_left)) Perm.rfl
      (Pairwise-singleton _ (port_of dev cu_a))
