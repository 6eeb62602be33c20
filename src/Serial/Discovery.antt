-- ===== src/Serial/Discovery.antt =====
-- `PlatformSerialPortDiscovery` of serial_port_discovery.cpp, in its build for Unix.
use dlms_transport.Prelude.{
  Bool, true, false, ◌||◌, ◌==◌, ltb, if◌then◌else◌, List, [], ◌∷◌, ◌++◌, Option, none, some, take,
  length,
}
use dlms_transport.Status.{Status, ok}
use dlms_transport.Buffer.{Bytes}

pub record SerialPortInfo : Type 0 where
  pub device : Bytes
  pub display_name : Bytes
  pub hardware_id : Bytes

abbrev pub new_info : Bytes → SerialPortInfo
new_info device = record { device = device; display_name = []; hardware_id = [] }

-- `==` of two strings, and `<`.
unfoldable pub bytes_equal : Bytes → Bytes → Bool
bytes_equal [] [] = true
bytes_equal [] (y ∷ ys) = false
bytes_equal (x ∷ xs) [] = false
bytes_equal (x ∷ xs) (y ∷ ys) = let rest = bytes_equal xs ys in if x == y then rest else false

unfoldable pub bytes_less : Bytes → Bytes → Bool
bytes_less [] [] = false
bytes_less [] (y ∷ ys) = true
bytes_less (x ∷ xs) [] = false
bytes_less (x ∷ xs) (y ∷ ys) = let rest = bytes_less xs ys in if x == y then rest else ltb x y

-- `compare` reads at most as many characters of the value as the prefix has.
unfoldable pub has_prefix : Bytes → Bytes → Bool
has_prefix value prefix = bytes_equal (take (length prefix) value) prefix

abbrev pub tty_s : Bytes
tty_s = 116 ∷ 116 ∷ 121 ∷ 83 ∷ []

abbrev pub tty_usb : Bytes
tty_usb = 116 ∷ 116 ∷ 121 ∷ 85 ∷ 83 ∷ 66 ∷ []

abbrev pub tty_acm : Bytes
tty_acm = 116 ∷ 116 ∷ 121 ∷ 65 ∷ 67 ∷ 77 ∷ []

abbrev pub cu_dot : Bytes
cu_dot = 99 ∷ 117 ∷ 46 ∷ []

unfoldable pub is_port_name : Bytes → Bool
is_port_name name =
    has_prefix name tty_s
    || (has_prefix name tty_usb || (has_prefix name tty_acm || has_prefix name cu_dot))

abbrev pub port_of : Bytes → Bytes → SerialPortInfo
port_of directory name = record (new_info (directory ++ (47 ∷ []) ++ name)) { display_name = name }

-- The loop over the entries that `readdir` gives.
unfoldable pub append_entries : Bytes → List Bytes → List SerialPortInfo → List SerialPortInfo
append_entries directory [] ports = ports
append_entries directory (name ∷ names) ports =
    append_entries directory names
      (if is_port_name name then ports ++ port_of directory name ∷ [] else ports)

-- `none`: `opendir` has failed.
abbrev pub append_ports_from_directory :
    Bytes → Option (List Bytes) → List SerialPortInfo → List SerialPortInfo
append_ports_from_directory directory none ports = ports
append_ports_from_directory directory (some names) ports = append_entries directory names ports

-- `std::sort` by the device.
unfoldable pub insert_port : SerialPortInfo → List SerialPortInfo → List SerialPortInfo
insert_port port [] = port ∷ []
insert_port port (next ∷ ports) =
    let rest = insert_port port ports in
    if bytes_less next.device port.device then next ∷ rest else port ∷ next ∷ ports

unfoldable pub sort_ports : List SerialPortInfo → List SerialPortInfo
sort_ports [] = []
sort_ports (port ∷ ports) = insert_port port (sort_ports ports)

abbrev pub dev : Bytes
dev = 47 ∷ 100 ∷ 101 ∷ 118 ∷ []

-- `ListPorts`, with the entries of "/dev" and what the vector has before the call.
unfoldable pub list_ports : Option (List Bytes) → List SerialPortInfo → Status × List SerialPortInfo
list_ports entries ports = (ok, sort_ports (append_ports_from_directory dev entries []))
