-- ===== src/ConfigParser/Interfaces.antt =====
-- src/ConfigParser.cpp and src/App.cpp: the interfaces of a configuration. Opening a socket or a
-- serial port is a parameter, and so are the parts that an IP address and a MAVLink address are
-- split into. A connection is kept in the store of src/ConnectionPool.cpp's model.
use mavtables.Prelude.{
  ℕ, suc, ◌+◌, ◌-◌, ◌%◌, ◌^◌, Bool, true, false, ◌&&◌, Option, none, some, List, [], ◌∷◌, ◌++◌,
  Bytes, codes, ltb, if◌then◌else◌, length,
}
use mavtables.Prelude.Int.{ℤ, pos, negsuc}
use mavtables.Prelude.Exception.{Result, ok, err, invalid_argument, ◌>>=◌, ◌>>◌}
use mavtables.Mavlink.{Library}
use mavtables.MavAddress.{MavAddress}
use mavtables.IpAddress.{IpAddress}
use mavtables.PacketQueue
use mavtables.AddressPool
use mavtables.Connection
use mavtables.Connection.{Connection}
use mavtables.ConnectionFactory
use mavtables.UdpInterface
use mavtables.UdpInterface.{UdpInterface, Network}
use mavtables.SerialInterface
use mavtables.SerialInterface.{SerialInterface}
use mavtables.Chain.{Heap}
use mavtables.Filter.{Filter}
use mavtables.Ast.{Name, Node, Nodes, node, none_left, and, children, content}
use mavtables.ConfigParser.{stoi, same_text, parse_filter}

-- `to_lower`, for ASCII.
unfoldable pub to_lower : Bytes → Bytes
to_lower [] = []
to_lower (c ∷ s) =
    let rest = to_lower s in if ltb 64 c && ltb c 91 then (c + 32) ∷ rest else c ∷ rest

-- `static_cast` to an unsigned integer of `w` bits.
unfoldable pub cast_unsigned : ℕ → ℤ → ℕ
cast_unsigned w (pos n) = n % 2 ^ w
cast_unsigned w (negsuc n) = (2 ^ w - suc n % 2 ^ w) % 2 ^ w

pub record SerialSettings : Type 0 where
  pub device : Option Bytes
  pub baud_rate : ℕ
  pub flow_control : Bool
  pub preload : List MavAddress

pub record UdpSettings : Type 0 where
  pub port : ℕ
  pub address : Option IpAddress
  pub max_bitrate : ℕ

pub data Interface : Type 0 where
  udp : UdpInterface → Interface
  serial : SerialInterface → Interface

abbrev pub default_serial : SerialSettings
default_serial = record { device = none; baud_rate = 9600; flow_control = false; preload = [] }

abbrev pub default_udp : UdpSettings
default_udp = record { port = 14500; address = none; max_bitrate = 0 }

module _ (parse_mav : Bytes → Result MavAddress) (parse_ip : Bytes → Result IpAddress) where
  unfoldable pub serial_option : Node → SerialSettings → Result SerialSettings
  unfolding to_lower cast_unsigned
  serial_option (node Name.device s c) x = do
    text ← content (node Name.device s c)
    ok (record x { device = some text })
  serial_option (node Name.baudrate s c) x = do
    text ← content (node Name.baudrate s c)
    n ← stoi 64 text
    ok (record x { baud_rate = cast_unsigned 64 n })
  serial_option (node Name.flow_control s c) x = do
    text ← content (node Name.flow_control s c)
    ok (record x {
      flow_control = if same_text (to_lower text) (codes "yes") then true else x.flow_control;
    })
  serial_option (node Name.preload s c) x = do
    text ← content (node Name.preload s c)
    a ← parse_mav text
    ok (record x { preload = x.preload ++ a ∷ [] })
  serial_option n x = ok x

  unfoldable pub serial_options : Nodes → SerialSettings → Result SerialSettings
  unfolding serial_option
  serial_options none_left x = ok x
  serial_options (and n nodes) x = do y ← serial_option n x; serial_options nodes y

  unfoldable pub udp_option : Node → UdpSettings → Result UdpSettings
  unfolding cast_unsigned
  udp_option (node Name.port s c) x = do
    text ← content (node Name.port s c)
    n ← stoi 64 text
    ok (record x { port = cast_unsigned 32 n })
  udp_option (node Name.address s c) x = do
    text ← content (node Name.address s c)
    a ← parse_ip text
    ok (record x { address = some a })
  udp_option (node Name.max_bitrate s c) x = do
    text ← content (node Name.max_bitrate s c)
    n ← stoi 64 text
    ok (record x { max_bitrate = cast_unsigned 64 n })
  udp_option n x = ok x

  unfoldable pub udp_options : Nodes → UdpSettings → Result UdpSettings
  unfolding udp_option
  udp_options none_left x = ok x
  udp_options (and n nodes) x = do y ← udp_option n x; udp_options nodes y

  -- `timeout` is the default of an address pool, and `now` the time at which addresses are preloaded.
  module _ (open_socket : UdpSettings → Result (Unit {0}))
      (open_port : Bytes → ℕ → Bool → Result (Unit {0})) (timeout now : ℕ) where
    abbrev pub preloaded : List MavAddress → Connection → Connection
    preloaded [] c = c
    preloaded (a ∷ addresses) c = preloaded addresses (Connection.add_address now a c)

    abbrev pub device_of : Option Bytes → Result Bytes
    device_of none = err invalid_argument
    device_of (some device) = ok device

    abbrev pub with_connection : Connection → Network → Result (SerialInterface × Network)
    with_connection c net =
        SerialInterface.make true true (some (length net.store))
          (record net { store = net.store ++ some c ∷ [] })

    unfoldable pub parse_serial : Nodes → Network → Result (SerialInterface × Network)
    unfolding serial_options
    parse_serial nodes net = do
      x ← serial_options nodes default_serial
      device ← device_of x.device
      open_port device x.baud_rate x.flow_control
      c ←
          Connection.make device true false (some (AddressPool.make timeout))
            (some (PacketQueue.make false))
      with_connection (preloaded x.preload c) net

    unfoldable pub parse_udp : Nodes → Result UdpInterface
    unfolding udp_options
    parse_udp nodes = do
      x ← udp_options nodes default_udp
      open_socket x
      factory ← ConnectionFactory.make true false
      UdpInterface.make true true (some factory)

    unfoldable pub parse_interface :
        Node → List Interface → Network → Result (List Interface × Network)
    unfolding parse_udp parse_serial
    parse_interface (node Name.udp s nodes) interfaces net = do
      u ← parse_udp nodes
      ok (interfaces ++ udp u ∷ [], net)
    parse_interface (node Name.serial s nodes) interfaces net = do
      r ← parse_serial nodes net
      ok (interfaces ++ serial r.0 ∷ [], r.1)
    parse_interface n interfaces net = ok (interfaces, net)

    unfoldable pub parse_interfaces :
        Nodes → List Interface → Network → Result (List Interface × Network)
    unfolding parse_interface
    parse_interfaces none_left interfaces net = ok (interfaces, net)
    parse_interfaces (and n nodes) interfaces net = do
      r ← parse_interface n interfaces net
      parse_interfaces nodes r.0 r.1

    abbrev pub empty_network : Network
    empty_network = record { pool = record { connections = [] }; store = [] }

    unfoldable pub make_app :
        Library → (Bytes → List Bytes) → Node → Result (Heap × Filter × List Interface × Network)
    unfolding parse_interfaces
    make_app lib tokens root = do
      filter ← parse_filter lib tokens root
      r ← parse_interfaces (children root) [] empty_network
      ok (filter.0, filter.1, r.0, r.1)
