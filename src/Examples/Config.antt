-- ===== src/Examples/Config.antt =====
-- A configuration with two chains, a UDP socket and a serial port.
use mavtables.Prelude.{
  ℕ, ◌<◌, ◌≡◌, refl, true, false, none, some, [], ◌∷◌, Bytes, codes, All, list_eq, get_elem?,
}
use mavtables.Prelude.Int.{pos}
use mavtables.Prelude.Exception.{Result, ok}
use mavtables.Text.{scan, scan_sign, scan_number, scan_digits, skip_space, is_digit, is_space}
use mavtables.MavAddress.{MavAddress}
use mavtables.IpAddress.{IpAddress}
use mavtables.Rule.{Rule}
use mavtables.Rule
use mavtables.Chain
use mavtables.Chain.{Chain, Heap}
use mavtables.Chain.Gives.{is_held}
use mavtables.Filter
use mavtables.Filter.{Filter}
use mavtables.Ast
use mavtables.Ast.{Name, Node, Nodes, node, none_left, and}
use mavtables.ConfigParser
use mavtables.ConfigParser.{parse_filter, Chains, init_chains}
use mavtables.ConfigParser.Bare.{WellFormed}
use mavtables.ConfigParser.WellFormed.{parse_filter-WellFormed}
use mavtables.ConfigParser.Meaning.{names_of, block_names, blocks_of, last_action}
use mavtables.ConfigParser.Blocks.{rules_of, parse_filter-blocks_of}
use mavtables.ConfigParser.Interfaces
use mavtables.ConfigParser.Interfaces.{Interface, udp, serial, make_app}
use mavtables.ConfigParser.Ready.{Started}
use mavtables.ConfigParser.Started.{kinds, make_app-Started}
use mavtables.ConnectionPool
use mavtables.ConnectionPool.Each as Pool
use mavtables.Connection
use mavtables.ConnectionFactory
use mavtables.Semaphore
use mavtables.AddressPool
use mavtables.PacketQueue
use mavtables.PacketParser.{fresh}
use mavtables.UdpInterface
use mavtables.UdpInterface.{UdpInterface, Network}
use mavtables.SerialInterface
use mavtables.SerialInterface.{SerialInterface}
use mavtables.Examples.Packets.{messages}
use mavtables.Examples.Tokens.{split}

abbrev text : Name → Bytes → Node
text name content = node name (some content) none_left

-- default_action accept;
-- chain default { call inner with priority 3; reject; }
-- chain inner { accept with priority 99; }
-- udp { port 14501; }
-- serial { device ./ttyS0; flow_control YES; preload 1.1; }
abbrev pub configuration : Node
configuration = node (Name.other []) none (
    and (node Name.default_action none (and (node Name.accept none none_left) none_left)) (
      and
        (node Name.chain (some (codes "default")) (
          and
            (node Name.call (some (codes "inner")) (and (text Name.priority (codes "3")) none_left))
            (and (node Name.reject none none_left) none_left)))
        (and
          (node Name.chain (some (codes "inner")) (
            and (node Name.accept none (and (text Name.priority (codes "99")) none_left))
              none_left))
          (and (node Name.udp none (and (text Name.port (codes "14501")) none_left)) (
            and
              (node Name.serial none (
                and (text Name.device (codes "./ttyS0")) (
                  and (text Name.flow_control (codes "YES"))
                    (and (text Name.preload (codes "1.1")) none_left))))
              none_left)))))

abbrev heap : Heap
heap =
    record {
      name = codes "default";
      rules = Rule.call 1 (some (pos 3)) none ∷ Rule.reject none ∷ [];
      calling_threads = [];
    }
    ∷ record {
      name = codes "inner";
      rules = Rule.accept (some (pos 99)) none ∷ [];
      calling_threads = [];
    }
    ∷ []

abbrev filter : Filter
filter = record { default_chain = 0; accept_by_default = true }

parsed : parse_filter messages split configuration ≡ ok (heap, filter)
unfolding parse_filter ConfigParser.stoi ConfigParser.at ConfigParser.init_chain
    ConfigParser.init_chains ConfigParser.condition_option ConfigParser.parse_condition
    ConfigParser.target ConfigParser.parse_action ConfigParser.rule_option ConfigParser.rule_options
    ConfigParser.parse_rule ConfigParser.parse_chain ConfigParser.chain_of ConfigParser.fill_chain
    ConfigParser.filter_node ConfigParser.filter_nodes list_eq Ast.content Ast.children Ast.name
    Chain.make Chain.has_blank Chain.append Rule.make_call Rule.make_goto Filter.make scan scan_sign
    scan_number scan_digits skip_space is_digit is_space
parsed = refl

parse_filter-WellFormed_example : WellFormed heap × (0 < 2) × ((t d : ℕ) → is_held t heap d ≡ false)
parse_filter-WellFormed_example =
    parse_filter-WellFormed messages split configuration heap filter parsed

parse_filter-blocks_of_example :
    (names_of heap ≡ codes "default" ∷ block_names (Ast.children configuration))
    × ((i : ℕ)
        → rules_of (get_elem? heap i)
          ≡ blocks_of messages split (names_of heap) i (Ast.children configuration))
    × (filter.default_chain ≡ 0)
    × (true ≡ last_action false (Ast.children configuration))
parse_filter-blocks_of_example =
    parse_filter-blocks_of messages split configuration heap filter parsed

abbrev any_mav : Bytes → Result MavAddress
any_mav s = ok (record { address = 257 })

abbrev any_ip : Bytes → Result IpAddress
any_ip s = ok (record { address = 0; port = 0 })

abbrev udp_interface : UdpInterface
udp_interface = record {
  connections = [];
  parser = fresh;
  last_ip_address = record { address = 0; port = 0 };
  factory = record { filter_given = true; mirror = false; semaphore = record { value = 0 } };
}

abbrev serial_interface : SerialInterface
serial_interface = record { connection = 0; parser = fresh }

abbrev network : Network
network = record {
  pool = record { connections = 0 ∷ [] };
  store =
      some (record {
        name = codes "./ttyS0";
        mirror = false;
        pool = record { entries = (record { address = 257 }, 7) ∷ []; timeout = 120000 };
        queue = record { has_callback = false; ticket = 0; running = true; queue = [] };
      })
      ∷ [];
}

made :
    make_app any_mav any_ip
      (λ x. ok tt)
      (λ device baud flow. ok tt)
      120000
      7
      messages
      split
      configuration
    ≡ ok (heap, filter, udp udp_interface ∷ serial serial_interface ∷ [], network)
unfolding make_app Interfaces.parse_interfaces Interfaces.parse_interface Interfaces.parse_udp
    Interfaces.parse_serial Interfaces.udp_options Interfaces.udp_option Interfaces.serial_options
    Interfaces.serial_option Interfaces.to_lower Interfaces.cast_unsigned ConfigParser.stoi list_eq
    Ast.content Ast.children Connection.make Connection.add_address AddressPool.make AddressPool.add
    AddressPool.insert PacketQueue.make ConnectionFactory.make Semaphore.make UdpInterface.make
    SerialInterface.make ConnectionPool.add ConnectionPool.insert scan scan_sign scan_number
    scan_digits skip_space is_digit is_space
made = rw parsed refl

make_app-Started_example :
    Pool.IsValid network.pool
    × All (Started network) (udp udp_interface ∷ serial serial_interface ∷ [])
    × (Name.udp ∷ Name.serial ∷ [] ≡ kinds (Ast.children configuration))
make_app-Started_example =
    make_app-Started any_mav any_ip (λ x. ok tt) (λ device baud flow. ok tt) 120000 7 messages split
      configuration heap filter (udp udp_interface ∷ serial serial_interface ∷ []) network made
