-- ===== src/UdpInterface/Receive.antt =====
-- `UDPInterface::receive_packet`: the connections that it makes, and the permits of the packets that
-- it sends on the interface's own connections.
use mavtables.Prelude.{
  ℕ, ◌+◌, ◌^◌, ◌<◌, ◌≡◌, refl, sym, ap, ◌∙◌, Bool, true, false, Option, none, some, List, [], ◌∷◌,
  Bytes, length, arith, if◌then◌else◌,
}
use mavtables.Prelude.Exception.{Result, ok, err}
use mavtables.Mavlink.{Library}
use mavtables.MavAddress.{MavAddress}
use mavtables.IpAddress
use mavtables.IpAddress.{IpAddress, lt}
use mavtables.Packet
use mavtables.Packet.{Packet}
use mavtables.PacketParser
use mavtables.PacketParser.{PacketParser, parse_byte}
use mavtables.Prelude.Int.{ℤ}
use mavtables.Connection.Once.{send-IsOnce}
use mavtables.Connection
use mavtables.Connection.{Connection, Sent, add_address}
use mavtables.ConnectionPool
use mavtables.ConnectionPool.{ConnectionPool, Store, Heard, lock}
use mavtables.UdpInterface.{
  Network, UdpInterface, Received, after_pool, forward, after_update, from_source, after_byte,
  parse_bytes, turn_to, receive_packet, find, hear,
}
use mavtables.UdpInterface.Queued.{Distinct, AllOpen, Keeps-AllOpen}
use mavtables.UdpInterface.Notified.{
  IsAccounted, heard_callbacks, hear_all-value, send-IsNotified, IsOnce-IsAccounted,
}
use mavtables.UdpInterface.Permits.{IsValid}
use mavtables.UdpInterface.Updates.{Grown, Grown-again, Updated, update_connections-Updated}

abbrev Served : UdpInterface → Network → Received → Type 0
Served u net (r, heard, u', net') = Grown u net heard u' net'

abbrev Serves : (UdpInterface → Network → Received) → Type 0
Serves rest =
    (u : UdpInterface) (net : Network)
    → Distinct u.connections
    → AllOpen u.connections net.store
    → Served u net (rest u net)

nothing-Grown :
    (u : UdpInterface) (net : Network) (p : PacketParser) (ip : IpAddress)
    → Distinct u.connections
    → AllOpen u.connections net.store
    → Grown u net [] (record u { parser = p; last_ip_address = ip }) net
unfolding heard_callbacks
nothing-Grown u net p ip distinct all = (distinct, all, λ j h. h, omega arith, refl)

module _ (timeout : ℕ) (lib : Library) (send_on : Packet → Connection → Sent)
    (law : (packet : Packet) (c : Connection) → IsAccounted c.queue (send_on packet c)) where
  after_pool-Served :
      (u : UdpInterface) (net : Network)
      (q : Result (Unit {0}) × List Heard × ConnectionPool × Store)
      (rest : UdpInterface → Network → Received)
      → Grown u net q.1 u (record { pool = q.2; store = q.3 })
      → Serves rest
      → Served u net (after_pool timeout lib send_on u q rest)
  after_pool-Served u net (ok v, heard, pool, store) rest sent serves =
      let (r, later, u', net') = rest u (record { pool = pool; store = store }) in
      Grown-again u net heard u (record { pool = pool; store = store }) later u' net' sent
        (serves u (record { pool = pool; store = store }) sent.0 sent.1)
  after_pool-Served u net (err e, heard, pool, store) rest sent serves = sent

  forward-Served :
      (packet : Packet) (ip : IpAddress) (u : UdpInterface) (net : Network)
      (rest : UdpInterface → Network → Received)
      → Distinct u.connections
      → AllOpen u.connections net.store
      → Serves rest
      → Served u net (forward timeout lib send_on packet ip u net rest)
  forward-Served packet ip u net rest distinct all serves =
      let p = Packet.set_connection packet (find ip u.connections) in
      let (keeps, e) =
        send-IsNotified send_on p u.connections net.pool net.store (law p) distinct all in
      after_pool-Served u net (ConnectionPool.send send_on (some p) net.pool net.store) rest
        (distinct, Keeps-AllOpen u.connections net.store _ keeps all, λ j h. h, omega arith, refl)
        serves

  after_update-Served :
      (packet : Packet) (ip : IpAddress) (r : Result (UdpInterface × Network)) (u : UdpInterface)
      (net : Network) (rest : UdpInterface → Network → Received)
      → Distinct u.connections
      → AllOpen u.connections net.store
      → Updated timeout u net r
      → Serves rest
      → Served u net (after_update timeout lib send_on packet ip r u net rest)
  after_update-Served packet ip (err e) u net rest distinct all updated serves =
      nothing-Grown u net u.parser u.last_ip_address distinct all
  after_update-Served packet ip (ok (u', net')) u net rest distinct all updated serves =
      let (r, later, u'', net'') = forward timeout lib send_on packet ip u' net' rest in
      Grown-again u net [] u' net' later u'' net'' updated
        (forward-Served packet ip u' net' rest updated.0 updated.1 serves)

  from_source-Served :
      (now : ℕ) (packet : Packet) (ip : IpAddress) (r : Result MavAddress) (u : UdpInterface)
      (net : Network) (rest : UdpInterface → Network → Received)
      → Distinct u.connections
      → AllOpen u.connections net.store
      → Serves rest
      → Served u net (from_source timeout lib send_on now packet ip r u net rest)
  from_source-Served now packet ip (err e) u net rest distinct all serves =
      nothing-Grown u net u.parser u.last_ip_address distinct all
  from_source-Served now packet ip (ok source) u net rest distinct all serves =
      after_update-Served packet ip _ u net rest distinct all
        (update_connections-Updated timeout now source ip u net distinct all) serves

  after_byte-Served :
      (now : ℕ) (ip : IpAddress) (r : Result (Option Packet) × PacketParser) (u : UdpInterface)
      (net : Network) (rest : UdpInterface → Network → Received)
      → Distinct u.connections
      → AllOpen u.connections net.store
      → Serves rest
      → Served u net (after_byte timeout lib send_on now ip r u net rest)
  after_byte-Served now ip (ok none, p) u net rest distinct all serves =
      serves (record u { parser = p }) net distinct all
  after_byte-Served now ip (ok (some packet), p) u net rest distinct all serves =
      from_source-Served now packet ip (Packet.source packet) (record u { parser = p }) net rest
        distinct all serves
  after_byte-Served now ip (err e, p) u net rest distinct all serves =
      nothing-Grown u net p u.last_ip_address distinct all

  module _ (now : ℕ → ℕ) where
    parse_bytes-Served :
        (ip : IpAddress) (bytes : Bytes) → Serves (parse_bytes timeout lib send_on now ip bytes)
    unfolding parse_bytes
    parse_bytes-Served ip [] u net distinct all =
        nothing-Grown u net u.parser u.last_ip_address distinct all
    parse_bytes-Served ip (byte ∷ bytes) u net distinct all =
        after_byte-Served (now (length bytes)) ip (parse_byte lib u.parser byte) u net _ distinct
          all (parse_bytes-Served ip bytes)

    turned-Served :
        (b : Bool) (ip : IpAddress) (bytes : Bytes) (u : UdpInterface) (net : Network)
        → Distinct u.connections
        → AllOpen u.connections net.store
        → Served u net (
            parse_bytes timeout lib send_on now ip bytes
              (if b
                then record u { parser = PacketParser.clear u.parser; last_ip_address = ip }
                else u)
              net)
    turned-Served true ip bytes u net distinct all =
        parse_bytes-Served ip bytes
          (record u { parser = PacketParser.clear u.parser; last_ip_address = ip }) net distinct all
    turned-Served false ip bytes u net distinct all = parse_bytes-Served ip bytes u net distinct all

    receive_packet-Served :
        (d : Bytes × IpAddress) → Serves (receive_packet timeout lib send_on now d)
    unfolding receive_packet turn_to
    receive_packet-Served ([], ip) u net distinct all =
        nothing-Grown u net u.parser u.last_ip_address distinct all
    receive_packet-Served (byte ∷ bytes, ip) u net distinct all =
        turned-Served (IpAddress.ne ip u.last_ip_address) ip (byte ∷ bytes) u net distinct all

    heard-IsValid :
        (d : Bytes × IpAddress) (u : UdpInterface) (net : Network)
        → IsValid u net
        → let (r, heard, u', net') = receive_packet timeout lib send_on now d u net in
          u.factory.semaphore.value + heard_callbacks u'.connections heard < 2 ^ 64
          → IsValid (hear heard u') net'
    unfolding hear
    heard-IsValid d u net (distinct, all, permits) small =
        let (distinct', all', grows, few, same) = receive_packet-Served d u net distinct all in
        let (r, heard, u', net') = receive_packet timeout lib send_on now d u net in
        let v : u'.factory.semaphore.value ≡ u.factory.semaphore.value =
          ap (λ f. f.semaphore.value) same in
        let e = hear_all-value u'.connections heard u'.factory.semaphore (omega arith) in
        (distinct', all', omega arith)

module _ (timeout : ℕ) (lib : Library) (judge : Packet → MavAddress → Result (Bool × ℤ))
    (clock now : ℕ → ℕ) where
  abbrev pub send_on : Packet → Connection → Sent
  send_on packet c = Connection.send judge lib clock (some packet) c

  -- When a UDP interface has received a datagram, and its semaphore has heard of the packets that were
  -- queued on the interface's own connections, the connections are different and open, and the
  -- semaphore has a permit for each queued packet: also if the datagram makes a connection or has
  -- several packets, whatever the filter says, and if an exception is thrown. This needs that the
  -- semaphore does not wrap around at 64 bits.
  pub receive_packet-IsValid :
      (d : Bytes × IpAddress) (u : UdpInterface) (net : Network)
      → IsValid u net
      → let (r, heard, u', net') = receive_packet timeout lib send_on now d u net in
        u.factory.semaphore.value + heard_callbacks u'.connections heard < 2 ^ 64
        → IsValid (hear heard u') net'
  receive_packet-IsValid d u net valid small =
      heard-IsValid timeout lib send_on
        (λ packet c.
          IsOnce-IsAccounted packet c.queue (send_on packet c)
            (send-IsOnce judge lib clock packet c))
        now d u net valid small

  -- A datagram from another IP address than the one before is parsed from the start: what is left of
  -- earlier datagrams in the parser, whatever it is, has no effect on what is received.
  pub receive_packet-other_address :
      (byte : ℕ) (bytes : Bytes) (ip : IpAddress) (u : UdpInterface) (left : PacketParser)
      (net : Network)
      → IpAddress.ne ip u.last_ip_address ≡ true
      → receive_packet timeout lib send_on now (byte ∷ bytes, ip) u net
        ≡ receive_packet timeout lib send_on now (byte ∷ bytes, ip) (record u { parser = left }) net
  unfolding receive_packet turn_to PacketParser.clear
  receive_packet-other_address byte bytes ip u left net new =
      ap
        (λ b.
          parse_bytes timeout lib send_on now ip (byte ∷ bytes)
            (if b
              then record u { parser = PacketParser.clear u.parser; last_ip_address = ip }
              else u)
            net)
        new
      ∙ sym (
          ap
            (λ b.
              parse_bytes timeout lib send_on now ip (byte ∷ bytes)
                (if b
                  then record u { parser = PacketParser.clear left; last_ip_address = ip }
                  else record u { parser = left })
                net)
            new)
