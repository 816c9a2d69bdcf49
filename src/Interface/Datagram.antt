-- ===== src/Interface/Datagram.antt =====
-- The packets of a UDP interface while another one receives a datagram.
use mavtables.Prelude.{ℕ, Option, none, some, List, [], ◌∷◌, Bytes, length}
use mavtables.Prelude.Exception.{Result, ok, err}
use mavtables.Mavlink.{Library}
use mavtables.MavAddress.{MavAddress}
use mavtables.IpAddress.{IpAddress}
use mavtables.Packet
use mavtables.Packet.{Packet}
use mavtables.PacketParser.{PacketParser, parse_byte}
use mavtables.Connection.{Connection, Sent}
use mavtables.ConnectionPool
use mavtables.ConnectionPool.{ConnectionPool, Store, Heard, lock}
use mavtables.UdpInterface
use mavtables.UdpInterface.{
  Network, UdpInterface, Table, insert, find, owns, connection_for, update_connections, seen, see,
  hear,
}
use mavtables.UdpInterface.Queued.{Distinct, AllOpen, Keeps-AllOpen}
use mavtables.UdpInterface.Notified.{IsAccounted, IsNotified, send-IsNotified}
use mavtables.Interface.Updates.{
  nothing-IsNotified, IsNotified-again, Updated, update_connections-Updated,
}

module _ (table : Table) (distinct : Distinct table) where
  module _ (timeout : ℕ) (lib : Library) (send_on : Packet → Connection → Sent)
      (law : (packet : Packet) (c : Connection) → IsAccounted c.queue (send_on packet c)) where
    abbrev Told : Network → UdpInterface.Received → Type 0
    Told net (r, heard, u', net') = IsNotified table net.store heard net'.store

    abbrev Tells : (UdpInterface → Network → UdpInterface.Received) → Type 0
    Tells rest =
        (u : UdpInterface) (net : Network) → AllOpen table net.store → Told net (rest u net)

    after_pool-Told :
        (u : UdpInterface) (net : Network)
        (q : Result (Unit {0}) × List Heard × ConnectionPool × Store)
        (rest : UdpInterface → Network → UdpInterface.Received)
        → AllOpen table net.store
        → IsNotified table net.store q.1 q.3
        → Tells rest
        → Told net (UdpInterface.after_pool timeout lib send_on u q rest)
    after_pool-Told u net (ok v, heard, pool, store) rest all sent tells =
        let (r, later, u', net') = rest u (record { pool = pool; store = store }) in
        IsNotified-again table distinct net.store heard store later net'.store sent (
          tells u (record { pool = pool; store = store })
            (Keeps-AllOpen table net.store store sent.0 all))
    after_pool-Told u net (err e, heard, pool, store) rest all sent tells = sent

    after_update-Told :
        (packet : Packet) (ip : IpAddress) (r : Result (UdpInterface × Network)) (u : UdpInterface)
        (net : Network) (rest : UdpInterface → Network → UdpInterface.Received)
        → AllOpen table net.store
        → Updated table distinct net r
        → Tells rest
        → Told net (UdpInterface.after_update timeout lib send_on packet ip r u net rest)
    after_update-Told packet ip (err e) u net rest all updated tells =
        nothing-IsNotified table distinct net.store
    after_update-Told packet ip (ok (u', net')) u net rest all updated tells =
        let p = Packet.set_connection packet (find ip u'.connections) in
        let all' = Keeps-AllOpen table net.store net'.store updated.0 all in
        let (r, later, u'', net'') =
          UdpInterface.forward timeout lib send_on packet ip u' net' rest in
        IsNotified-again table distinct net.store [] net'.store later net''.store updated (
          after_pool-Told u' net' (ConnectionPool.send send_on (some p) net'.pool net'.store) rest
            all' (send-IsNotified send_on p table net'.pool net'.store (law p) distinct all') tells)

    from_source-Told :
        (now : ℕ) (packet : Packet) (ip : IpAddress) (r : Result MavAddress) (u : UdpInterface)
        (net : Network) (rest : UdpInterface → Network → UdpInterface.Received)
        → AllOpen table net.store
        → Tells rest
        → Told net (UdpInterface.from_source timeout lib send_on now packet ip r u net rest)
    from_source-Told now packet ip (err e) u net rest all tells =
        nothing-IsNotified table distinct net.store
    from_source-Told now packet ip (ok source) u net rest all tells =
        after_update-Told packet ip _ u net rest all
          (update_connections-Updated table distinct timeout now source ip u net all) tells

    after_byte-Told :
        (now : ℕ) (ip : IpAddress) (r : Result (Option Packet) × PacketParser) (u : UdpInterface)
        (net : Network) (rest : UdpInterface → Network → UdpInterface.Received)
        → AllOpen table net.store
        → Tells rest
        → Told net (UdpInterface.after_byte timeout lib send_on now ip r u net rest)
    after_byte-Told now ip (ok none, p) u net rest all tells =
        tells (record u { parser = p }) net all
    after_byte-Told now ip (ok (some packet), p) u net rest all tells =
        from_source-Told now packet ip (Packet.source packet) (record u { parser = p }) net rest all
          tells
    after_byte-Told now ip (err e, p) u net rest all tells =
        nothing-IsNotified table distinct net.store

    parse_bytes-Told :
        (now : ℕ → ℕ) (ip : IpAddress) (bytes : Bytes)
        → Tells (UdpInterface.parse_bytes timeout lib send_on now ip bytes)
    unfolding UdpInterface.parse_bytes
    parse_bytes-Told now ip [] u net all = nothing-IsNotified table distinct net.store
    parse_bytes-Told now ip (byte ∷ bytes) u net all =
        after_byte-Told (now (length bytes)) ip (parse_byte lib u.parser byte) u net _ all
          (parse_bytes-Told now ip bytes)

    pub udp-Told :
        (now : ℕ → ℕ) (d : Bytes × IpAddress)
        → Tells (UdpInterface.receive_packet timeout lib send_on now d)
    unfolding UdpInterface.receive_packet
    udp-Told now ([], ip) u net all = nothing-IsNotified table distinct net.store
    udp-Told now (byte ∷ bytes, ip) u net all =
        parse_bytes-Told now ip (byte ∷ bytes) (UdpInterface.turn_to timeout lib send_on now ip u)
          net all
