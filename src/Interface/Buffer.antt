-- ===== src/Interface/Buffer.antt =====
-- The packets of a UDP interface while a serial interface receives a buffer.
use mavtables.Prelude.{ℕ, refl, Option, none, some, List, [], ◌∷◌, Bytes, length}
use mavtables.Prelude.Exception.{Result, ok, err}
use mavtables.Mavlink.{Library}
use mavtables.MavAddress.{MavAddress}
use mavtables.Packet
use mavtables.Packet.{Packet}
use mavtables.PacketParser.{PacketParser, parse_byte}
use mavtables.Connection.{Connection, Sent}
use mavtables.ConnectionPool
use mavtables.ConnectionPool.{ConnectionPool, Store, Heard, lock}
use mavtables.UdpInterface.{Network, Table, see}
use mavtables.UdpInterface.Queued.{Distinct, AllOpen, Keeps-AllOpen}
use mavtables.UdpInterface.Notified.{IsAccounted, IsNotified, send-IsNotified}
use mavtables.SerialInterface
use mavtables.Interface.Updates.{nothing-IsNotified, IsNotified-again, seen-IsNotified}

module _ (table : Table) (distinct : Distinct table) where
  module _ (lib : Library) (send_on : Packet → Connection → Sent) (connection : ℕ)
      (law : (packet : Packet) (c : Connection) → IsAccounted c.queue (send_on packet c)) where
    abbrev Heeded : Network → SerialInterface.Received → Type 0
    Heeded net (r, heard, p, net') = IsNotified table net.store heard net'.store

    abbrev Heeds : (PacketParser → Network → SerialInterface.Received) → Type 0
    Heeds rest =
        (p : PacketParser) (net : Network) → AllOpen table net.store → Heeded net (rest p net)

    sent-Heeded :
        (p : PacketParser) (net : Network)
        (q : Result (Unit {0}) × List Heard × ConnectionPool × Store)
        (rest : PacketParser → Network → SerialInterface.Received)
        → AllOpen table net.store
        → IsNotified table net.store q.1 q.3
        → Heeds rest
        → Heeded net (SerialInterface.after_pool lib send_on connection p q rest)
    sent-Heeded p net (ok v, heard, pool, store) rest all sent heeds =
        let (r, later, p', net') = rest p (record { pool = pool; store = store }) in
        IsNotified-again table distinct net.store heard store later net'.store sent (
          heeds p (record { pool = pool; store = store })
            (Keeps-AllOpen table net.store store sent.0 all))
    sent-Heeded p net (err e, heard, pool, store) rest all sent heeds = sent

    source-Heeded :
        (now : ℕ) (packet : Packet) (r : Result MavAddress) (p : PacketParser) (net : Network)
        (rest : PacketParser → Network → SerialInterface.Received)
        → AllOpen table net.store
        → Heeds rest
        → Heeded net (SerialInterface.from_source lib send_on connection now packet r p net rest)
    source-Heeded now packet (err e) p net rest all heeds =
        nothing-IsNotified table distinct net.store
    source-Heeded now packet (ok source) p net rest all heeds =
        let marked = Packet.set_connection packet (some connection) in
        let net' = see now source connection net in
        let saw =
          seen-IsNotified table distinct now source connection (lock net.store connection) net.store
            refl all in
        let all' = Keeps-AllOpen table net.store net'.store saw.0 all in
        let q = ConnectionPool.send send_on (some marked) net'.pool net'.store in
        let (r, later, p', net'') = SerialInterface.after_pool lib send_on connection p q rest in
        IsNotified-again table distinct net.store [] net'.store later net''.store saw (
          sent-Heeded p net' q rest all'
            (send-IsNotified send_on marked table net'.pool net'.store (law marked) distinct all')
            heeds)

    byte-Heeded :
        (now : ℕ) (r : Result (Option Packet) × PacketParser) (net : Network)
        (rest : PacketParser → Network → SerialInterface.Received)
        → AllOpen table net.store
        → Heeds rest
        → Heeded net (SerialInterface.after_byte lib send_on connection now r net rest)
    byte-Heeded now (ok none, p) net rest all heeds = heeds p net all
    byte-Heeded now (ok (some packet), p) net rest all heeds =
        source-Heeded now packet (Packet.source packet) p net rest all heeds
    byte-Heeded now (err e, p) net rest all heeds = nothing-IsNotified table distinct net.store

    pub serial-Heeded :
        (now : ℕ → ℕ) (bytes : Bytes)
        → Heeds (SerialInterface.parse_bytes lib send_on connection now bytes)
    unfolding SerialInterface.parse_bytes
    serial-Heeded now [] p net all = nothing-IsNotified table distinct net.store
    serial-Heeded now (byte ∷ bytes) p net all =
        byte-Heeded (now (length bytes)) (parse_byte lib p byte) net _ all (serial-Heeded now bytes)
