-- ===== src/SerialInterface/Deliver.antt =====
-- Receiving on a serial port: parsing while sending is parsing and then sending.
use mavtables.Prelude.{ℕ, ◌≡◌, refl, ap, ◌∙◌, Option, none, some, List, [], ◌∷◌, ◌++◌, Bytes}
use mavtables.Prelude.Exception.{Result, ok, err}
use mavtables.Mavlink.{Library}
use mavtables.MavAddress.{MavAddress}
use mavtables.Packet
use mavtables.Packet.{Packet}
use mavtables.PacketParser.{PacketParser, parse_byte, feed, keep, continue_with}
use mavtables.Connection.{Connection, Sent}
use mavtables.ConnectionPool
use mavtables.ConnectionPool.{ConnectionPool, Store, Heard}
use mavtables.UdpInterface.{Network, see}
use mavtables.SerialInterface.{
  SerialInterface, Received, after_pool, from_source, after_byte, parse_bytes, receive_packet,
}

-- What a call has thrown, signalled and done to the network.
abbrev pub Outcome : Type 0
Outcome = Result (Unit {0}) × List Heard × Network

abbrev outcome : Received → Outcome
outcome (r, heard, p, net) = (r, heard, net)

abbrev heard_before : List Heard → Outcome → Outcome
heard_before heard (r, later, net) = (r, heard ++ later, net)

module _ (send_on : Packet → Connection → Sent) (connection : ℕ) (now : ℕ) where
  abbrev after_send :
      Result (Unit {0}) × List Heard × ConnectionPool × Store → (Network → Outcome) → Outcome
  after_send (ok v, heard, pool, store) rest =
      heard_before heard (rest (record { pool = pool; store = store }))
  after_send (err e, heard, pool, store) rest =
      (err e, heard, record { pool = pool; store = store })

  abbrev deliver_one : Packet → Result MavAddress → Network → (Network → Outcome) → Outcome
  deliver_one packet (err e) net rest = (err e, [], net)
  deliver_one packet (ok source) net rest =
      let seen = see now source connection net in
      after_send
        (ConnectionPool.send send_on (some (Packet.set_connection packet (some connection)))
          seen.pool seen.store)
        rest

  -- The packets one after another: each is seen and sent, up to an exception.
  unfoldable pub deliver : List Packet → Network → Outcome
  deliver [] net = (ok tt, [], net)
  deliver (packet ∷ packets) net = deliver_one packet (Packet.source packet) net (deliver packets)

  module _ (lib : Library) where
    -- What is done with the network is what delivering the parsed packets does.
    abbrev Delivers : (Network → Received) → Result (List Packet) × PacketParser → Type 0
    Delivers loop (err e, q) = Unit
    Delivers loop (ok packets, q) = (net : Network) → outcome (loop net) ≡ deliver packets net

    after_send-outcome :
        (p : PacketParser) (q : Result (Unit {0}) × List Heard × ConnectionPool × Store)
        (rest : PacketParser → Network → Received) (later : Network → Outcome)
        → ((net : Network) → outcome (rest p net) ≡ later net)
        → outcome (after_pool lib send_on connection p q rest) ≡ after_send q later
    after_send-outcome p (ok v, heard, pool, store) rest later h =
        ap (heard_before heard) (h (record { pool = pool; store = store }))
    after_send-outcome p (err e, heard, pool, store) rest later h = refl

    from_source-outcome :
        (packet : Packet) (r : Result MavAddress) (p : PacketParser) (net : Network)
        (rest : PacketParser → Network → Received) (later : Network → Outcome)
        → ((net : Network) → outcome (rest p net) ≡ later net)
        → outcome (from_source lib send_on connection now packet r p net rest)
          ≡ deliver_one packet r net later
    from_source-outcome packet (err e) p net rest later h = refl
    from_source-outcome packet (ok source) p net rest later h =
        after_send-outcome p
          (ConnectionPool.send send_on (some (Packet.set_connection packet (some connection)))
            (see now source connection net).pool (see now source connection net).store)
          rest later h

    after_packet :
        (packet : Packet) (q : PacketParser) (rest : PacketParser → Network → Received)
        (packets : Result (List Packet) × PacketParser)
        → Delivers (rest q) packets
        → Delivers
            (λ net. from_source lib send_on connection now packet (Packet.source packet) q net rest)
            (keep lib (some packet) packets)
    unfolding deliver
    after_packet packet q rest (err e, q') h = tt
    after_packet packet q rest (ok packets, q') h =
        λ net. from_source-outcome packet (Packet.source packet) q net rest (deliver packets) h

    after_byte-Delivers :
        (r : Result (Option Packet) × PacketParser) (rest : PacketParser → Network → Received)
        (others : PacketParser → Result (List Packet) × PacketParser)
        → Delivers (rest r.1) (others r.1)
        → Delivers
            (λ net. after_byte lib send_on connection now r net rest)
            (continue_with lib r others)
    after_byte-Delivers (err e, q) rest others h = tt
    after_byte-Delivers (ok none, q) rest others h = h
    after_byte-Delivers (ok (some packet), q) rest others h =
        after_packet packet q rest (others q) h

    parse_bytes-Delivers :
        (bytes : Bytes) (p : PacketParser)
        → Delivers (parse_bytes lib send_on connection (λ n. now) bytes p) (feed lib p bytes)
    unfolding parse_bytes feed deliver
    parse_bytes-Delivers [] p = λ net. refl
    parse_bytes-Delivers (byte ∷ bytes) p =
        after_byte-Delivers (parse_byte lib p byte)
          (parse_bytes lib send_on connection (λ n. now) bytes) (λ q. feed lib q bytes)
          (parse_bytes-Delivers bytes (parse_byte lib p byte).1)

    delivered :
        (buffer : Bytes) (p : PacketParser) (packets : List Packet)
        (f : Result (List Packet) × PacketParser)
        → f.0 ≡ ok packets
        → Delivers (parse_bytes lib send_on connection (λ n. now) buffer p) f
        → (net : Network)
        → outcome (parse_bytes lib send_on connection (λ n. now) buffer p net) ≡ deliver packets net
    delivered buffer p packets (err e, q) same h net = absurd (cc)
    delivered buffer p packets (ok others, q) same h net =
        h net ∙ ap (λ l. deliver (the l) net) same
      where
        the : Result (List Packet) → List Packet
        the (ok l) = l
        the (err e) = []

-- The packets that a buffer of the serial port completes are sent one after another, each with the
-- interface's connection as its source and after this connection has seen its address: what the
-- loop, which parses and sends in turn, throws, signals and does to the network is what sending
-- all of the parsed packets does. The addresses are seen at one time.
pub receive_packet-deliver :
    (send_on : Packet → Connection → Sent) (now : ℕ) (lib : Library) (buffer : Bytes)
    (s : SerialInterface) (net : Network) (packets : List Packet)
    → (feed lib s.parser buffer).0 ≡ ok packets
    → let (r, heard, s', net') = receive_packet lib send_on (λ n. now) buffer s net in
      (r, heard, net') ≡ deliver send_on s.connection now packets net
unfolding receive_packet
receive_packet-deliver send_on now lib buffer s net packets fed =
    delivered send_on s.connection now lib buffer s.parser packets (feed lib s.parser buffer) fed
      (parse_bytes-Delivers send_on s.connection now lib buffer s.parser) net
