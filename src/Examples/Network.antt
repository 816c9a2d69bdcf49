-- ===== src/Examples/Network.antt =====
-- A pool of three connections, one of which no longer exists.
use mavtables.Prelude.{
  ℕ, ◌+◌, ◌*◌, ◌≡◌, refl, ap, Bool-cases, inl, inr, none, some, List, [], ◌∷◌, arith,
}
use mavtables.Prelude.Exception.{ok}
use mavtables.MavAddress.{construct}
use mavtables.Packet
use mavtables.Packet.{Packet}
use mavtables.PacketV1
use mavtables.PacketQueue
use mavtables.PacketQueue.{Signal}
use mavtables.QueuedPacket
use mavtables.AddressPool.{contains}
use mavtables.Connection
use mavtables.Connection.{Connection, Sent, send_to, send_to_all}
use mavtables.Connection.Targets.{send_to_all-IsBest}
use mavtables.ConnectionPool.{ConnectionPool, Store, send}
use mavtables.ConnectionPool.Each.{IsSent, send-IsSent}
use mavtables.Examples.Packets.{messages, heartbeat}
use mavtables.Examples.Routing.{connection, judge, judges}

abbrev clock : ℕ → ℕ
clock i = 7 + i

abbrev send_on : Packet → Connection → Sent
send_on packet c = Connection.send judge messages clock (some packet) c

heartbeat_source : Packet.source heartbeat ≡ ok (record { address = 127 * 256 + 1 })
unfolding Packet.source Packet.source_of PacketV1.source PacketV1.the_header PacketV1.header
    PacketV1.cast_header PacketV1.header_complete PacketV1.starts construct
heartbeat_source = refl

heartbeat_dest : Packet.dest messages heartbeat ≡ ok none
unfolding Packet.dest Packet.dest_of PacketV1.dest PacketV1.dest_system PacketV1.dest_component
    PacketV1.to_dest PacketV1.the_header PacketV1.header PacketV1.cast_header
    PacketV1.header_complete PacketV1.starts
heartbeat_dest = refl

returns_to_all :
    (now : ℕ) (c : Connection)
    → (signals : List Signal) × ((send_to_all judge now heartbeat c).0 ≡ ok signals)
unfolding PacketQueue.push QueuedPacket.make
returns_to_all now c = elim (send_to_all-IsBest heartbeat judges now c) [
  | inl (rejected, e) ↦ ([], ap (λ s. s.0) e)
  | inr (priority, high, reached, e) ↦ (_, ap (λ s. s.0) e)
]

returns : (c : Connection) → (signals : List Signal) × ((send_on heartbeat c).0 ≡ ok signals)
unfolding Connection.send send_to
returns c = elim (Bool-cases (contains 7 (record { address = 127 * 256 + 1 }) c.pool).0) [
  | inl found ↦ ([], rw (heartbeat_source, found))
  | inr absent ↦ rw (heartbeat_source, absent, heartbeat_dest) (returns_to_all 8 _)
]

abbrev store : Store
store = some connection ∷ none ∷ some connection ∷ []

abbrev network : ConnectionPool
network = record { connections = 1 ∷ 2 ∷ [] }

send-IsSent_example :
    let (r, heard, pool', store') = send send_on (some heartbeat) network store in
    IsSent send_on heartbeat (1 ∷ 2 ∷ []) store (r, heard, pool'.connections, store')
send-IsSent_example =
    send-IsSent send_on heartbeat network store (omega arith, (omega arith, tt)) returns
