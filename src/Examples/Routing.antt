-- ===== src/Examples/Routing.antt =====
-- A connection that reaches two components of a ground station, and its queue.
use mavtables.Prelude.{
  ◌+◌, ◌*◌, ◌≡◌, refl, Bool, true, false, some, List, [], ◌∷◌, ◌++◌, codes, arith, ◌==◌,
}
use mavtables.Prelude.Int.{ℤ, pos, negsuc}
use mavtables.Prelude.Exception.{Result, ok}
use mavtables.MavAddress
use mavtables.MavAddress.{MavAddress, construct, system}
use mavtables.Packet.{Packet}
use mavtables.QueuedPacket.{QueuedPacket, lt, gt}
use mavtables.QueuedPacket.Order.{lt-pushed}
use mavtables.PacketQueue
use mavtables.PacketQueue.{PacketQueue, Signal, get_packet}
use mavtables.PacketQueue.Order as QueueOrder
use mavtables.PacketQueue.Order.{IsNext, get_packet-IsNext, push-IsValid}
use mavtables.AddressPool.{AddressPool, add, addresses, contains}
use mavtables.AddressPool.Members as PoolMembers
use mavtables.AddressPool.Members.{member, contains-addresses, contains-add, pool-IsValid}
use mavtables.Connection.{Connection, send, send_to_all, send_to_system, send_to_address}
use mavtables.Connection.Once.{IsOnce, send-IsOnce}
use mavtables.Connection.Best.{Judges, IsBest, of_system}
use mavtables.Connection.Targets.{
  reached, send_to_all-IsBest, send_to_system-IsBest, send_to_address-IsBest,
}
use mavtables.Examples.Packets.{messages, heartbeat}

-- The last ticket before the numbers wrap around, and the first behind it.
abbrev pub last_ticket : QueuedPacket
last_ticket = record { packet = heartbeat; priority = pos 1; ticket_number = 18446744073709551615 }

abbrev pub first_ticket : QueuedPacket
first_ticket = record { packet = heartbeat; priority = pos 1; ticket_number = 0 }

lt-pushed_example :
    (lt last_ticket first_ticket ≡ false)
    × (lt first_ticket last_ticket ≡ true)
    × (gt first_ticket last_ticket ≡ lt last_ticket first_ticket)
    × (gt last_ticket first_ticket ≡ lt first_ticket last_ticket)
lt-pushed_example =
    lt-pushed last_ticket first_ticket 18446744073709551615 18446744073709551616 refl refl
      (omega arith) (omega arith)

abbrev pub queue : PacketQueue
queue = record {
  has_callback = true;
  ticket = 1;
  running = true;
  queue = last_ticket ∷ first_ticket ∷ [];
}

queue-Numbered :
    QueueOrder.Numbered 18446744073709551615 (last_ticket ∷ first_ticket ∷ []) 18446744073709551617
queue-Numbered = (
  18446744073709551615,
  omega arith,
  refl,
  (18446744073709551616, omega arith, refl, omega arith),
)

get_packet-IsNext_example :
    (y : QueuedPacket) × (rest : List QueuedPacket) × (get_packet queue
      ≡ (some y.packet, record queue { queue = rest }))
    × IsNext (last_ticket ∷ first_ticket ∷ []) y rest
    × QueueOrder.IsValid (record queue { queue = rest })
get_packet-IsNext_example =
    get_packet-IsNext queue
      (18446744073709551615, 18446744073709551617, refl, queue-Numbered, omega arith) refl (λ e. cc)

push-IsValid_example :
    (q' : PacketQueue) × (signals : List Signal) × (PacketQueue.push
        (some heartbeat)
        (negsuc 0)
        queue
      ≡ ok (q', signals))
    × (q'.queue
        ≡ (last_ticket ∷ first_ticket ∷ [])
          ++ record { packet = heartbeat; priority = negsuc 0; ticket_number = 1 } ∷ [])
    × (q'.running ≡ true)
    × QueueOrder.IsValid q'
push-IsValid_example =
    push-IsValid queue heartbeat (negsuc 0) 18446744073709551615 18446744073709551617 refl
      queue-Numbered (omega arith)

-- 127.1, which is the source of the heartbeat, and 192.168
abbrev pub autopilot : MavAddress
autopilot = record { address = 127 * 256 + 1 }

abbrev pub ground_station : MavAddress
ground_station = record { address = 192 * 256 + 168 }

abbrev pub pool : AddressPool
pool = record { entries = (autopilot, 3) ∷ (ground_station, 9) ∷ []; timeout = 5 }

two_addresses-IsValid : PoolMembers.IsValid pool
two_addresses-IsValid = (omega arith, (omega arith, tt))

contains-addresses_example : (contains 10 autopilot pool).0 ≡ member autopilot (addresses 10 pool).0
contains-addresses_example = contains-addresses 10 autopilot pool two_addresses-IsValid

contains-add_example :
    ((contains 12 autopilot (add 10 autopilot pool)).0 ≡ true)
    × ((contains 12 ground_station (add 10 autopilot pool)).0 ≡ (contains 12 ground_station pool).0)
contains-add_example =
    contains-add 10 12 autopilot ground_station pool two_addresses-IsValid (omega arith)
      (unfold MavAddress.eq in refl)

abbrev pub connection : Connection
connection = record { name = codes "127.0.0.1:14500"; mirror = false; pool = pool; queue = queue }

-- A filter that accepts what goes to the ground station, with priority 4.
abbrev pub judge : Packet → MavAddress → Result (Bool × ℤ)
judge packet a = ok (system a == 192, pos 4)

abbrev pub judges : Judges heartbeat judge
judges = record {
  verdict = λ a. (system a == 192, pos 4);
  returns = λ a. refl;
  in_range = λ a. omega arith;
}

send-IsOnce_example :
    IsOnce heartbeat queue (send judge messages (λ i. 7 + i) (some heartbeat) connection)
send-IsOnce_example = send-IsOnce judge messages (λ i. 7 + i) heartbeat connection

send_to_all-IsBest_example :
    IsBest judges.verdict
      (addresses 8 pool).0
      heartbeat
      (record connection { pool = (addresses 8 pool).1 })
      (send_to_all judge 8 heartbeat connection)
send_to_all-IsBest_example = send_to_all-IsBest heartbeat judges 8 connection

send_to_system-IsBest_example :
    IsBest judges.verdict
      (of_system 192 (addresses 8 pool).0)
      heartbeat
      (record connection { pool = (addresses 8 pool).1 })
      (send_to_system judge 8 heartbeat 192 connection)
send_to_system-IsBest_example = send_to_system-IsBest heartbeat judges 8 192 connection

send_to_address-IsBest_example :
    (c' : Connection) × (c'.queue ≡ queue)
    × IsBest judges.verdict
        (reached 8 9 ground_station connection)
        heartbeat
        c'
        (send_to_address judge 8 9 heartbeat ground_station connection)
send_to_address-IsBest_example =
    send_to_address-IsBest heartbeat judges 8 9 ground_station connection
