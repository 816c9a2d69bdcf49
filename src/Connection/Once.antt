-- ===== src/Connection/Once.antt =====
-- A packet is queued once at most, and never on a connection that reaches its source.
use mavtables.Prelude.{
  ℕ, ◌≡◌, refl, ◌∙◌, Bool, true, false, ◌||◌, Option, none, some, List, [], ◌∷◌, ◌⊎◌, inl, inr,
  ◌==◌, Bool-cases,
}
use mavtables.Prelude.Int.{ℤ}
use mavtables.Prelude.Exception.{Result, ok, err}
use mavtables.Mavlink.{Library}
use mavtables.MavAddress.{MavAddress, system, component}
use mavtables.Packet
use mavtables.Packet.{Packet}
use mavtables.PacketQueue
use mavtables.PacketQueue.{PacketQueue, Signal}
use mavtables.AddressPool.{contains, addresses}
use mavtables.AddressPool.Members.{IsValid, member, contains-addresses}
use mavtables.Connection.{
  Connection, Sent, after_push, push_if, push_or, push_if_found, try_components, send_to_address,
  send_to_all, send_to_system, send_to, send_dest, send_unless, send_from, send,
}

abbrev pub signals_of : Result (List Signal) → List Signal
signals_of (ok signals) = signals
signals_of (err e) = []

-- The queue is as before and nothing was signalled, or one push of the packet has been made, whose
-- signals are passed on.
abbrev pub IsOnce : Packet → PacketQueue → Sent → Type 0
IsOnce packet before (r, c) =
    ((c.queue ≡ before) × (signals_of r ≡ []))
    ⊎ ((priority : ℤ) × (signals : List Signal) × (PacketQueue.push (some packet) priority before
          ≡ ok (c.queue, signals))
        × (r ≡ ok signals))

after_push-IsOnce :
    (packet : Packet) (priority : ℤ) (c : Connection) (r : Result (PacketQueue × List Signal))
    → PacketQueue.push (some packet) priority c.queue ≡ r
    → IsOnce packet c.queue (after_push c r)
after_push-IsOnce packet priority c (ok (queue, signals)) e = inr (priority, signals, e, refl)
after_push-IsOnce packet priority c (err x) e = inl (refl, refl)

push_if-IsOnce :
    (packet : Packet) (r : Result (Bool × ℤ)) (c : Connection)
    → IsOnce packet c.queue (push_if packet r c)
push_if-IsOnce packet (ok (true, priority)) c = after_push-IsOnce packet priority c _ refl
push_if-IsOnce packet (ok (false, priority)) c = inl (refl, refl)
push_if-IsOnce packet (err e) c = inl (refl, refl)

push_or-IsOnce :
    (judge : Packet → MavAddress → Result (Bool × ℤ)) (packet : Packet) (r : Result (Bool × ℤ))
    (c : Connection) (rest : Sent)
    → IsOnce packet c.queue rest
    → IsOnce packet c.queue (push_or judge packet r c rest)
push_or-IsOnce judge packet (ok (true, priority)) c rest h =
    after_push-IsOnce packet priority c _ refl
push_or-IsOnce judge packet (ok (false, priority)) c rest h = h
push_or-IsOnce judge packet (err e) c rest h = inl (refl, refl)

push_if_found-IsOnce :
    (judge : Packet → MavAddress → Result (Bool × ℤ)) (packet : Packet)
    (r : Result (Bool × Bool × ℤ)) (c : Connection)
    → IsOnce packet c.queue (push_if_found judge packet r c)
push_if_found-IsOnce judge packet (ok (true, accept, priority)) c =
    push_if-IsOnce packet (ok (accept, priority)) c
push_if_found-IsOnce judge packet (ok (false, accept, priority)) c = inl (refl, refl)
push_if_found-IsOnce judge packet (err e) c = inl (refl, refl)

module _ (judge : Packet → MavAddress → Result (Bool × ℤ)) where
  try_components-IsOnce :
      (packet : Packet) (dest : MavAddress) (all : List MavAddress) (c : Connection)
      → IsOnce packet c.queue (try_components judge packet dest all c)
  unfolding try_components
  try_components-IsOnce packet dest [] c = inl (refl, refl)
  try_components-IsOnce packet dest (a ∷ all) c = elim (Bool-cases (system a == system dest)) [
    | inl same ↦ rw same (
        push_or-IsOnce judge packet (judge packet dest) c _
          (try_components-IsOnce packet dest all c))
    | inr other ↦ rw other (try_components-IsOnce packet dest all c)
  ]

  send_to_address-IsOnce :
      (now later : ℕ) (packet : Packet) (dest : MavAddress) (c : Connection)
      → IsOnce packet c.queue (send_to_address judge now later packet dest c)
  unfolding send_to_address
  send_to_address-IsOnce now later packet dest c = elim (Bool-cases (contains now dest c.pool).0) [
    | inl found ↦ rw (found, send_to_address) (push_if-IsOnce packet (judge packet dest) _)
    | inr absent ↦ rw (absent, send_to_address) (try_components-IsOnce packet dest _ _)
  ]

  module _ (lib : Library) (clock : ℕ → ℕ) where
    send_to-IsOnce :
        (packet : Packet) (dest : Option MavAddress) (c : Connection)
        → IsOnce packet c.queue (send_to judge lib clock packet dest c)
    unfolding send_to send_to_all send_to_system
    send_to-IsOnce packet none c = push_if-IsOnce packet _ _
    send_to-IsOnce packet (some dest) c = elim (Bool-cases (dest.address == 0 || c.mirror)) [
      | inl broadcast ↦ rw (broadcast, send_to) (push_if-IsOnce packet _ _)
      | inr narrow ↦ elim (Bool-cases (component dest == 0)) [
        | inl whole ↦ rw (narrow, send_to, whole) (push_if_found-IsOnce judge packet _ _)
        | inr one ↦
            rw (narrow, send_to, one) (send_to_address-IsOnce (clock 1) (clock 2) packet dest c)
      ]
    ]

    send_dest-IsOnce :
        (r : Result (Option MavAddress)) (packet : Packet) (c : Connection)
        → IsOnce packet c.queue (send_dest judge lib clock r packet c)
    send_dest-IsOnce (ok dest) packet c = send_to-IsOnce packet dest c
    send_dest-IsOnce (err e) packet c = inl (refl, refl)

    send_unless-IsOnce :
        (found : Bool) (packet : Packet) (c : Connection)
        → IsOnce packet c.queue (send_unless judge lib clock found packet c)
    send_unless-IsOnce true packet c = inl (refl, refl)
    send_unless-IsOnce false packet c = send_dest-IsOnce (Packet.dest lib packet) packet c

    send_from-IsOnce :
        (r : Result MavAddress) (packet : Packet) (c : Connection)
        → IsOnce packet c.queue (send_from judge lib clock r packet c)
    send_from-IsOnce (ok source) packet c = send_unless-IsOnce _ packet _
    send_from-IsOnce (err e) packet c = inl (refl, refl)

    -- Sending a packet on a connection queues this packet once, and passes on what the push signals,
    -- or leaves the queue as it was and signals nothing, whatever its destination and the filter are,
    -- and also if an exception is thrown.
    pub send-IsOnce :
        (packet : Packet) (c : Connection)
        → IsOnce packet c.queue (send judge lib clock (some packet) c)
    unfolding send
    send-IsOnce packet c = send_from-IsOnce (Packet.source packet) packet c

    -- Where the connection reaches the source of the packet, nothing is queued and nothing thrown.
    pub send-no_echo :
        (packet : Packet) (c : Connection) (source : MavAddress)
        → Packet.source packet ≡ ok source
        → member source (addresses (clock 0) c.pool).0 ≡ true
        → IsValid c.pool
        → ((send judge lib clock (some packet) c).0 ≡ ok [])
          × ((send judge lib clock (some packet) c).1.queue ≡ c.queue)
    unfolding send
    send-no_echo packet c source e reached valid =
        rw (e, contains-addresses (clock 0) source c.pool valid ∙ reached) (refl, refl)
