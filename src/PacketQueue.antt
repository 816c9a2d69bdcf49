-- ===== src/PacketQueue.antt =====
-- src/PacketQueue.hpp and src/PacketQueue.cpp: the priority queue of a connection. Each operation
-- runs under the queue's mutex, so it is one step on the state.
pub mod Order
use mavtables.Prelude.{
  ℕ, zero, suc, ◌+◌, ◌%◌, ◌^◌, Bool, true, false, not, ◌&&◌, ◌||◌, Option, none, some, List, [],
  ◌∷◌, ◌++◌, if◌then◌else◌,
}
use mavtables.Prelude.Int.{ℤ, pos, ltb_ℤ}
use mavtables.Prelude.Exception.{Result, ok, err, invalid_argument, ◌>>=◌}
use mavtables.Packet.{Packet}
use mavtables.QueuedPacket
use mavtables.QueuedPacket.{QueuedPacket, lt}

-- `queue` has the elements of the `std::priority_queue`, the one that was pushed last at the end.
pub record PacketQueue : Type 0 where
  pub has_callback : Bool
  pub ticket : ℕ
  pub running : Bool
  pub queue : List QueuedPacket

-- What an operation tells other threads and its owner, in order.
pub data Signal : Type 0 where
  notify_one notify_all callback : Signal

unfoldable pub make : Bool → PacketQueue
make has_callback = record { has_callback = has_callback; ticket = 0; running = true; queue = [] }

unfoldable pub close : PacketQueue → PacketQueue × List Signal
close q = (record q { running = false }, notify_all ∷ [])

abbrev is_empty : List QueuedPacket → Bool
is_empty [] = true
is_empty (x ∷ xs) = false

unfoldable pub empty : PacketQueue → Bool
empty q = is_empty q.queue

-- `top` and `pop` of a `std::priority_queue`: an element that is less than no other one, and the rest.
abbrev pub greater_first :
    QueuedPacket
    → List QueuedPacket
    → Option (QueuedPacket × List QueuedPacket)
    → Option (QueuedPacket × List QueuedPacket)
greater_first x xs none = some (x, xs)
greater_first x xs (some (y, rest)) = if lt x y then some (y, x ∷ rest) else some (x, xs)

unfoldable pub take_top : List QueuedPacket → Option (QueuedPacket × List QueuedPacket)
take_top [] = none
take_top (x ∷ xs) = greater_first x xs (take_top xs)

abbrev pub got :
    PacketQueue → Option (QueuedPacket × List QueuedPacket) → Option Packet × PacketQueue
got q none = (none, q)
got q (some (x, rest)) = (some x.packet, record q { queue = rest })

unfoldable pub get_packet : PacketQueue → Option Packet × PacketQueue
unfolding take_top
get_packet q = if q.running then got q (take_top q.queue) else (none, q)

-- The predicate of the condition variable.
unfoldable pub ready : PacketQueue → Bool
unfolding empty
ready q = not q.running || not (empty q)

-- `pop()`, and `none` while it waits.
unfoldable pub pop : PacketQueue → Option (Option Packet × PacketQueue)
unfolding ready get_packet
pop q = if ready q then some (get_packet q) else none

-- `pop(timeout)`, with whether the timeout has expired yet.
unfoldable pub pop_timeout : ℤ → Bool → PacketQueue → Option (Option Packet × PacketQueue)
unfolding ready get_packet
pop_timeout timeout expired q =
    if ltb_ℤ (pos 0) timeout
    then (if ready q || expired then some (get_packet q) else none)
    else some (get_packet q)

abbrev call_back : Bool → List Signal
call_back false = []
call_back true = callback ∷ []

-- `ticket_++` wraps around at 64 bits.
unfoldable pub push : Option Packet → ℤ → PacketQueue → Result (PacketQueue × List Signal)
push none priority q = err invalid_argument
push (some packet) priority q = do
  x ← QueuedPacket.make (some packet) priority q.ticket
  ok (
    record q { ticket = (q.ticket + 1) % 2 ^ 64; queue = q.queue ++ x ∷ [] },
    notify_one ∷ call_back q.has_callback,
  )
