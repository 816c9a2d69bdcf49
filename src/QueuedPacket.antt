-- ===== src/QueuedPacket.antt =====
-- src/QueuedPacket.hpp and src/QueuedPacket.cpp: a packet with a priority and a ticket number, which
-- wraps around at 64 bits.
pub mod Order
use mavtables.Prelude.{
  ℕ, ◌+◌, ◌-◌, ◌/◌, ◌%◌, ◌^◌, Bool, true, false, not, ◌&&◌, ◌||◌, Option, none, some, ◌++◌, Bytes,
  codes, ltb, ◌==◌,
}
use mavtables.Prelude.Int.{ℤ, ltb_ℤ, eq_ℤ}
use mavtables.Prelude.Exception.{Result, ok, err, invalid_argument, ◌>>=◌}
use mavtables.Text.{print_int}
use mavtables.Mavlink.{Library}
use mavtables.Packet
use mavtables.Packet.{Packet}

pub record QueuedPacket : Type 0 where
  pub packet : Packet
  pub priority : ℤ
  pub ticket_number : ℕ

unfoldable pub make : Option Packet → ℤ → ℕ → Result QueuedPacket
make none priority ticket_number = err invalid_argument
make (some packet) priority ticket_number =
    ok (record { packet = packet; priority = priority; ticket_number = ticket_number })

-- `a - b` of two `unsigned long long`.
unfoldable pub minus : ℕ → ℕ → ℕ
minus a b = (a + (2 ^ 64 - b)) % 2 ^ 64

-- `std::numeric_limits<unsigned long long>::max() / 2`
abbrev pub half : ℕ
half = 9223372036854775807

unfoldable pub eq : QueuedPacket → QueuedPacket → Bool
eq lhs rhs = eq_ℤ lhs.priority rhs.priority && (lhs.ticket_number == rhs.ticket_number)

unfoldable pub ne : QueuedPacket → QueuedPacket → Bool
ne lhs rhs = not (eq_ℤ lhs.priority rhs.priority) || not (lhs.ticket_number == rhs.ticket_number)

unfoldable pub lt : QueuedPacket → QueuedPacket → Bool
unfolding minus
lt lhs rhs =
    ltb_ℤ lhs.priority rhs.priority
    || (eq_ℤ lhs.priority rhs.priority && ltb half (minus rhs.ticket_number lhs.ticket_number))

unfoldable pub gt : QueuedPacket → QueuedPacket → Bool
unfolding minus
gt lhs rhs =
    ltb_ℤ rhs.priority lhs.priority
    || (eq_ℤ lhs.priority rhs.priority && ltb half (minus lhs.ticket_number rhs.ticket_number))

unfoldable pub le : QueuedPacket → QueuedPacket → Bool
unfolding eq lt
le lhs rhs = eq lhs rhs || lt lhs rhs

unfoldable pub ge : QueuedPacket → QueuedPacket → Bool
unfolding eq gt
ge lhs rhs = eq lhs rhs || gt lhs rhs

unfoldable pub print : Library → QueuedPacket → Result Bytes
print lib q = do
  text ← Packet.print lib q.packet
  ok (text ++ (codes " with priority " ++ print_int q.priority))
