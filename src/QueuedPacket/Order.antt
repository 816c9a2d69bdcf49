-- ===== src/QueuedPacket/Order.antt =====
-- The order of queued packets within a range of ticket numbers, and at the end of the range.
use mavtables.Prelude.{ℕ, ◌+◌, ◌%◌, ◌^◌, ◌≤◌, ◌<◌, ◌≡◌, true, false, not, ltb, arith}
use mavtables.Prelude.Int.{ltb_ℤ}
use mavtables.QueuedPacket.{QueuedPacket, minus, half, lt, gt}

-- The ticket of the `n`th packet that was pushed.
abbrev pub ticket : ℕ → ℕ
ticket n = n % 2 ^ 64

pub minus-newer :
    (n m : ℕ) → n ≤ m → m < n + 2 ^ 63 → ltb half (minus (ticket m) (ticket n)) ≡ false
unfolding minus
minus-newer n m order near = ground arith

pub minus-older : (n m : ℕ) → n < m → m < n + 2 ^ 63 → ltb half (minus (ticket n) (ticket m)) ≡ true
unfolding minus
minus-older n m order near = ground arith

-- For packets that were pushed as the `n`th and the `m`th, less than 2^63 apart, the one with the
-- higher priority is greater, and of two with the same priority the one that was pushed first, also
-- where the ticket numbers have wrapped around; and of the two, each is `>` the other exactly when
-- the other is `<` it.
pub lt-pushed :
    (x y : QueuedPacket) (n m : ℕ)
    → x.ticket_number ≡ ticket n
    → y.ticket_number ≡ ticket m
    → n < m
    → m < n + 2 ^ 63
    → (lt x y ≡ ltb_ℤ x.priority y.priority)
      × (lt y x ≡ not (ltb_ℤ x.priority y.priority))
      × (gt y x ≡ lt x y)
      × (gt x y ≡ lt y x)
unfolding lt gt
lt-pushed x y n m hx hy order near =
    rw (hx, hy)
      (rw (lt, gt, minus-newer n m (omega arith) near, minus-older n m order near)
        (ground arith, ground arith, ground arith, ground arith))

-- At a distance of 2^63 each of two packets with the same priority is less than the other.
pub lt-antipodal :
    (x y : QueuedPacket) (n : ℕ)
    → x.ticket_number ≡ ticket n
    → y.ticket_number ≡ ticket (n + 2 ^ 63)
    → x.priority ≡ y.priority
    → (lt x y ≡ true) × (lt y x ≡ true)
unfolding lt minus
lt-antipodal x y n hx hy same = (ground arith, ground arith)
