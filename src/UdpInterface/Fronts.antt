-- ===== src/UdpInterface/Fronts.antt =====
-- The packets that the connections of an interface would send next.
use mavtables.Prelude.{
  ℕ, ◌+◌, ◌-◌, ◌≤◌, ◌≡◌, refl, Bool, true, false, Option, none, some, List, [], ◌∷◌, ltb, arith,
  Bool-cases, inl, inr,
}
use mavtables.IpAddress.{IpAddress}
use mavtables.Packet.{Packet}
use mavtables.Semaphore
use mavtables.ConnectionPool.{Store, lock}
use mavtables.ConnectionFactory.{ConnectionFactory, wait_for_packet}
use mavtables.UdpInterface.{Table, owns, Datagram, decrement_if}
use mavtables.UdpInterface.Queued.{front, Elsewhere}

-- The packet that each connection would send, in the order of the map.
abbrev pub front_to : IpAddress → Option Packet → List Datagram → List Datagram
front_to ip none rest = rest
front_to ip (some packet) rest = (packet.bytes, ip) ∷ rest

unfoldable pub fronts : Table → Store → List Datagram
fronts [] store = []
fronts ((ip, i) ∷ table) store = front_to ip (front (lock store i)) (fronts table store)

pub Elsewhere-fronts :
    (table : Table) (i : ℕ) (store store' : Store)
    → Elsewhere i store store'
    → owns table i ≡ false
    → fronts table store' ≡ fronts table store
unfolding fronts owns
Elsewhere-fronts [] i store store' other h = refl
Elsewhere-fronts ((ip, j) ∷ table) i store store' other h =
    let same : lock store' j ≡ lock store j = other j (ground arith) in
    rw (same, Elsewhere-fronts table i store store' other (ground arith)) refl

pub decrement_if-value :
    (f : ConnectionFactory) → (decrement_if true f).semaphore.value ≡ f.semaphore.value - 1
unfolding wait_for_packet Semaphore.wait_for
decrement_if-value f = elim (Bool-cases (ltb 0 f.semaphore.value)) [
  | inl more ↦ rw (more, decrement_if) refl
  | inr none_left ↦ rw (none_left, decrement_if) (ground arith)
]

-- The permits that the loop leaves for `n` packets: the first packet is paid by the wait before.
abbrev pub Paid : Bool → ℕ → ConnectionFactory → Type 0
Paid false n f = n ≤ f.semaphore.value + 1
Paid true n f = n ≤ f.semaphore.value
