-- ===== src/ConfigParser/Ready.antt =====
-- What an interface needs to run, while others are added to the application.
use mavtables.Prelude.{
  ℕ, suc, ◌≤◌, ◌≡◌, sym, subst, true, some, List, [], ◌∷◌, ◌++◌, All, ltb, arith, length,
  Bool-cases, inl, inr,
}
use mavtables.Connection.{Connection}
use mavtables.ConnectionPool
use mavtables.ConnectionPool.{ConnectionPool, Store, lock, insert}
use mavtables.ConnectionPool.Each.{Ascending, member}
use mavtables.UdpInterface
use mavtables.UdpInterface.{UdpInterface, Network}
use mavtables.UdpInterface.Queued.{queued}
use mavtables.UdpInterface.Fresh.{lock-append}
use mavtables.UdpInterface.Permits as Permits
use mavtables.ConfigParser.Interfaces.{Interface, udp, serial}

pub insert-Ascending :
    (low i : ℕ) (cs : List ℕ) → low ≤ i → Ascending low cs → Ascending low (insert i cs)
unfolding insert
insert-Ascending low i [] le h = (le, tt)
insert-Ascending low i (c ∷ cs) le (first, rest) = elim (Bool-cases (ltb i c)) [
  | inl below ↦ rw below (le, (ground arith, rest))
  | inr not_below ↦ elim (Bool-cases (ltb c i)) [
    | inl above ↦ rw (not_below, above) (first, insert-Ascending (suc c) i cs (ground arith) rest)
    | inr equal ↦ rw (not_below, equal) (first, rest)
  ]
]

pub insert-member : (i : ℕ) (cs : List ℕ) → member i (insert i cs) ≡ true
unfolding insert member
insert-member i [] = ground arith
insert-member i (c ∷ cs) = elim (Bool-cases (ltb i c)) [
  | inl below ↦ rw below (ground arith)
  | inr not_below ↦ elim (Bool-cases (ltb c i)) [
    | inl above ↦ rw (not_below, above) (ground (arith, insert-member i cs))
    | inr equal ↦ rw (not_below, equal) (ground arith)
  ]
]

insert-keeps : (i j : ℕ) (cs : List ℕ) → member j cs ≡ true → member j (insert i cs) ≡ true
unfolding insert member
insert-keeps i j [] h = absurd (cc)
insert-keeps i j (c ∷ cs) h = elim (Bool-cases (ltb i c)) [
  | inl below ↦ rw below (ground arith)
  | inr not_below ↦ elim (Bool-cases (ltb c i)) [
    | inl above ↦ rw (not_below, above) (ground (arith, insert-keeps i j cs))
    | inr equal ↦ rw (not_below, equal) h
  ]
]

-- A UDP interface satisfies its invariant; the connection of a serial interface exists, is not closed,
-- and is in the pool.
abbrev pub Started : Network → Interface → Type 0
Started net (udp u) = Permits.IsValid u net
Started net (serial s) =
    (c : Connection) × (lock net.store s.connection ≡ some c)
    × (c.queue.running ≡ true)
    × (member s.connection net.pool.connections ≡ true)

-- A UDP interface that has no connection yet.
abbrev pub IsFresh : UdpInterface → Type 0
IsFresh u = u.connections ≡ []

fresh-Started : (u : UdpInterface) (net : Network) → IsFresh u → Started net (udp u)
unfolding queued
fresh-Started u net fresh =
    subst
      (λ table.
        UdpInterface.Queued.Distinct table
        × UdpInterface.Queued.AllOpen table net.store
        × (queued table net.store ≤ u.factory.semaphore.value))
      (sym fresh) (tt, tt, omega arith)

-- What the interfaces need while others are added: UDP interfaces are fresh.
abbrev pub Ready : Network → Interface → Type 0
Ready net (udp u) = IsFresh u
Ready net (serial s) = Started net (serial s)

pub Ready-Started : (net : Network) (l : List Interface) → All (Ready net) l → All (Started net) l
Ready-Started net [] all = tt
Ready-Started net (udp u ∷ l) (first, all) = (fresh-Started u net first, Ready-Started net l all)
Ready-Started net (serial s ∷ l) (first, all) = (first, Ready-Started net l all)

-- Another connection in the store and the pool.
abbrev pub more : Connection → Network → Network
more c net = record {
  pool = ConnectionPool.add (length net.store) net.pool;
  store = net.store ++ some c ∷ [];
}

pub more-Ready :
    (c : Connection) (net : Network) (l : List Interface)
    → All (Ready net) l
    → All (Ready (more c net)) l
unfolding ConnectionPool.add
more-Ready c net [] all = tt
more-Ready c net (udp u ∷ l) (first, all) = (first, more-Ready c net l all)
more-Ready c net (serial s ∷ l) ((d, there, runs, known), all) = (
  (
    d,
    lock-append net.store s.connection d c there,
    runs,
    insert-keeps (length net.store) s.connection net.pool.connections known,
  ),
  more-Ready c net l all,
)
