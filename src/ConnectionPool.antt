-- ===== src/ConnectionPool.antt =====
-- src/ConnectionPool.hpp and src/ConnectionPool.cpp: the connections that every packet is sent on.
-- Connections stand in a store; a weak pointer is an index into it, in the order of the owners, and
-- what it points to may have been destroyed. `send_on` is `Connection::send` of the packet.
pub mod Each
use mavtables.Prelude.{
  ℕ, Bool, true, false, Option, none, some, List, [], ◌∷◌, ltb, ◌==◌, if◌then◌else◌, get_elem?, set,
}
use mavtables.Prelude.Exception.{Exception, Result, ok, err, invalid_argument}
use mavtables.Packet.{Packet}
use mavtables.PacketQueue.{Signal}
use mavtables.Connection.{Connection, Sent}

-- `none` for a connection that no longer exists.
abbrev pub Store : Type 0
Store = List (Option Connection)

pub record ConnectionPool : Type 0 where
  pub connections : List ℕ

-- `insert` of a set.
unfoldable pub insert : ℕ → List ℕ → List ℕ
insert connection [] = connection ∷ []
insert connection (c ∷ cs) =
    let rest = insert connection cs in
    if ltb connection c then connection ∷ c ∷ cs else if ltb c connection then c ∷ rest else c ∷ cs

unfoldable pub erase : ℕ → List ℕ → List ℕ
erase connection [] = []
erase connection (c ∷ cs) =
    let rest = erase connection cs in if c == connection then cs else c ∷ rest

unfoldable pub add : ℕ → ConnectionPool → ConnectionPool
unfolding insert
add connection pool = record pool { connections = insert connection pool.connections }

unfoldable pub remove : ℕ → ConnectionPool → ConnectionPool
unfolding erase
remove connection pool = record pool { connections = erase connection pool.connections }

-- `lock` of a weak pointer.
abbrev joined : Option (Option Connection) → Option Connection
joined none = none
joined (some c) = c

unfoldable pub lock : Store → ℕ → Option Connection
lock store connection = joined (get_elem? store connection)

-- A connection, and the signals of its queue.
abbrev pub Heard : Type 0
Heard = ℕ × List Signal

-- The signals, what is left of the set, and the store.
abbrev pub Swept : Type 0
Swept = Result (Unit {0}) × List Heard × List ℕ × Store

abbrev pub keep : ℕ → List Signal → Swept → Swept
keep connection signals (r, heard, kept, store) =
    (r, (connection, signals) ∷ heard, connection ∷ kept, store)

-- An exception of `Connection::send` leaves the loop.
abbrev pub after_send : ℕ → List ℕ → Sent → Store → (Store → Swept) → Swept
after_send connection cs (ok signals, c) store rest =
    keep connection signals (rest (set store connection (some c)))
after_send connection cs (err e, c) store rest =
    (err e, [], connection ∷ cs, set store connection (some c))

module _ (send_on : Packet → Connection → Sent) where
  abbrev pub visit : Packet → ℕ → List ℕ → Store → Option Connection → (Store → Swept) → Swept
  visit packet connection cs store none rest = rest store
  visit packet connection cs store (some c) rest =
      after_send connection cs (send_on packet c) store rest

  unfoldable pub sweep : Packet → List ℕ → Store → Swept
  unfolding lock
  sweep packet [] store = (ok tt, [], [], store)
  sweep packet (connection ∷ cs) store =
      visit packet connection cs store (lock store connection) (sweep packet cs)

  abbrev pub swept : Swept → Result (Unit {0}) × List Heard × ConnectionPool × Store
  swept (r, heard, kept, store) = (r, heard, record { connections = kept }, store)

  unfoldable pub send :
      Option Packet
      → ConnectionPool
      → Store
      → Result (Unit {0}) × List Heard × ConnectionPool × Store
  unfolding sweep
  send none pool store = (err invalid_argument, [], pool, store)
  send (some packet) pool store = swept (sweep packet pool.connections store)
