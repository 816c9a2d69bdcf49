-- ===== src/Interface/Shrinks.antt =====
-- The queues of all connections while an interface sends: packets are only taken out.
use mavtables.Prelude.{
  ℕ, ◌≤◌, ◌≡◌, refl, sym, ap, ◌∙◌, subst, Bool, true, false, Option, none, some, List, [], ◌∷◌,
  ◌==◌, ==_iff, Bytes, set, length, arith, ◌||◌, if◌then◌else◌, Bool-cases, inl, inr,
}
use mavtables.Prelude.Exception.{Result, ok, err}
use mavtables.Prelude.Int.{ℤ, pos, ltb_ℤ}
use mavtables.IpAddress.{IpAddress}
use mavtables.Packet.{Packet}
use mavtables.QueuedPacket.{QueuedPacket}
use mavtables.PacketQueue
use mavtables.PacketQueue.{PacketQueue, take_top, got, get_packet, ready}
use mavtables.Connection
use mavtables.Connection.{Connection, next_packet}
use mavtables.ConnectionPool.{Store, lock}
use mavtables.ConnectionPool.Each.{lock-set_self, lock-set_other}
use mavtables.ConnectionFactory.{ConnectionFactory}
use mavtables.UdpInterface.{
  Table, Datagram, Drained, drain, after_pop, after_transmit, decrement_if, next_from,
}
use mavtables.UdpInterface.Queued.{queue_length, queued, Keeps, Top, take_top-Top}
use mavtables.UdpInterface.Notified.{set-Keeps_same}
use mavtables.SerialInterface

-- Connections stay open, and no queue grows.
abbrev pub Shrinks : Store → Store → Type 0
Shrinks store store' =
    Keeps store store' × ((j : ℕ) → queue_length (lock store' j) ≤ queue_length (lock store j))

pub same-Shrinks : (store : Store) → Shrinks store store
same-Shrinks store = (λ i h. h, λ j. omega arith)

Shrinks-again :
    (store store' store'' : Store)
    → Shrinks store store'
    → Shrinks store' store''
    → Shrinks store store''
Shrinks-again store store' store'' (keeps, less) (keeps', less') =
    (λ i h. keeps' i (keeps i h), λ j. (let l = less j in let l' = less' j in omega arith))

pub Shrinks-queued :
    (table : Table) (store store' : Store)
    → Shrinks store store'
    → queued table store' ≤ queued table store
unfolding queued
Shrinks-queued [] store store' shrinks = omega arith
Shrinks-queued ((ip, i) ∷ table) store store' shrinks =
    let l = shrinks.1 i in let rest = Shrinks-queued table store store' shrinks in omega arith

-- What `get_packet` leaves of a queue.
abbrev Left : PacketQueue → PacketQueue → Type 0
Left q q' =
    (q'.running ≡ q.running)
    × (q'.has_callback ≡ q.has_callback)
    × (length q'.queue ≤ length q.queue)

got-Left :
    (q : PacketQueue) (o : Option (QueuedPacket × List QueuedPacket))
    → Top q.queue o
    → Left q (got q o).1
got-Left q none n = (refl, refl, omega arith)
got-Left q (some (y, rest)) n = (refl, refl, omega arith)

get_packet-Left : (q : PacketQueue) → Left q (get_packet q).1
unfolding get_packet
get_packet-Left q = either q.running
  where
    either : (b : Bool) → Left q (if b then got q (take_top q.queue) else (none, q)).1
    either true = got-Left q (take_top q.queue) (take_top-Top q.queue)
    either false = (refl, refl, omega arith)

set-Shrinks :
    (store : Store) (i : ℕ) (c : Connection) (q : PacketQueue)
    → lock store i ≡ some c
    → Left c.queue q
    → Shrinks store (set store i (some (record c { queue = q })))
set-Shrinks store i c q there (runs, calls, less) = (
  set-Keeps_same store i c d there runs calls,
  λ j. elim (Bool-cases (i == j)) [
    | inl same ↦
        let ij : i ≡ j = (==_iff i j).0 same in
        let new : queue_length (lock (set store i (some d)) j) ≡ length q.queue =
          ap (λ k. queue_length (lock (set store i (some d)) k)) (sym ij)
          ∙ ap queue_length (lock-set_self store i c d there) in
        let old : queue_length (lock store j) ≡ length c.queue.queue =
          ap (λ k. queue_length (lock store k)) (sym ij) ∙ ap queue_length there in
        omega arith
    | inr other ↦
        let e : queue_length (lock (set store i (some d)) j) ≡ queue_length (lock store j) =
          ap queue_length (lock-set_other store i j d other) in
        omega arith
  ],
)
  where
    d : Connection
    d = record c { queue = q }

next_from-Shrinks :
    (i : ℕ) (store : Store) (o : Option Connection)
    → lock store i ≡ o
    → Shrinks store (next_from i store o).1
unfolding next_packet PacketQueue.pop_timeout
next_from-Shrinks i store none there = same-Shrinks store
next_from-Shrinks i store (some c) there =
    set-Shrinks store i c (get_packet c.queue).1 there (get_packet-Left c.queue)

module _ (transmit : Bytes → IpAddress → Result (Unit {0})) where
  transmit-Shrinks :
      (r : Result (Unit {0})) (d : Datagram) (not_first : Bool) (store : Store)
      (f : ConnectionFactory) (rest : Bool → Store → ConnectionFactory → Drained)
      → ((b : Bool) (s : Store) (g : ConnectionFactory) → Shrinks s (rest b s g).2)
      → Shrinks store (after_transmit transmit r d not_first store f rest).2
  transmit-Shrinks (ok v) d not_first store f rest h = h true store (decrement_if not_first f)
  transmit-Shrinks (err e) d not_first store f rest h = same-Shrinks store

  pop-Shrinks :
      (ip : IpAddress) (not_first : Bool) (p : Option Packet) (store : Store)
      (f : ConnectionFactory) (rest : Bool → Store → ConnectionFactory → Drained)
      → ((b : Bool) (s : Store) (g : ConnectionFactory) → Shrinks s (rest b s g).2)
      → Shrinks store (after_pop transmit ip not_first (p, store) f rest).2
  pop-Shrinks ip not_first none store f rest h = h not_first store f
  pop-Shrinks ip not_first (some packet) store f rest h =
      transmit-Shrinks (transmit packet.bytes ip) (packet.bytes, ip) not_first store f rest h

  pub drain-Shrinks :
      (table : Table) (not_first : Bool) (store : Store) (f : ConnectionFactory)
      → Shrinks store (drain transmit table not_first store f).2
  unfolding drain
  drain-Shrinks [] not_first store f = same-Shrinks store
  drain-Shrinks ((ip, i) ∷ table) not_first store f =
      let (p, store') = next_from i store (lock store i) in
      Shrinks-again store store' _ (next_from-Shrinks i store (lock store i) refl)
        (pop-Shrinks ip not_first p store' f (drain transmit table) (drain-Shrinks table))

-- The store after a call of `send_packet` of a serial interface that returns.
abbrev Wrote : Store → Option SerialInterface.Written → Type 0
Wrote store none = Unit
Wrote store (some w) = Shrinks store w.2

module _ (write : Bytes → Result (Unit {0})) where
  write-Shrinks :
      (r : Result (Unit {0})) (bytes : Bytes) (store store' : Store)
      → Shrinks store store'
      → Shrinks store (SerialInterface.after_write write r bytes store').2
  write-Shrinks (ok v) bytes store store' shrinks = shrinks
  write-Shrinks (err e) bytes store store' shrinks = shrinks

  got-Wrote :
      (i : ℕ) (store : Store) (c : Connection) (r : Option Packet × PacketQueue)
      → lock store i ≡ some c
      → Left c.queue r.1
      → Wrote store
          (SerialInterface.write_next write i store (some (r.0, record c { queue = r.1 })))
  got-Wrote i store c (none, q) there left = set-Shrinks store i c q there left
  got-Wrote i store c (some packet, q) there left =
      write-Shrinks (write packet.bytes) packet.bytes store _ (set-Shrinks store i c q there left)

  from-Wrote :
      (i : ℕ) (store : Store) (timeout : ℤ) (expired : Bool) (o : Option Connection)
      → lock store i ≡ o
      → Wrote store (SerialInterface.write_from write i store timeout expired o)
  unfolding next_packet PacketQueue.pop_timeout
  from-Wrote i store timeout expired none there = same-Shrinks store
  from-Wrote i store timeout expired (some c) there =
      waits (ltb_ℤ (pos 0) timeout) (ready c.queue || expired)
    where
      taken : Wrote store (
          SerialInterface.write_next write i store
            (some ((get_packet c.queue).0, record c { queue = (get_packet c.queue).1 })))
      taken = got-Wrote i store c (get_packet c.queue) there (get_packet-Left c.queue)

      waits :
          (b d : Bool)
          → Wrote store (
              SerialInterface.write_next write i store (
                Connection.after_pop c (
                  if b
                  then (if d then some (get_packet c.queue) else none)
                  else some (get_packet c.queue))))
      waits true true = taken
      waits true false = tt
      waits false d = taken

  pub send_packet-Shrinks :
      (timeout : ℤ) (expired : Bool) (s : SerialInterface.SerialInterface) (store : Store)
      (w : SerialInterface.Written)
      → SerialInterface.send_packet write timeout expired s store ≡ some w
      → Shrinks store w.2
  unfolding SerialInterface.send_packet
  send_packet-Shrinks timeout expired s store w e =
      subst (Wrote store) e (from-Wrote s.connection store timeout expired _ refl)
