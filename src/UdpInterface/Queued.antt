-- ===== src/UdpInterface/Queued.antt =====
-- What one `next_packet` of `UDPInterface::send_packet` does to the queues of the connections.
use mavtables.Prelude.{
  ℕ, suc, ◌+◌, ◌≡◌, refl, sym, ap, ◌∙◌, subst, true, false, Option, none, some, List, [], ◌∷◌, ◌==◌,
  ==_iff, set, length, arith, if◌then◌else◌, Bool-cases, inl, inr, ◌⊎◌,
}
use mavtables.Prelude.Int.{pos}
use mavtables.Packet.{Packet}
use mavtables.QueuedPacket.{QueuedPacket, lt}
use mavtables.PacketQueue
use mavtables.PacketQueue.{PacketQueue, take_top, greater_first, get_packet, got}
use mavtables.Connection.{Connection, next_packet}
use mavtables.ConnectionPool.{Store, lock}
use mavtables.ConnectionPool.Each.{lock-set_self, lock-set_other}
use mavtables.UdpInterface.{Table, owns, next_from}

abbrev pub queue_length : Option Connection → ℕ
queue_length none = 0
queue_length (some c) = length c.queue.queue

-- The packets that wait on the connections of an interface.
unfoldable pub queued : Table → Store → ℕ
queued [] store = 0
queued ((ip, i) ∷ table) store = queue_length (lock store i) + queued table store

abbrev pub Distinct : Table → Type 0
Distinct [] = Unit
Distinct ((ip, i) ∷ table) = (owns table i ≡ false) × Distinct table

-- A connection that exists, is not closed and has a callback.
abbrev pub IsOpen : Store → ℕ → Type 0
IsOpen store i =
    (c : Connection) × (lock store i ≡ some c)
    × (c.queue.running ≡ true)
    × (c.queue.has_callback ≡ true)

abbrev pub AllOpen : Table → Store → Type 0
AllOpen [] store = Unit
AllOpen ((ip, i) ∷ table) store = IsOpen store i × AllOpen table store

-- The connections that are open stay open.
abbrev pub Keeps : Store → Store → Type 0
Keeps store store' = (i : ℕ) → IsOpen store i → IsOpen store' i

pub Keeps-AllOpen :
    (table : Table) (store store' : Store)
    → Keeps store store'
    → AllOpen table store
    → AllOpen table store'
Keeps-AllOpen [] store store' keeps all = tt
Keeps-AllOpen ((ip, i) ∷ table) store store' keeps (open_i, all) =
    (keeps i open_i, Keeps-AllOpen table store store' keeps all)

-- Only one connection has changed.
abbrev pub Elsewhere : ℕ → Store → Store → Type 0
Elsewhere i store store' = (j : ℕ) → (i == j) ≡ false → lock store' j ≡ lock store j

pub Elsewhere-queued :
    (table : Table) (i : ℕ) (store store' : Store)
    → Elsewhere i store store'
    → owns table i ≡ false
    → queued table store' ≡ queued table store
unfolding queued owns
Elsewhere-queued [] i store store' other h = refl
Elsewhere-queued ((ip, j) ∷ table) i store store' other h =
    let same : lock store' j ≡ lock store j = other j (ground arith) in
    rw (same, Elsewhere-queued table i store store' other (ground arith)) refl

greater_first-length :
    (x : QueuedPacket) (xs : List QueuedPacket) (o : Option (QueuedPacket × List QueuedPacket))
    → ((y : QueuedPacket) × (rest : List QueuedPacket) × (o ≡ some (y, rest))
        × (length xs ≡ suc (length rest)))
      ⊎ (o ≡ none)
    → (y : QueuedPacket) × (rest : List QueuedPacket) × (greater_first x xs o ≡ some (y, rest))
      × (length xs ≡ length rest)
greater_first-length x xs none h = (x, xs, refl, refl)
greater_first-length x xs (some (y, rest)) (inr e) = absurd (cc)
greater_first-length x xs (some (y, rest)) (inl (z, rest', e, n)) = elim (Bool-cases (lt x y)) [
  | inl below ↦ (y, x ∷ rest, rw below refl, n ∙ sym (ap (λ o. suc (tail_length o)) e))
  | inr above ↦ (x, xs, rw above refl, refl)
]
  where
    tail_length : Option (QueuedPacket × List QueuedPacket) → ℕ
    tail_length none = 0
    tail_length (some (w, l)) = length l

take_top-length :
    (x : QueuedPacket) (xs : List QueuedPacket)
    → (y : QueuedPacket) × (rest : List QueuedPacket) × (take_top (x ∷ xs) ≡ some (y, rest))
      × (length xs ≡ length rest)
unfolding take_top
take_top-length x [] = (x, [], refl, refl)
take_top-length x (z ∷ xs) =
    let (y, rest, e, n) = take_top-length z xs in
    greater_first-length x (z ∷ xs) _ (inl (y, rest, e, ap suc n))

-- The front packet of a connection's queue, if there is one.
abbrev pub front : Option Connection → Option Packet
front none = none
front (some c) = (get_packet c.queue).0

-- Nothing was queued, and the queue is as it was, or the front packet has been taken off it.
abbrev pub IsPopped : ℕ → Store → Option Packet × Store → Type 0
IsPopped i store (packet, store') =
    Keeps store store'
    × Elsewhere i store store'
    × (packet ≡ front (lock store i))
    × (((packet ≡ none) × (queue_length (lock store i) ≡ 0) × (queue_length (lock store' i) ≡ 0))
        ⊎ ((p : Packet) × (packet ≡ some p)
            × (queue_length (lock store i) ≡ suc (queue_length (lock store' i)))))

pub set-Keeps :
    (store : Store) (i : ℕ) (c : Connection) (d : Connection)
    → lock store i ≡ some c
    → d.queue.running ≡ true
    → d.queue.has_callback ≡ true
    → Keeps store (set store i (some d))
set-Keeps store i c d there runs calls j open_j = elim (Bool-cases (i == j)) [
  | inl same ↦
      subst (λ k. IsOpen (set store i (some d)) k) ((==_iff i j).0 same)
        (d, lock-set_self store i c d there, runs, calls)
  | inr other ↦ let (x, e, r, b) = open_j in (x, lock-set_other store i j d other ∙ e, r, b)
]

-- What `get_packet` gives for a queue that runs.
abbrev Got : PacketQueue → Option Packet × PacketQueue → Type 0
Got q (packet, q') =
    (q'.running ≡ q.running)
    × (q'.has_callback ≡ q.has_callback)
    × (((packet ≡ none) × (length q.queue ≡ 0) × (length q'.queue ≡ 0))
        ⊎ ((p : Packet) × (packet ≡ some p) × (length q.queue ≡ suc (length q'.queue))))

abbrev pub Top : List QueuedPacket → Option (QueuedPacket × List QueuedPacket) → Type 0
Top l none = length l ≡ 0
Top l (some (y, rest)) = length l ≡ suc (length rest)

pub take_top-Top : (l : List QueuedPacket) → Top l (take_top l)
unfolding take_top
take_top-Top [] = refl
take_top-Top (x ∷ xs) =
    let (y, rest, top, n) = take_top-length x xs in subst (Top (x ∷ xs)) (sym top) (ap suc n)

got-Got :
    (q : PacketQueue) (o : Option (QueuedPacket × List QueuedPacket))
    → Top q.queue o
    → Got q (got q o)
got-Got q none n = (refl, refl, inl (refl, n, n))
got-Got q (some (y, rest)) n = (refl, refl, inr (y.packet, refl, n))

get_packet-Got : (q : PacketQueue) → q.running ≡ true → Got q (get_packet q)
unfolding get_packet
get_packet-Got q runs =
    subst (λ b. Got q (if b then got q (take_top q.queue) else (none, q))) (sym runs)
      (got-Got q (take_top q.queue) (take_top-Top q.queue))

next_packet-get_packet :
    (c : Connection)
    → next_packet (pos 0) true c
      ≡ some ((get_packet c.queue).0, record c { queue = (get_packet c.queue).1 })
unfolding next_packet PacketQueue.pop_timeout
next_packet-get_packet c = refl

-- `next_packet` takes the front packet, if there is one, and changes nothing else.
pub next_from-IsPopped :
    (i : ℕ) (store : Store) → IsOpen store i → IsPopped i store (next_from i store (lock store i))
next_from-IsPopped i store (c, there, runs, calls) =
    let g : Got c.queue (get_packet c.queue) = get_packet-Got c.queue runs in
    let d : Connection = record c { queue = (get_packet c.queue).1 } in
    let set_there : lock (set store i (some d)) i ≡ some d = lock-set_self store i c d there in
    rw (there, next_packet-get_packet c)
      (
        set-Keeps store i c d there (g.0 ∙ runs) (g.1 ∙ calls),
        λ j other. lock-set_other store i j d other,
        refl,
        rw set_there g.2,
      )
