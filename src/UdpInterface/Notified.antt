-- ===== src/UdpInterface/Notified.antt =====
-- Packets that a connection pool sends on the connections of an interface: each is heard once by the
-- semaphore of the interface.
use mavtables.Prelude.{
  ℕ, zero, suc, ◌+◌, ◌^◌, ◌<◌, ◌≡◌, refl, sym, ap, ◌∙◌, subst, Bool, true, false, Option, none,
  some, List, [], ◌∷◌, ◌++◌, ◌==◌, ==_iff, set, length, length-append, arith, Bool-cases, inl, inr,
  if◌then◌else◌,
}
use mavtables.Prelude.Exception.{Result, ok, err}
use mavtables.Packet.{Packet}
use mavtables.PacketQueue.{PacketQueue, Signal}
use mavtables.PacketQueue
use mavtables.QueuedPacket
use mavtables.Prelude.Int.{ℤ}
use mavtables.Connection.Once.{IsOnce, signals_of}
use mavtables.Semaphore
use mavtables.Semaphore.{Semaphore}
use mavtables.Connection.{Connection, Sent}
use mavtables.ConnectionPool.{
  ConnectionPool, Store, Heard, Swept, lock, sweep, send, after_send, visit,
}
use mavtables.ConnectionPool.Each.{lock-set_self, lock-set_other}
use mavtables.UdpInterface.{Table, owns, callbacks, repeat_notify, hear_all}
use mavtables.UdpInterface.Queued.{
  queue_length, queued, Distinct, IsOpen, AllOpen, Keeps, Keeps-AllOpen, Elsewhere-queued,
}

-- The callbacks of the connections of an interface among the signals of all connections.
unfoldable pub heard_callbacks : Table → List Heard → ℕ
heard_callbacks table [] = 0
heard_callbacks table ((i, signals) ∷ heard) =
    (if owns table i then callbacks signals else 0) + heard_callbacks table heard

-- What `Connection::send` does to the queue: it grows by as many packets as there are callbacks.
abbrev pub IsAccounted : PacketQueue → Sent → Type 0
IsAccounted q (r, c) =
    (c.queue.running ≡ q.running)
    × (c.queue.has_callback ≡ q.has_callback)
    × (q.has_callback ≡ true → length c.queue.queue ≡ length q.queue + callbacks (signals_of r))

-- One push, with its callback.
abbrev Grown : PacketQueue → Result (PacketQueue × List Signal) → Type 0
Grown q (err e) = Unit
Grown q (ok (q', signals)) =
    (q'.running ≡ q.running)
    × (q'.has_callback ≡ q.has_callback)
    × (q.has_callback ≡ true → length q'.queue ≡ length q.queue + callbacks signals)

push-Grown :
    (packet : Packet) (priority : ℤ) (q : PacketQueue)
    → Grown q (PacketQueue.push (some packet) priority q)
unfolding PacketQueue.push QueuedPacket.make callbacks
push-Grown packet priority q = (refl, refl, λ h. rw h (length-append q.queue _))

pub IsOnce-IsAccounted :
    (packet : Packet) (q : PacketQueue) (s : Sent) → IsOnce packet q s → IsAccounted q s
unfolding callbacks
IsOnce-IsAccounted packet q (r, c) (inl (same, silent)) =
    (ap (λ x. x.running) same, ap (λ x. x.has_callback) same, λ h. rw (same, silent) (omega arith))
IsOnce-IsAccounted packet q (r, c) (inr (priority, signals, pushed, e)) =
    let g : Grown q (ok (c.queue, signals)) =
      subst (Grown q) pushed (push-Grown packet priority q) in
    (g.0, g.1, λ h. rw e (g.2 h))

repeat_notify-value :
    (n : ℕ) (s : Semaphore) → s.value + n < 2 ^ 64 → (repeat_notify n s).value ≡ s.value + n
unfolding Semaphore.notify
repeat_notify-value zero s h = omega arith
repeat_notify-value (suc n) s h =
    let one : (Semaphore.notify s).value ≡ s.value + 1 = omega arith in
    let rest = repeat_notify-value n (Semaphore.notify s) (omega arith) in omega arith

pub hear_all-value :
    (table : Table) (heard : List Heard) (s : Semaphore)
    → s.value + heard_callbacks table heard < 2 ^ 64
    → (hear_all table heard s).value ≡ s.value + heard_callbacks table heard
unfolding hear_all heard_callbacks
hear_all-value table [] s h = omega arith
hear_all-value table ((i, signals) ∷ heard) s h =
    let n : ℕ = if owns table i then callbacks signals else 0 in
    let one = repeat_notify-value n s (omega arith) in
    let rest = hear_all-value table heard (repeat_notify n s) (omega arith) in omega arith

pub heard_callbacks-append :
    (table : Table) (xs ys : List Heard)
    → heard_callbacks table (xs ++ ys) ≡ heard_callbacks table xs + heard_callbacks table ys
unfolding heard_callbacks
heard_callbacks-append table [] ys = omega arith
heard_callbacks-append table (x ∷ xs) ys = let e = heard_callbacks-append table xs ys in omega arith

-- A connection whose queue has grown by `k` packets.
pub queued-set :
    (table : Table) (store : Store) (i : ℕ) (c d : Connection) (k : ℕ)
    → Distinct table
    → AllOpen table store
    → lock store i ≡ some c
    → (c.queue.has_callback ≡ true → length d.queue.queue ≡ length c.queue.queue + k)
    → queued table (set store i (some d)) ≡ queued table store + (if owns table i then k else 0)
unfolding queued owns
queued-set [] store i c d k distinct all there grown = omega arith
queued-set ((ip, j) ∷ table) store i c d k (fresh, distinct) ((x, e, runs, calls), all) there
      grown =
    elim (Bool-cases (j == i)) [
      | inl same ↦
          let ji : j ≡ i = (==_iff j i).0 same in
          let xc : some x ≡ some c = sym e ∙ ap (lock store) ji ∙ there in
          let new : lock (set store i (some d)) j ≡ some d =
            subst (λ n. lock (set store i (some d)) n ≡ some d) (sym ji)
              (lock-set_self store i c d there) in
          let rest : queued table (set store i (some d)) ≡ queued table store =
            Elsewhere-queued table i store (set store i (some d))
              (λ n other. lock-set_other store i n d other)
              (subst (λ n. owns table n ≡ false) ji fresh) in
          let len : length d.queue.queue ≡ queue_length (some x) + k =
            subst (λ o. length d.queue.queue ≡ queue_length o + k) (sym xc)
              (grown (subst (λ o. has_callback o ≡ true) xc calls)) in
          rw (same, new, e, rest) (omega arith)
      | inr other ↦
          let old : lock (set store i (some d)) j ≡ lock store j =
            lock-set_other store i j d (ground arith) in
          let rest = queued-set table store i c d k distinct all there grown in
          rw (other, old) (omega arith)
    ]
  where
    has_callback : Option Connection → Bool
    has_callback none = true
    has_callback (some y) = y.queue.has_callback

-- A connection that is open or closed as before keeps the others as they are.
pub set-Keeps_same :
    (store : Store) (i : ℕ) (c d : Connection)
    → lock store i ≡ some c
    → d.queue.running ≡ c.queue.running
    → d.queue.has_callback ≡ c.queue.has_callback
    → Keeps store (set store i (some d))
set-Keeps_same store i c d there runs calls j (x, e, r, b) = elim (Bool-cases (i == j)) [
  | inl same ↦
      let ij : i ≡ j = (==_iff i j).0 same in
      let cx : some c ≡ some x = sym there ∙ ap (lock store) ij ∙ e in
      subst (λ k. IsOpen (set store i (some d)) k) ij
        (d, lock-set_self store i c d there, runs ∙ of_running cx r, calls ∙ of_callback cx b)
  | inr other ↦ (x, lock-set_other store i j d other ∙ e, r, b)
]
  where
    of_running : some c ≡ some x → x.queue.running ≡ true → c.queue.running ≡ true
    of_running same h = cc

    of_callback : some c ≡ some x → x.queue.has_callback ≡ true → c.queue.has_callback ≡ true
    of_callback same h = cc

-- The queues of the interface have grown by as many packets as its semaphore hears of.
abbrev pub IsNotified : Table → Store → List Heard → Store → Type 0
IsNotified table store heard store' =
    Keeps store store' × (queued table store' ≡ queued table store + heard_callbacks table heard)

module _ (send_on : Packet → Connection → Sent) (packet : Packet) (table : Table) where
  after_send-IsNotified :
      (i : ℕ) (cs : List ℕ) (store : Store) (c : Connection) (s : Sent) (rest : Store → Swept)
      → lock store i ≡ some c
      → IsAccounted c.queue s
      → Distinct table
      → AllOpen table store
      → ((store' : Store)
          → AllOpen table store'
          → IsNotified table store' (rest store').1 (rest store').3)
      → let q = after_send i cs s store rest in IsNotified table store q.1 q.3
  unfolding heard_callbacks callbacks
  after_send-IsNotified i cs store c (ok signals, d) rest there (runs, calls, grown) distinct all
        h =
      let keeps = set-Keeps_same store i c d there runs calls in
      let (keeps', n) =
        h (set store i (some d)) (Keeps-AllOpen table store (set store i (some d)) keeps all) in
      let one = queued-set table store i c d (callbacks signals) distinct all there grown in
      (λ j o. keeps' j (keeps j o), omega arith)
  after_send-IsNotified i cs store c (err e, d) rest there (runs, calls, grown) distinct all h =
      let one = queued-set table store i c d 0 distinct all there grown in
      (set-Keeps_same store i c d there runs calls, none_more (owns table i) one)
    where
      none_more :
          (b : Bool)
          → queued table (set store i (some d)) ≡ queued table store + (if b then 0 else 0)
          → queued table (set store i (some d)) ≡ queued table store + 0
      none_more true e = e
      none_more false e = e

  visit-IsNotified :
      (i : ℕ) (cs : List ℕ) (store : Store) (o : Option Connection) (rest : Store → Swept)
      → lock store i ≡ o
      → ((c : Connection) → IsAccounted c.queue (send_on packet c))
      → Distinct table
      → AllOpen table store
      → ((store' : Store)
          → AllOpen table store'
          → IsNotified table store' (rest store').1 (rest store').3)
      → let q = visit send_on packet i cs store o rest in IsNotified table store q.1 q.3
  visit-IsNotified i cs store none rest there law distinct all h = h store all
  visit-IsNotified i cs store (some c) rest there law distinct all h =
      after_send-IsNotified i cs store c (send_on packet c) rest there (law c) distinct all h

  sweep-IsNotified :
      (cs : List ℕ) (store : Store)
      → ((c : Connection) → IsAccounted c.queue (send_on packet c))
      → Distinct table
      → AllOpen table store
      → let q = sweep send_on packet cs store in IsNotified table store q.1 q.3
  unfolding sweep heard_callbacks
  sweep-IsNotified [] store law distinct all = (λ i h. h, omega arith)
  sweep-IsNotified (i ∷ cs) store law distinct all =
      visit-IsNotified i cs store _ (sweep send_on packet cs) refl law distinct all
        (λ store' all'. sweep-IsNotified cs store' law distinct all')

  -- What a connection pool sends is heard: the packets of the connections of an interface grow by the
  -- callbacks that its semaphore is called with, also if an exception ends the loop.
  pub send-IsNotified :
      (pool : ConnectionPool) (store : Store)
      → ((c : Connection) → IsAccounted c.queue (send_on packet c))
      → Distinct table
      → AllOpen table store
      → let q = send send_on (some packet) pool store in IsNotified table store q.1 q.3
  unfolding send
  send-IsNotified pool store law distinct all =
      sweep-IsNotified pool.connections store law distinct all
