-- ===== src/UdpInterface/Updates.antt =====
-- `UDPInterface::update_connections_`: a connection that is made, and one that sees an address.
use mavtables.Prelude.{
  ℕ, ◌+◌, ◌≤◌, ◌≡◌, refl, ap, ◌∙◌, true, Option, none, some, List, [], ◌∷◌, ◌++◌, Bytes, set,
  length, arith, Bool-cases, inl, inr, if◌then◌else◌,
}
use mavtables.Prelude.Exception.{Result, ok, err, ◌>>=◌}
use mavtables.MavAddress.{MavAddress}
use mavtables.IpAddress
use mavtables.IpAddress.{IpAddress, lt}
use mavtables.PacketQueue
use mavtables.Connection
use mavtables.Connection.{Connection, Sent, add_address}
use mavtables.ConnectionPool
use mavtables.ConnectionPool.{ConnectionPool, Store, Heard, lock}
use mavtables.ConnectionFactory.{ConnectionFactory, get}
use mavtables.UdpInterface.{
  Network, UdpInterface, insert, find, connection_for, update_connections, seen, see, owns,
}
use mavtables.UdpInterface.Queued.{queue_length, queued, Distinct, AllOpen, Keeps-AllOpen}
use mavtables.UdpInterface.Notified.{
  heard_callbacks, heard_callbacks-append, queued-set, set-Keeps_same,
}
use mavtables.UdpInterface.Fresh.{
  Grows, insert-Grows, heard_callbacks-Grows, lock-appended, append-Keeps, owns-fresh,
  queued-append, insert-Distinct, insert-AllOpen, queued-insert,
}

-- The connections of an interface are different and open, none has gone, and at most the packets that
-- its semaphore hears of have been queued on them.
abbrev pub Grown : UdpInterface → Network → List Heard → UdpInterface → Network → Type 0
Grown u net heard u' net' =
    Distinct u'.connections
    × AllOpen u'.connections net'.store
    × Grows u.connections u'.connections
    × (queued u'.connections net'.store
        ≤ queued u.connections net.store + heard_callbacks u'.connections heard)
    × (u'.factory ≡ u.factory)

pub Grown-again :
    (u : UdpInterface) (net : Network) (heard : List Heard) (u' : UdpInterface) (net' : Network)
    (later : List Heard) (u'' : UdpInterface) (net'' : Network)
    → Grown u net heard u' net'
    → Grown u' net' later u'' net''
    → Grown u net (heard ++ later) u'' net''
Grown-again u net heard u' net' later u'' net'' (d, a, g, q, f) (d', a', g', q', f') = (
  d',
  a',
  λ i h. g' i (g i h),
  (let l = heard_callbacks-Grows u'.connections u''.connections heard g' in
      let e = heard_callbacks-append u''.connections heard later in omega arith),
  f' ∙ f,
)

-- A connection that has seen an address.
seen-Grown :
    (now : ℕ) (address : MavAddress) (i : ℕ) (o : Option Connection) (u : UdpInterface)
    (net : Network)
    → lock net.store i ≡ o
    → Distinct u.connections
    → AllOpen u.connections net.store
    → Grown u net [] u (record net { store = seen now address i o net.store })
unfolding heard_callbacks add_address
seen-Grown now address i none u net there distinct all =
    (distinct, all, λ j h. h, omega arith, refl)
seen-Grown now address i (some c) u net there distinct all =
    let keeps = set-Keeps_same net.store i c (add_address now address c) there refl refl in
    let same =
      queued-set u.connections net.store i c (add_address now address c) 0 distinct all there
        (λ h. omega arith) in
    (
      distinct,
      Keeps-AllOpen u.connections net.store (set net.store i (some (add_address now address c)))
          keeps all,
      λ j h. h,
      elim (Bool-cases (owns u.connections i)) [
        | inl mine ↦
            (let e = same ∙ ap (λ b. queued u.connections net.store + (if b then 0 else 0)) mine in
              omega arith)
        | inr other ↦
            (let e = same ∙ ap (λ b. queued u.connections net.store + (if b then 0 else 0)) other in
              omega arith)
      ],
      refl,
    )

abbrev Made : UdpInterface → Network → Result (ℕ × UdpInterface × Network) → Type 0
Made u net (err e) = Unit
Made u net (ok (i, u', net')) = Grown u net [] u' net'

abbrev IsNew : Result Connection → Type 0
IsNew (err e) = Unit
IsNew (ok c) = c.queue ≡ PacketQueue.make true

get-IsNew : (timeout : ℕ) (name : Bytes) (f : ConnectionFactory) → IsNew (get timeout name f)
unfolding get Connection.make
get-IsNew timeout name f = elim (Bool-cases f.filter_given) [
  | inl given ↦ rw given refl
  | inr missing ↦ rw missing tt
]

-- What `connection_for` adds.
added-Made :
    (ip : IpAddress) (u : UdpInterface) (net : Network) (c : Connection)
    → c.queue ≡ PacketQueue.make true
    → Distinct u.connections
    → AllOpen u.connections net.store
    → Grown u net []
        (record u { connections = insert ip (length net.store) u.connections })
        (record {
          pool = ConnectionPool.add (length net.store) net.pool;
          store = net.store ++ some c ∷ [];
        })
unfolding PacketQueue.make heard_callbacks
added-Made ip u net c new distinct all =
    let there = lock-appended net.store c in
    let all' =
      Keeps-AllOpen u.connections net.store (net.store ++ some c ∷ []) (append-Keeps net.store c)
        all in
    let none_there : queue_length (lock (net.store ++ some c ∷ []) (length net.store)) ≡ 0 =
      ap queue_length there ∙ ap (λ q. length q.queue) new in
    let e =
      queued-insert ip (length net.store) u.connections (net.store ++ some c ∷ []) none_there in
    let e' = queued-append u.connections net.store c all in
    (
      insert-Distinct ip (length net.store) u.connections (owns-fresh u.connections net.store all)
          distinct,
      insert-AllOpen ip (length net.store) u.connections (net.store ++ some c ∷ [])
          (c, there, ap (λ q. q.running) new, ap (λ q. q.has_callback) new) all',
      insert-Grows ip (length net.store) u.connections,
      omega arith,
      refl,
    )

module _ (timeout : ℕ) where
  connection_for-Made :
      (o : Option ℕ) (ip : IpAddress) (u : UdpInterface) (net : Network)
      → Distinct u.connections
      → AllOpen u.connections net.store
      → Made u net (connection_for timeout o ip u net)
  unfolding connection_for heard_callbacks
  connection_for-Made (some i) ip u net distinct all = (distinct, all, λ j h. h, omega arith, refl)
  connection_for-Made none ip u net distinct all =
      of_new (get timeout (IpAddress.print ip) u.factory)
        (get-IsNew timeout (IpAddress.print ip) u.factory)
    where
      of_new :
          (r : Result Connection)
          → IsNew r
          → Made u net (
              r >>= λ c. ok (
                length net.store,
                record u { connections = insert ip (length net.store) u.connections },
                record {
                  pool = ConnectionPool.add (length net.store) net.pool;
                  store = net.store ++ some c ∷ [];
                },
              ))
      of_new (err e) new = tt
      of_new (ok c) new = added-Made ip u net c new distinct all

  abbrev pub Updated : UdpInterface → Network → Result (UdpInterface × Network) → Type 0
  Updated u net (err e) = Unit
  Updated u net (ok (u', net')) = Grown u net [] u' net'

  update-Updated :
      (now : ℕ) (address : MavAddress) (u : UdpInterface) (net : Network)
      (r : Result (ℕ × UdpInterface × Network))
      → Made u net r
      → Updated u net (r >>= λ x. ok (x.1, see now address x.0 x.2))
  update-Updated now address u net (err e) made = tt
  update-Updated now address u net (ok (i, u', net')) made =
      Grown-again u net [] u' net' [] u' (see now address i net') made
        (seen-Grown now address i (lock net'.store i) u' net' refl made.0 made.1)

  pub update_connections-Updated :
      (now : ℕ) (address : MavAddress) (ip : IpAddress) (u : UdpInterface) (net : Network)
      → Distinct u.connections
      → AllOpen u.connections net.store
      → Updated u net (update_connections timeout now address ip u net)
  unfolding update_connections
  update_connections-Updated now address ip u net distinct all =
      update-Updated now address u net _
        (connection_for-Made (find ip u.connections) ip u net distinct all)
