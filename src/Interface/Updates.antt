-- ===== src/Interface/Updates.antt =====
-- The packets of a UDP interface while another one makes a connection, or a connection sees an
-- address.
use mavtables.Prelude.{
  ℕ, ◌+◌, ◌≡◌, refl, ◌∙◌, Bool, true, false, Option, none, some, List, [], ◌∷◌, ◌++◌, length, arith,
  if◌then◌else◌,
}
use mavtables.Prelude.Exception.{Result, ok, err, ◌>>=◌}
use mavtables.MavAddress.{MavAddress}
use mavtables.IpAddress
use mavtables.IpAddress.{IpAddress}
use mavtables.Connection.{Connection, add_address}
use mavtables.ConnectionPool
use mavtables.ConnectionPool.{ConnectionPool, Store, Heard, lock}
use mavtables.ConnectionFactory.{get}
use mavtables.UdpInterface.{
  Network, UdpInterface, Table, insert, find, owns, connection_for, update_connections, seen, see,
}
use mavtables.UdpInterface.Queued.{queued, Distinct, AllOpen, Keeps-AllOpen}
use mavtables.UdpInterface.Notified.{
  IsNotified, heard_callbacks, heard_callbacks-append, queued-set, set-Keeps_same,
}
use mavtables.UdpInterface.Fresh.{append-Keeps, queued-append}

module _ (table : Table) (distinct : Distinct table) where
  pub nothing-IsNotified : (store : Store) → IsNotified table store [] store
  unfolding heard_callbacks
  nothing-IsNotified store = (λ i h. h, omega arith)

  pub IsNotified-again :
      (store : Store) (heard : List Heard) (store' : Store) (later : List Heard) (store'' : Store)
      → IsNotified table store heard store'
      → IsNotified table store' later store''
      → IsNotified table store (heard ++ later) store''
  IsNotified-again store heard store' later store'' (keeps, n) (keeps', n') =
      let e = heard_callbacks-append table heard later in (λ i h. keeps' i (keeps i h), omega arith)

  -- A connection that sees an address.
  pub seen-IsNotified :
      (now : ℕ) (address : MavAddress) (i : ℕ) (o : Option Connection) (store : Store)
      → lock store i ≡ o
      → AllOpen table store
      → IsNotified table store [] (seen now address i o store)
  unfolding heard_callbacks add_address
  seen-IsNotified now address i none store there all = nothing-IsNotified store
  seen-IsNotified now address i (some c) store there all =
      let same =
        queued-set table store i c (add_address now address c) 0 distinct all there
          (λ h. omega arith) in
      (
        set-Keeps_same store i c (add_address now address c) there refl refl,
        same ∙ none_more (owns table i) (queued table store),
      )
    where
      none_more : (b : Bool) (n : ℕ) → n + (if b then 0 else 0) ≡ n + 0
      none_more true n = refl
      none_more false n = refl

  abbrev Made : Network → Result (ℕ × UdpInterface × Network) → Type 0
  Made net (err e) = Unit
  Made net (ok (i, u', net')) = IsNotified table net.store [] net'.store

  abbrev pub Updated : Network → Result (UdpInterface × Network) → Type 0
  Updated net (err e) = Unit
  Updated net (ok (u', net')) = IsNotified table net.store [] net'.store

  module _ (timeout : ℕ) where
    connection_for-Made :
        (o : Option ℕ) (ip : IpAddress) (u : UdpInterface) (net : Network)
        → AllOpen table net.store
        → Made net (connection_for timeout o ip u net)
    unfolding connection_for heard_callbacks
    connection_for-Made (some i) ip u net all = nothing-IsNotified net.store
    connection_for-Made none ip u net all = of_new (get timeout (IpAddress.print ip) u.factory)
      where
        of_new :
            (r : Result Connection)
            → Made net (
                r >>= λ c. ok (
                  length net.store,
                  record u { connections = insert ip (length net.store) u.connections },
                  record {
                    pool = ConnectionPool.add (length net.store) net.pool;
                    store = net.store ++ some c ∷ [];
                  },
                ))
        of_new (err e) = tt
        of_new (ok c) =
            let e = queued-append table net.store c all in (append-Keeps net.store c, omega arith)

    update-Updated :
        (now : ℕ) (address : MavAddress) (net : Network) (r : Result (ℕ × UdpInterface × Network))
        → AllOpen table net.store
        → Made net r
        → Updated net (r >>= λ x. ok (x.1, see now address x.0 x.2))
    update-Updated now address net (err e) all made = tt
    update-Updated now address net (ok (i, u', net')) all made =
        IsNotified-again net.store [] net'.store [] _ made (
          seen-IsNotified now address i (lock net'.store i) net'.store refl
            (Keeps-AllOpen table net.store net'.store made.0 all))

    pub update_connections-Updated :
        (now : ℕ) (address : MavAddress) (ip : IpAddress) (u : UdpInterface) (net : Network)
        → AllOpen table net.store
        → Updated net (update_connections timeout now address ip u net)
    unfolding update_connections
    update_connections-Updated now address ip u net all =
        update-Updated now address net _ all
          (connection_for-Made (find ip u.connections) ip u net all)
