-- ===== src/ConfigParser/Started.antt =====
-- The application that a configuration makes: its interfaces in the order of the file, each in a state
-- from which it can run.
use mavtables.Prelude.{
  ℕ, ◌≡◌, refl, sym, ap, ◌∙◌, subst, Bool, true, false, some, List, [], ◌∷◌, ◌++◌, append_assoc,
  append-nil, map, Bytes, All, All-append, arith, length,
}
use mavtables.Prelude.Exception.{
  Result, ok, err, ◌>>=◌, ◌>>◌, Gives, >>=-Gives, Gives-ok, Gives-Unit,
}
use mavtables.Mavlink.{Library}
use mavtables.MavAddress.{MavAddress}
use mavtables.IpAddress.{IpAddress}
use mavtables.PacketQueue
use mavtables.AddressPool
use mavtables.Connection
use mavtables.Connection.{Connection}
use mavtables.ConnectionPool
use mavtables.ConnectionPool.{ConnectionPool, Store, lock, insert}
use mavtables.ConnectionPool.Each as Pool
use mavtables.ConnectionPool.Each.{Ascending, member}
use mavtables.ConnectionFactory
use mavtables.UdpInterface
use mavtables.UdpInterface.{UdpInterface, Network}
use mavtables.UdpInterface.Fresh.{lock-appended}
use mavtables.SerialInterface
use mavtables.SerialInterface.{SerialInterface}
use mavtables.Chain.{Heap}
use mavtables.Filter.{Filter}
use mavtables.Ast
use mavtables.Ast.{Name, Node, Nodes, node, none_left, and}
use mavtables.ConfigParser.{parse_filter}
use mavtables.ConfigParser.Interfaces.{
  SerialSettings, UdpSettings, Interface, udp, serial, serial_options, udp_options, preloaded,
  default_serial, default_udp, device_of, with_connection, parse_serial, parse_udp, parse_interface,
  parse_interfaces, empty_network, make_app,
}
use mavtables.ConfigParser.Ready.{
  insert-Ascending, insert-member, Started, IsFresh, Ready, Ready-Started, more, more-Ready,
}

abbrev pub kind : Interface → Name
kind (udp u) = Name.udp
kind (serial s) = Name.serial

-- The blocks of the file that configure an interface.
unfoldable pub kinds : Nodes → List Name
kinds none_left = []
kinds (and (node Name.udp s c) nodes) = Name.udp ∷ kinds nodes
kinds (and (node Name.serial s c) nodes) = Name.serial ∷ kinds nodes
kinds (and n nodes) = kinds nodes

module _ (parse_mav : Bytes → Result MavAddress) (parse_ip : Bytes → Result IpAddress)
    (open_socket : UdpSettings → Result (Unit {0}))
    (open_port : Bytes → ℕ → Bool → Result (Unit {0})) (timeout now : ℕ) where
  preloaded-queue :
      (addresses : List MavAddress) (c : Connection)
      → (preloaded parse_mav parse_ip open_socket open_port timeout now addresses c).queue ≡ c.queue
  unfolding Connection.add_address
  preloaded-queue [] c = refl
  preloaded-queue (a ∷ addresses) c = preloaded-queue addresses (Connection.add_address now a c)

  -- A serial interface whose connection is new.
  abbrev IsAdded : Network → SerialInterface × Network → Type 0
  IsAdded net (s, net') =
      (c : Connection) × (net' ≡ more c net)
      × (s.connection ≡ length net.store)
      × (c.queue.running ≡ true)

  make-running :
      (device : Bytes)
      → Gives
          (λ c. c.queue.running ≡ true)
          (Connection.make device true false
            (some (AddressPool.make timeout))
            (some (PacketQueue.make false)))
  unfolding Connection.make PacketQueue.make
  make-running device = refl

  parse_serial-IsAdded :
      (nodes : Nodes) (net : Network)
      → Gives
          (IsAdded net)
          (parse_serial parse_mav parse_ip open_socket open_port timeout now nodes net)
  unfolding parse_serial SerialInterface.make ConnectionPool.add
  parse_serial-IsAdded nodes net =
      >>=-Gives (λ x. Unit {0}) (IsAdded net)
        (serial_options parse_mav parse_ip nodes default_serial) _
        (Gives-Unit (serial_options parse_mav parse_ip nodes default_serial))
        (λ x h.
          with_device x (device_of parse_mav parse_ip open_socket open_port timeout now x.device))
    where
      connected :
          (x : SerialSettings) (device : Bytes) (opened : Result (Unit {0}))
          → Gives (IsAdded net) (
              opened
              >> (Connection.make device true false
                    (some (AddressPool.make timeout))
                    (some (PacketQueue.make false))
                  >>= λ c.
                      with_connection parse_mav parse_ip open_socket open_port timeout now
                        (preloaded parse_mav parse_ip open_socket open_port timeout now x.preload c)
                        net))
      connected x device (err e) = tt
      connected x device (ok v) =
          >>=-Gives (λ c. c.queue.running ≡ true) (IsAdded net)
            (Connection.make device true false (some (AddressPool.make timeout))
              (some (PacketQueue.make false)))
            _ (make-running device)
            (λ c runs. (
              preloaded parse_mav parse_ip open_socket open_port timeout now x.preload c,
              refl,
              refl,
              ap (λ q. q.running) (preloaded-queue x.preload c) ∙ runs,
            ))

      with_device :
          (x : SerialSettings) (device : Result Bytes)
          → Gives (IsAdded net) (
              device >>= λ d.
              open_port d x.baud_rate x.flow_control
              >> (Connection.make d true false
                    (some (AddressPool.make timeout))
                    (some (PacketQueue.make false))
                  >>= λ c.
                      with_connection parse_mav parse_ip open_socket open_port timeout now
                        (preloaded parse_mav parse_ip open_socket open_port timeout now x.preload c)
                        net))
      with_device x (err e) = tt
      with_device x (ok device) = connected x device (open_port device x.baud_rate x.flow_control)

  make-IsFresh :
      Gives IsFresh
        (ConnectionFactory.make true false >>= λ f. UdpInterface.make true true (some f))
  unfolding ConnectionFactory.make UdpInterface.make
  make-IsFresh = refl

  parse_udp-IsFresh :
      (nodes : Nodes)
      → Gives IsFresh (parse_udp parse_mav parse_ip open_socket open_port timeout now nodes)
  unfolding parse_udp
  parse_udp-IsFresh nodes =
      >>=-Gives (λ x. Unit {0}) IsFresh (udp_options parse_mav parse_ip nodes default_udp) _
        (Gives-Unit (udp_options parse_mav parse_ip nodes default_udp))
        (λ x h. opened (open_socket x))
    where
      opened :
          (r : Result (Unit {0}))
          → Gives IsFresh (
              r
              >> (ConnectionFactory.make true false >>= λ f. UdpInterface.make true true (some f)))
      opened (err e) = tt
      opened (ok v) = make-IsFresh

  -- The interfaces so far, and the network.
  abbrev SoFar : List Name → List Interface × Network → Type 0
  SoFar names (interfaces, net) =
      Ascending 0 net.pool.connections × All (Ready net) interfaces × (map kind interfaces ≡ names)

  map-snoc :
      (interfaces : List Interface) (i : Interface)
      → map kind (interfaces ++ i ∷ []) ≡ map kind interfaces ++ kind i ∷ []
  map-snoc [] i = refl
  map-snoc (x ∷ interfaces) i = ap (λ l. kind x ∷ l) (map-snoc interfaces i)

  block_kind : Node → List Name
  block_kind n = kinds (and n none_left)

  kinds-and : (n : Node) (nodes : Nodes) → kinds (and n nodes) ≡ block_kind n ++ kinds nodes
  unfolding kinds block_kind
  kinds-and (node Name.udp s c) nodes = refl
  kinds-and (node Name.serial s c) nodes = refl
  kinds-and n nodes = refl

  parse_interface-SoFar :
      (n : Node) (names : List Name) (interfaces : List Interface) (net : Network)
      → SoFar names (interfaces, net)
      → Gives
          (SoFar (names ++ block_kind n))
          (parse_interface parse_mav parse_ip open_socket open_port timeout now n interfaces net)
  unfolding parse_interface kinds block_kind ConnectionPool.add
  parse_interface-SoFar (node Name.udp s nodes) names interfaces net (ascending, ready, same) =
      >>=-Gives IsFresh (SoFar (names ++ Name.udp ∷ []))
        (parse_udp parse_mav parse_ip open_socket open_port timeout now nodes) _
        (parse_udp-IsFresh nodes)
        (λ u fresh. (
          ascending,
          All-append (Ready net) interfaces (udp u ∷ []) ready (fresh, tt),
          map-snoc interfaces (udp u) ∙ ap (λ l. l ++ Name.udp ∷ []) same,
        ))
  parse_interface-SoFar (node Name.serial s nodes) names interfaces net (ascending, ready, same) =
      >>=-Gives (IsAdded net) (SoFar (names ++ Name.serial ∷ []))
        (parse_serial parse_mav parse_ip open_socket open_port timeout now nodes net) _
        (parse_serial-IsAdded nodes net) (λ r added. added_to r.0 r.1 added)
    where
      added_to :
          (i : SerialInterface) (net' : Network)
          → IsAdded net (i, net')
          → SoFar (names ++ Name.serial ∷ []) (interfaces ++ serial i ∷ [], net')
      added_to i net' (c, e, index, runs) =
          subst (λ w. SoFar (names ++ Name.serial ∷ []) (interfaces ++ serial i ∷ [], w)) (sym e)
            (
              insert-Ascending 0 (length net.store) net.pool.connections (omega arith) ascending,
              All-append (Ready (more c net)) interfaces (serial i ∷ [])
                  (more-Ready c net interfaces ready)
                  (
                    subst
                        (λ k.
                          (d : Connection) × (lock (more c net).store k ≡ some d)
                          × (d.queue.running ≡ true)
                          × (member k (more c net).pool.connections ≡ true))
                        (sym index)
                        (
                          c,
                          lock-appended net.store c,
                          runs,
                          insert-member (length net.store) net.pool.connections,
                        ),
                    tt,
                  ),
              map-snoc interfaces (serial i) ∙ ap (λ l. l ++ Name.serial ∷ []) same,
            )
  parse_interface-SoFar n names interfaces net (ascending, ready, same) =
      (ascending, ready, same ∙ sym (append-nil names))

  parse_interfaces-SoFar :
      (nodes : Nodes) (names : List Name) (interfaces : List Interface) (net : Network)
      → SoFar names (interfaces, net)
      → Gives (SoFar (names ++ kinds nodes)) (
          parse_interfaces parse_mav parse_ip open_socket open_port timeout now nodes interfaces
            net)
  unfolding parse_interfaces kinds
  parse_interfaces-SoFar none_left names interfaces net (ascending, ready, same) =
      (ascending, ready, same ∙ sym (append-nil names))
  parse_interfaces-SoFar (and n nodes) names interfaces net so =
      >>=-Gives (SoFar (names ++ block_kind n)) (SoFar (names ++ kinds (and n nodes)))
        (parse_interface parse_mav parse_ip open_socket open_port timeout now n interfaces net) _
        (parse_interface-SoFar n names interfaces net so)
        (λ r so'.
          subst
            (λ l.
              Gives (SoFar l) (
                parse_interfaces parse_mav parse_ip open_socket open_port timeout now nodes r.0
                  r.1))
            (append_assoc names (block_kind n) (kinds nodes)
              ∙ ap (λ l. names ++ l) (sym (kinds-and n nodes)))
            (parse_interfaces-SoFar nodes (names ++ block_kind n) r.0 r.1 so'))

  module _ (lib : Library) (tokens : Bytes → List Bytes) where
    abbrev IsReady : List Name → Heap × Filter × List Interface × Network → Type 0
    IsReady names (heap, f, interfaces, net) =
        Pool.IsValid net.pool × All (Started net) interfaces × (map kind interfaces ≡ names)

    make_app-IsReady :
        (root : Node)
        → Gives
            (IsReady (kinds (Ast.children root)))
            (make_app parse_mav parse_ip open_socket open_port timeout now lib tokens root)
    unfolding make_app
    make_app-IsReady root =
        >>=-Gives (λ filter. Unit {0}) (IsReady (kinds (Ast.children root)))
          (parse_filter lib tokens root) _ (Gives-Unit (parse_filter lib tokens root))
          (λ filter h.
            >>=-Gives (SoFar (kinds (Ast.children root))) (IsReady (kinds (Ast.children root)))
              (parse_interfaces parse_mav parse_ip open_socket open_port timeout now
                (Ast.children root) []
                (empty_network parse_mav parse_ip open_socket open_port timeout now))
              _
              (parse_interfaces-SoFar (Ast.children root) [] []
                (empty_network parse_mav parse_ip open_socket open_port timeout now) (tt, tt, refl))
              (λ r so.
                let (ascending, ready, same) = so in
                (ascending, Ready-Started r.1 r.0 ready, same)))

    -- The application that a configuration makes has an interface for each `udp` and `serial` block, of
    -- that kind and in the order of the file. Every UDP interface satisfies its invariant; the
    -- connection of every serial interface exists, is open, and is in the pool, which holds no
    -- connection twice.
    pub make_app-Started :
        (root : Node) (heap : Heap) (f : Filter) (interfaces : List Interface) (net : Network)
        → make_app parse_mav parse_ip open_socket open_port timeout now lib tokens root
          ≡ ok (heap, f, interfaces, net)
        → Pool.IsValid net.pool
          × All (Started net) interfaces
          × (map kind interfaces ≡ kinds (Ast.children root))
    make_app-Started root heap f interfaces net e =
        Gives-ok (IsReady (kinds (Ast.children root)))
          (make_app parse_mav parse_ip open_socket open_port timeout now lib tokens root)
          (heap, f, interfaces, net) (make_app-IsReady root) e
