-- ===== src/UdpInterface/Permits.antt =====
-- `UDPInterface::send_packet`: the semaphore has a permit for every packet that is queued.
use mavtables.Prelude.{
  ℕ, zero, suc, ◌-◌, ◌≤◌, ◌<◌, ◌≡◌, refl, sym, ap, subst, Bool, true, false, Option, none, some,
  Bytes, ltb, arith, Bool-cases, inl, inr, if◌then◌else◌,
}
use mavtables.Prelude.Exception.{Result, ok}
use mavtables.IpAddress.{IpAddress}
use mavtables.Semaphore
use mavtables.ConnectionFactory.{ConnectionFactory, wait_for_packet}
use mavtables.UdpInterface.{Network, UdpInterface, Delivered, delivered, drain, woken, send_packet}
use mavtables.UdpInterface.Queued.{queued, Distinct, AllOpen, Keeps-AllOpen}
use mavtables.UdpInterface.Drain.{drain-Drains, drain-fronts}
use mavtables.UdpInterface.Fronts.{fronts}

-- The connections of an interface are different, open, and have no more packets than the semaphore
-- has permits, so that no packet waits without a permit to send it.
abbrev pub IsValid : UdpInterface → Network → Type 0
IsValid u net =
    Distinct u.connections
    × AllOpen u.connections net.store
    × (queued u.connections net.store ≤ u.factory.semaphore.value)

-- The packets of the interface that wait.
abbrev pub backlog : UdpInterface → Network → ℕ
backlog u net = queued u.connections net.store

abbrev decremented : ConnectionFactory → ConnectionFactory
decremented f = record f { semaphore = record { value = f.semaphore.value - 1 } }

wait-permit :
    (expired : Bool) (f : ConnectionFactory)
    → 0 < f.semaphore.value
    → wait_for_packet expired f ≡ some (true, decremented f)
unfolding wait_for_packet Semaphore.wait_for
wait-permit expired f h = let more : ltb 0 f.semaphore.value ≡ true = ground arith in rw more refl

wait-none :
    (expired : Bool) (f : ConnectionFactory)
    → f.semaphore.value ≡ 0
    → wait_for_packet expired f ≡ (if expired then some (false, f) else none)
unfolding wait_for_packet Semaphore.wait_for
wait-none true f h = let more : ltb 0 f.semaphore.value ≡ false = ground arith in rw more refl
wait-none false f h = let more : ltb 0 f.semaphore.value ≡ false = ground arith in rw more refl

module _ (transmit : Bytes → IpAddress → Result (Unit {0})) where
  -- What a call of `send_packet` that returns has done.
  abbrev pub IsSent : UdpInterface → Network → Delivered transmit → Type 0
  IsSent u net (r, out, u', net') =
      IsValid u' net'
      × (backlog u' net' ≤ backlog u net)
      × (0 < backlog u net → backlog u' net' < backlog u net)

  drain-IsSent :
      (u : UdpInterface) (net : Network)
      → IsValid u net
      → 0 < u.factory.semaphore.value
      → IsSent u net (
          delivered transmit u net
            (drain transmit u.connections false net.store (decremented u.factory)))
  drain-IsSent u net (distinct, all, permits) some_permit =
      let d =
        drain-Drains transmit u.connections false net.store (decremented u.factory) distinct all in
      (
        (
          distinct,
          Keeps-AllOpen u.connections net.store _ d.keeps all,
          d.first_permits (omega arith) refl,
        ),
        d.fewer,
        d.progress,
      )

  -- The same of a call that may still wait.
  abbrev IsSentIf : UdpInterface → Network → Option (Delivered transmit) → Type 0
  IsSentIf u net none = Unit
  IsSentIf u net (some d) = IsSent u net d

  idle-IsSentIf :
      (expired : Bool) (u : UdpInterface) (net : Network)
      → IsValid u net
      → u.factory.semaphore.value ≡ 0
      → IsSentIf u net (woken transmit u net (if expired then some (false, u.factory) else none))
  idle-IsSentIf true u net (distinct, all, permits) zero_left =
      ((distinct, all, permits), omega arith, λ h. absurd (omega arith))
  idle-IsSentIf false u net valid zero_left = tt

  send_packet-IsSentIf :
      (expired : Bool) (u : UdpInterface) (net : Network)
      → IsValid u net
      → IsSentIf u net (send_packet transmit expired u net)
  unfolding send_packet
  send_packet-IsSentIf expired u net valid = elim (Bool-cases (ltb 0 u.factory.semaphore.value)) [
    | inl more ↦
        subst (λ o. IsSentIf u net (woken transmit u net o))
          (sym (wait-permit expired u.factory (ground arith)))
          (drain-IsSent u net valid (ground arith))
    | inr no_more ↦
        subst (λ o. IsSentIf u net (woken transmit u net o))
          (sym (wait-none expired u.factory (ground arith)))
          (idle-IsSentIf expired u net valid (ground arith))
  ]

  -- Whether `send_packet` wakes up or times out, and also if the socket throws, the connections are
  -- different and open afterwards, the semaphore still has a permit for each packet that is queued,
  -- and there are fewer packets queued than before if there were any.
  pub send_packet-IsSent :
      (expired : Bool) (u : UdpInterface) (net : Network) (d : Delivered transmit)
      → IsValid u net
      → send_packet transmit expired u net ≡ some d
      → IsSent u net d
  send_packet-IsSent expired u net d valid e =
      subst (IsSentIf u net) e (send_packet-IsSentIf expired u net valid)

  -- While packets are queued, `send_packet` does not wait: with a socket that throws nothing it sends
  -- the front packet of every connection that has one, once each and in the order of the IP
  -- addresses.
  pub send_packet-fronts :
      (expired : Bool) (u : UdpInterface) (net : Network)
      → ((d : Bytes) (a : IpAddress) → transmit d a ≡ ok tt)
      → IsValid u net
      → 0 < backlog u net
      → (d : Delivered transmit) × (send_packet transmit expired u net ≡ some d)
        × (d.0 ≡ ok tt)
        × (d.1 ≡ fronts u.connections net.store)
  unfolding send_packet
  send_packet-fronts expired u net good (distinct, all, permits) some_queued =
      let (r, out) =
        drain-fronts transmit u.connections false net.store (decremented u.factory) good distinct
          all in
      (
        delivered transmit u net
            (drain transmit u.connections false net.store (decremented u.factory)),
        ap (woken transmit u net) (wait-permit expired u.factory (omega arith)),
        r,
        out,
      )

  -- The transmitting thread calls `send_packet` again and again.
  abbrev pub round : UdpInterface × Network → Option (Delivered transmit) → UdpInterface × Network
  round s none = s
  round s (some (r, out, u, net)) = (u, net)

  unfoldable pub rounds : ℕ → UdpInterface × Network → UdpInterface × Network
  rounds zero s = s
  rounds (suc n) s = rounds n (round s (send_packet transmit true s.0 s.1))

  round-IsValid :
      (u : UdpInterface) (net : Network) (n : ℕ) (o : Option (Delivered transmit))
      → IsSentIf u net o
      → ((0 < backlog u net) → (d : Delivered transmit) × (o ≡ some d))
      → IsValid u net
      → backlog u net ≤ suc n
      → let s = round (u, net) o in IsValid s.0 s.1 × (backlog s.0 s.1 ≤ n)
  round-IsValid u net n none h progress valid few = (
    valid,
    elim (Bool-cases (ltb 0 (backlog u net))) [
      | inl more ↦ (let (d, e) = progress (ground arith) in absurd (cc))
      | inr none_left ↦ ground arith
    ],
  )
  round-IsValid u net n (some (r, out, u', net')) (valid', fewer, less) progress valid few = (
    valid',
    elim (Bool-cases (ltb 0 (backlog u net))) [
      | inl more ↦ (let l = less (ground arith) in omega arith)
      | inr none_left ↦ ground arith
    ],
  )

  awake :
      (u : UdpInterface) (net : Network)
      → IsValid u net
      → 0 < backlog u net
      → (d : Delivered transmit) × (send_packet transmit true u net ≡ some d)
  unfolding send_packet
  awake u net (distinct, all, permits) h =
      (_, ap (woken transmit u net) (wait-permit true u.factory (omega arith)))

  -- While nothing more is queued, as many calls of `send_packet` as there are packets empty the queues
  -- of all connections of the interface, also if the socket throws.
  pub rounds-empty :
      (n : ℕ) (u : UdpInterface) (net : Network)
      → IsValid u net
      → backlog u net ≤ n
      → let s = rounds n (u, net) in IsValid s.0 s.1 × (backlog s.0 s.1 ≡ 0)
  unfolding rounds
  rounds-empty zero u net valid few = (valid, omega arith)
  rounds-empty (suc n) u net valid few =
      let (valid', few') =
        round-IsValid u net n _ (send_packet-IsSentIf true u net valid) (awake u net valid) valid
          few in
      rounds-empty n _ _ valid' few'
