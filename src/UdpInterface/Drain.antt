-- ===== src/UdpInterface/Drain.antt =====
-- The loop of `UDPInterface::send_packet` over the connections.
use mavtables.Prelude.{
  ℕ, suc, ◌+◌, ◌-◌, ◌≤◌, ◌<◌, ◌≡◌, refl, sym, ap, ◌∙◌, subst, Bool, true, false, Option, none, some,
  [], ◌∷◌, Bytes, arith, inl, inr,
}
use mavtables.Prelude.Exception.{Result, ok, err}
use mavtables.IpAddress.{IpAddress}
use mavtables.Packet.{Packet}
use mavtables.ConnectionPool.{Store, lock}
use mavtables.ConnectionFactory.{ConnectionFactory}
use mavtables.UdpInterface.{
  Table, owns, Datagram, Drained, also, drain, after_pop, after_transmit, decrement_if, next_from,
}
use mavtables.UdpInterface.Queued.{
  queue_length, queued, Distinct, AllOpen, Keeps, Keeps-AllOpen, Elsewhere, Elsewhere-queued,
  IsPopped, next_from-IsPopped,
}
use mavtables.UdpInterface.Fronts.{front_to, fronts, Elsewhere-fronts, decrement_if-value, Paid}

module _ (transmit : Bytes → IpAddress → Result (Unit {0})) where
  -- What the loop promises: connections stay open, other connections are left alone, no packet is
  -- added, and if any is taken or none is queued there is a permit for each that is left.
  pub record Drains (table : Table) (not_first : Bool) (store : Store) (f : ConnectionFactory)
      (q : Drained) : Type 0 where
    pub keeps : Keeps store q.2
    pub elsewhere : (j : ℕ) → owns table j ≡ false → lock q.2 j ≡ lock store j
    pub fewer : queued table q.2 ≤ queued table store
    pub progress : 0 < queued table store → queued table q.2 < queued table store
    pub permits :
        (others : ℕ)
        → Paid true (others + queued table store) f
        → not_first ≡ true
        → others + queued table q.2 ≤ q.3.semaphore.value
    pub first_permits :
        Paid false (queued table store) f
        → not_first ≡ false
        → queued table q.2 ≤ q.3.semaphore.value

  Drains-nil :
      (not_first : Bool) (store : Store) (f : ConnectionFactory)
      → Drains [] not_first store f (ok tt, [], store, f)
  unfolding queued
  Drains-nil not_first store f = record {
    keeps = λ i h. h;
    elsewhere = λ j h. refl;
    fewer = omega arith;
    progress = λ h. absurd (omega arith);
    permits = λ others h e. h;
    first_permits = λ h e. omega arith;
  }

  -- A connection without a packet.
  Drains-skip :
      (ip : IpAddress) (i : ℕ) (table : Table) (not_first : Bool) (store store' : Store)
      (f : ConnectionFactory) (q : Drained)
      → owns table i ≡ false
      → Keeps store store'
      → Elsewhere i store store'
      → queue_length (lock store i) ≡ 0
      → queue_length (lock store' i) ≡ 0
      → Drains table not_first store' f q
      → Drains ((ip, i) ∷ table) not_first store f q
  unfolding queued owns
  Drains-skip ip i table not_first store store' f q fresh keeps other before after rest =
      let e : queued table store' ≡ queued table store =
        Elsewhere-queued table i store store' other fresh in
      let mine : queue_length (lock q.2 i) ≡ 0 = ap queue_length (rest.elsewhere i fresh) ∙ after in
      record {
        keeps = λ j h. rest.keeps j (keeps j h);
        elsewhere = λ j h. rest.elsewhere j (ground arith) ∙ other j (ground arith);
        fewer = let l = rest.fewer in omega arith;
        progress = λ h. (let l = rest.progress (omega arith) in omega arith);
        permits = λ others h t. (let l = rest.permits others (omega arith) t in omega arith);
        first_permits = λ h t. (let l = rest.first_permits (omega arith) t in omega arith);
      }

  -- A packet that the socket refuses.
  Drains-stop :
      (ip : IpAddress) (i : ℕ) (table : Table) (not_first : Bool) (store store' : Store)
      (f : ConnectionFactory) (r : Result (Unit {0}))
      → owns table i ≡ false
      → Keeps store store'
      → Elsewhere i store store'
      → queue_length (lock store i) ≡ suc (queue_length (lock store' i))
      → Drains ((ip, i) ∷ table) not_first store f (r, [], store', f)
  unfolding queued owns
  Drains-stop ip i table not_first store store' f r fresh keeps other one =
      let e : queued table store' ≡ queued table store =
        Elsewhere-queued table i store store' other fresh in
      record {
        keeps = keeps;
        elsewhere = λ j h. other j (ground arith);
        fewer = omega arith;
        progress = λ h. omega arith;
        permits = λ others h t. omega arith;
        first_permits = λ h t. omega arith;
      }

  -- A packet that is sent.
  Drains-sent :
      (ip : IpAddress) (i : ℕ) (table : Table) (not_first : Bool) (store store' : Store)
      (f : ConnectionFactory) (d : Datagram) (q : Drained)
      → owns table i ≡ false
      → Keeps store store'
      → Elsewhere i store store'
      → queue_length (lock store i) ≡ suc (queue_length (lock store' i))
      → Drains table true store' (decrement_if not_first f) q
      → Drains ((ip, i) ∷ table) not_first store f (also d q)
  unfolding queued owns
  Drains-sent ip i table not_first store store' f d q fresh keeps other one rest =
      let e : queued table store' ≡ queued table store =
        Elsewhere-queued table i store store' other fresh in
      let mine : queue_length (lock q.2 i) ≡ queue_length (lock store' i) =
        ap queue_length (rest.elsewhere i fresh) in
      let v : (decrement_if true f).semaphore.value ≡ f.semaphore.value - 1 =
        decrement_if-value f in
      record {
        keeps = λ j h. rest.keeps j (keeps j h);
        elsewhere = λ j h. rest.elsewhere j (ground arith) ∙ other j (ground arith);
        fewer = let l = rest.fewer in omega arith;
        progress = λ h. (let l = rest.fewer in omega arith);
        permits = λ others h t.
            (let paid : others + queue_length (lock store' i) + queued table store'
                  ≤ (decrement_if not_first f).semaphore.value =
                subst
                  (λ b.
                    others + queue_length (lock store' i) + queued table store'
                    ≤ (decrement_if b f).semaphore.value)
                  (sym t) (omega arith) in
              let l = rest.permits (others + queue_length (lock store' i)) paid refl in
              omega arith);
        first_permits = λ h t.
            (let paid : queue_length (lock store' i) + queued table store'
                  ≤ (decrement_if not_first f).semaphore.value =
                subst
                  (λ b.
                    queue_length (lock store' i) + queued table store'
                    ≤ (decrement_if b f).semaphore.value)
                  (sym t) (omega arith) in
              let l = rest.permits (queue_length (lock store' i)) paid refl in omega arith);
      }

  Drains-after_transmit :
      (ip : IpAddress) (i : ℕ) (table : Table) (not_first : Bool) (store store' : Store)
      (f : ConnectionFactory) (r : Result (Unit {0})) (d : Datagram)
      → owns table i ≡ false
      → Keeps store store'
      → Elsewhere i store store'
      → queue_length (lock store i) ≡ suc (queue_length (lock store' i))
      → ((b : Bool) (g : ConnectionFactory)
          → Drains table b store' g (drain transmit table b store' g))
      → Drains
          ((ip, i) ∷ table)
          not_first
          store
          f
          (after_transmit transmit r d not_first store' f (drain transmit table))
  Drains-after_transmit ip i table not_first store store' f (ok v) d fresh keeps other one rest =
      Drains-sent ip i table not_first store store' f d _ fresh keeps other one
        (rest true (decrement_if not_first f))
  Drains-after_transmit ip i table not_first store store' f (err e) d fresh keeps other one rest =
      Drains-stop ip i table not_first store store' f (err e) fresh keeps other one

  Drains-after_pop :
      (ip : IpAddress) (i : ℕ) (table : Table) (not_first : Bool) (store : Store)
      (f : ConnectionFactory) (p : Option Packet) (store' : Store)
      → owns table i ≡ false
      → IsPopped i store (p, store')
      → ((b : Bool) (g : ConnectionFactory)
          → Drains table b store' g (drain transmit table b store' g))
      → Drains
          ((ip, i) ∷ table)
          not_first
          store
          f
          (after_pop transmit ip not_first (p, store') f (drain transmit table))
  Drains-after_pop ip i table not_first store f none store' fresh
        (keeps, other, e, inl (n, before, after)) rest =
      Drains-skip ip i table not_first store store' f _ fresh keeps other before after
        (rest not_first f)
  Drains-after_pop ip i table not_first store f none store' fresh (keeps, other, e, inr (p, n, one))
        rest =
      absurd (cc)
  Drains-after_pop ip i table not_first store f (some p) store' fresh
        (keeps, other, e, inl (n, before, after)) rest =
      absurd (cc)
  Drains-after_pop ip i table not_first store f (some p) store' fresh
        (keeps, other, e, inr (p', n, one)) rest =
      Drains-after_transmit ip i table not_first store store' f (transmit p.bytes ip) (p.bytes, ip)
        fresh keeps other one rest

  pub drain-Drains :
      (table : Table) (not_first : Bool) (store : Store) (f : ConnectionFactory)
      → Distinct table
      → AllOpen table store
      → Drains table not_first store f (drain transmit table not_first store f)
  unfolding drain
  drain-Drains [] not_first store f distinct all = Drains-nil not_first store f
  drain-Drains ((ip, i) ∷ table) not_first store f (fresh, distinct) (open_i, all) =
      let popped : IsPopped i store (next_from i store (lock store i)) =
        next_from-IsPopped i store open_i in
      Drains-after_pop ip i table not_first store f _ _ fresh popped
        (λ b g. drain-Drains table b _ g distinct (Keeps-AllOpen table store _ popped.0 all))

  fronts-after_pop :
      (ip : IpAddress) (i : ℕ) (table : Table) (not_first : Bool) (store : Store)
      (f : ConnectionFactory) (p : Option Packet) (store' : Store)
      → ((d : Bytes) (a : IpAddress) → transmit d a ≡ ok tt)
      → owns table i ≡ false
      → IsPopped i store (p, store')
      → ((b : Bool) (g : ConnectionFactory)
          → let q = drain transmit table b store' g in (q.0 ≡ ok tt) × (q.1 ≡ fronts table store'))
      → let q = after_pop transmit ip not_first (p, store') f (drain transmit table) in
        (q.0 ≡ ok tt) × (q.1 ≡ fronts ((ip, i) ∷ table) store)
  unfolding fronts
  fronts-after_pop ip i table not_first store f none store' good fresh (keeps, other, e, c) rest =
      let (r, out) = rest not_first f in
      (
        r,
        out
            ∙ Elsewhere-fronts table i store store' other fresh
            ∙ ap (λ o. front_to ip o (fronts table store)) e,
      )
  fronts-after_pop ip i table not_first store f (some p) store' good fresh (keeps, other, e, c)
        rest =
      let (r, out) = rest true (decrement_if not_first f) in
      rw (good p.bytes ip, after_transmit)
        (
          r,
          ap (λ l. (p.bytes, ip) ∷ l) (out ∙ Elsewhere-fronts table i store store' other fresh)
              ∙ ap (λ o. front_to ip o (fronts table store)) e,
        )

  -- A socket that works is given the front packet of each connection, in the order of the map.
  pub drain-fronts :
      (table : Table) (not_first : Bool) (store : Store) (f : ConnectionFactory)
      → ((d : Bytes) (a : IpAddress) → transmit d a ≡ ok tt)
      → Distinct table
      → AllOpen table store
      → let q = drain transmit table not_first store f in (q.0 ≡ ok tt) × (q.1 ≡ fronts table store)
  unfolding drain fronts
  drain-fronts [] not_first store f good distinct all = (refl, refl)
  drain-fronts ((ip, i) ∷ table) not_first store f good (fresh, distinct) (open_i, all) =
      let popped : IsPopped i store (next_from i store (lock store i)) =
        next_from-IsPopped i store open_i in
      fronts-after_pop ip i table not_first store f _ _ good fresh popped
        (λ b g. drain-fronts table b _ g good distinct (Keeps-AllOpen table store _ popped.0 all))
