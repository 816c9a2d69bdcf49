-- ===== src/ConnectionPool/Each.antt =====
-- A packet is sent once on every connection of the pool that still exists.
use mavtables.Prelude.{
  ℕ, zero, suc, ◌≤◌, ◌<◌, ◌≡◌, refl, sym, ap, ◌∙◌, subst, Bool, true, false, ◌||◌, Option, none,
  some, List, [], ◌∷◌, ◌==◌, ==_iff, set, arith, Bool-cases, Option-cases, inl, inr,
}
use mavtables.Prelude.Exception.{ok, err}
use mavtables.Packet.{Packet}
use mavtables.PacketQueue.{Signal}
use mavtables.Connection.{Connection, Sent}
use mavtables.ConnectionPool.{
  ConnectionPool, Store, Swept, lock, sweep, send, keep, after_send, visit,
}

abbrev pub Ascending : ℕ → List ℕ → Type 0
Ascending low [] = Unit
Ascending low (c ∷ cs) = (low ≤ c) × Ascending (suc c) cs

-- The set holds no pointer twice.
abbrev pub IsValid : ConnectionPool → Type 0
IsValid pool = Ascending 0 pool.connections

unfoldable pub member : ℕ → List ℕ → Bool
member c [] = false
member c (d ∷ ds) = d == c || member c ds

member-below : (low c : ℕ) (cs : List ℕ) → Ascending low cs → c < low → member c cs ≡ false
unfolding member
member-below low c [] h below = refl
member-below low c (d ∷ ds) (first, rest) below =
    ground (arith, member-below (suc d) c ds rest (omega arith))

pub lock-set_self :
    (store : Store) (i : ℕ) (c d : Connection)
    → lock store i ≡ some c
    → lock (set store i (some d)) i ≡ some d
unfolding lock
lock-set_self [] i c d h = cc
lock-set_self (x ∷ store) zero c d h = refl
lock-set_self (x ∷ store) (suc i) c d h = lock-set_self store i c d h

pub lock-set_other :
    (store : Store) (i j : ℕ) (d : Connection)
    → (i == j) ≡ false
    → lock (set store i (some d)) j ≡ lock store j
unfolding lock
lock-set_other [] i j d h = refl
lock-set_other (x ∷ store) zero zero d h = absurd (ground arith)
lock-set_other (x ∷ store) zero (suc j) d h = refl
lock-set_other (x ∷ store) (suc i) zero d h = refl
lock-set_other (x ∷ store) (suc i) (suc j) d h = lock-set_other store i j d (ground arith)

abbrev pub keep_if : Option Connection → ℕ → List ℕ → List ℕ
keep_if none c cs = cs
keep_if (some x) c cs = c ∷ cs

-- The pointers of a list whose connections exist.
unfoldable pub existing : Store → List ℕ → List ℕ
existing store [] = []
existing store (c ∷ cs) = keep_if (lock store c) c (existing store cs)

existing-set :
    (store : Store) (low i : ℕ) (d : Connection) (cs : List ℕ)
    → Ascending low cs
    → i < low
    → existing (set store i (some d)) cs ≡ existing store cs
unfolding existing
existing-set store low i d [] h below = refl
existing-set store low i d (c ∷ cs) (first, rest) below =
    ap (λ o. keep_if o c (existing (set store i (some d)) cs))
      (lock-set_other store i c d (ground arith))
    ∙ ap (keep_if (lock store c) c) (existing-set store (suc c) i d cs rest (omega arith))

module _ (send_on : Packet → Connection → Sent) (packet : Packet) where
  -- What becomes of a connection in the pool.
  abbrev pub sent : Bool → Option Connection → Option Connection
  sent false c = c
  sent true none = none
  sent true (some c) = some (send_on packet c).1

  -- Every connection of the pool that exists has been sent the packet once, each other connection is
  -- as before, and the pool keeps the connections that exist.
  abbrev pub IsSent : List ℕ → Store → Swept → Type 0
  IsSent cs store (r, heard, kept, store') =
      (r ≡ ok tt)
      × (kept ≡ existing store cs)
      × ((i : ℕ) → lock store' i ≡ sent (member i cs) (lock store i))

  after_send-ok :
      (c : ℕ) (cs : List ℕ) (s : Sent) (store : Store) (rest : Store → Swept)
      {signals : List Signal}
      → s.0 ≡ ok signals
      → after_send c cs s store rest ≡ keep c signals (rest (set store c (some s.1)))
  after_send-ok c cs (ok signals, x) store rest e = cc
  after_send-ok c cs (err y, x) store rest e = absurd (cc)

  skip-IsSent :
      (c : ℕ) (cs : List ℕ) (store : Store) (q : Swept)
      → lock store c ≡ none
      → IsSent cs store q
      → IsSent (c ∷ cs) store q
  unfolding existing member
  skip-IsSent c cs store q gone (r, kept, others) = (
    r,
    kept ∙ sym (ap (λ o. keep_if o c (existing store cs)) gone),
    λ i. elim (Bool-cases (c == i)) [
      | inl same ↦
          let absent : lock store i ≡ none = ap (lock store) (sym ((==_iff c i).0 same)) ∙ gone in
          others i
          ∙ ap (sent (member i cs)) absent
          ∙ both (member i cs)
          ∙ sym (rw same (ap (sent true) absent))
      | inr other ↦ others i ∙ sym (rw other)
    ],
  )
    where
      both : (b : Bool) → sent b none ≡ none
      both true = refl
      both false = refl

  keep-IsSent :
      (c : ℕ) (cs : List ℕ) (store : Store) (x : Connection) (signals : List Signal) (q : Swept)
      → Ascending (suc c) cs
      → lock store c ≡ some x
      → IsSent cs (set store c (some (send_on packet x).1)) q
      → IsSent (c ∷ cs) store (keep c signals q)
  unfolding existing member
  keep-IsSent c cs store x signals q rest there (r, kept, others) = (
    r,
    ap (λ l. c ∷ l) (kept ∙ existing-set store (suc c) c (send_on packet x).1 cs rest (omega arith))
        ∙ sym (ap (λ o. keep_if o c (existing store cs)) there),
    λ i. elim (Bool-cases (c == i)) [
      | inl same ↦ rw same (
          subst (λ j. lock q.3 j ≡ sent true (lock store j)) ((==_iff c i).0 same)
            (others c
              ∙ ap (λ b. sent b (lock (set store c (some (send_on packet x).1)) c))
                  (member-below (suc c) c cs rest (omega arith))
              ∙ lock-set_self store c x (send_on packet x).1 there
              ∙ sym (ap (sent true) there)))
      | inr other ↦
          others i
          ∙ ap (sent (member i cs)) (lock-set_other store c i (send_on packet x).1 other)
          ∙ sym (rw other)
    ],
  )

  sweep-IsSent :
      (low : ℕ) (cs : List ℕ) (store : Store)
      → Ascending low cs
      → ((c : Connection) → (signals : List Signal) × ((send_on packet c).0 ≡ ok signals))
      → IsSent cs store (sweep send_on packet cs store)
  unfolding sweep member existing
  sweep-IsSent low [] store ascending returns = (refl, refl, λ i. refl)
  sweep-IsSent low (c ∷ cs) store (first, rest) returns = elim (Option-cases (lock store c)) [
    | inl gone ↦
        subst
          (λ o. IsSent (c ∷ cs) store (visit send_on packet c cs store o (sweep send_on packet cs)))
          (sym gone)
          (skip-IsSent c cs store (sweep send_on packet cs store) gone
            (sweep-IsSent (suc c) cs store rest returns))
    | inr (x, there) ↦
        let (signals, e) = returns x in
        subst
          (λ o. IsSent (c ∷ cs) store (visit send_on packet c cs store o (sweep send_on packet cs)))
          (sym there)
          (subst (λ q. IsSent (c ∷ cs) store q)
            (sym (after_send-ok c cs (send_on packet x) store (sweep send_on packet cs) e))
            (keep-IsSent c cs store x signals
              (sweep send_on packet cs (set store c (some (send_on packet x).1))) rest there
              (sweep-IsSent (suc c) cs _ rest returns)))
  ]

  -- Where no exception is thrown on a connection, `send` sends the packet once on every connection
  -- that is in the pool and still exists, leaves the other connections alone, throws nothing, and
  -- keeps in the pool the connections that exist.
  pub send-IsSent :
      (pool : ConnectionPool) (store : Store)
      → IsValid pool
      → ((c : Connection) → (signals : List Signal) × ((send_on packet c).0 ≡ ok signals))
      → let (r, heard, pool', store') = send send_on (some packet) pool store in
        IsSent pool.connections store (r, heard, pool'.connections, store')
  unfolding send
  send-IsSent pool store valid returns = sweep-IsSent 0 pool.connections store valid returns
