-- ===== src/UdpInterface/Fresh.antt =====
-- The map of a UDP interface, and a connection that is added to it.
use mavtables.Prelude.{
  ℕ, zero, suc, ◌≤◌, ◌≡◌, refl, ap, ◌∙◌, true, false, none, some, List, [], ◌∷◌, ◌++◌, ◌==◌, ==_iff,
  length, arith, Bool-cases, inl, inr,
}
use mavtables.IpAddress.{IpAddress, lt}
use mavtables.Connection.{Connection}
use mavtables.ConnectionPool.{Store, Heard, lock}
use mavtables.UdpInterface.{Table, insert, owns}
use mavtables.UdpInterface.Queued.{queue_length, queued, Distinct, IsOpen, AllOpen, Keeps}
use mavtables.UdpInterface.Notified.{heard_callbacks}

-- Connections are only added to the map.
abbrev pub Grows : Table → Table → Type 0
Grows table table' = (i : ℕ) → owns table i ≡ true → owns table' i ≡ true

pub insert-Grows : (ip : IpAddress) (i : ℕ) (table : Table) → Grows table (insert ip i table)
unfolding insert owns
insert-Grows ip i [] j h = absurd (cc)
insert-Grows ip i ((a, k) ∷ table) j h = elim (Bool-cases (lt ip a)) [
  | inl below ↦ rw below (ground arith)
  | inr not_below ↦ elim (Bool-cases (lt a ip)) [
    | inl above ↦
        rw (not_below, above)
          (elim (Bool-cases (k == j)) [
            | inl same ↦ rw same refl
            | inr other ↦ rw other (insert-Grows ip i table j (ground arith))
          ])
    | inr equal ↦ rw (not_below, equal) h
  ]
]

pub heard_callbacks-Grows :
    (table table' : Table) (heard : List Heard)
    → Grows table table'
    → heard_callbacks table heard ≤ heard_callbacks table' heard
unfolding heard_callbacks
heard_callbacks-Grows table table' [] grows = omega arith
heard_callbacks-Grows table table' ((i, signals) ∷ heard) grows =
    let rest = heard_callbacks-Grows table table' heard grows in
    elim (Bool-cases (owns table i)) [
      | inl mine ↦ rw (mine, grows i mine) (omega arith)
      | inr other ↦ rw other (omega arith)
    ]

lock-fresh : (store : Store) → lock store (length store) ≡ none
unfolding lock
lock-fresh [] = refl
lock-fresh (x ∷ store) = lock-fresh store

pub lock-append :
    (store : Store) (i : ℕ) (c d : Connection)
    → lock store i ≡ some c
    → lock (store ++ some d ∷ []) i ≡ some c
unfolding lock
lock-append [] i c d h = absurd (cc)
lock-append (x ∷ store) zero c d h = h
lock-append (x ∷ store) (suc i) c d h = lock-append store i c d h

pub lock-appended :
    (store : Store) (d : Connection) → lock (store ++ some d ∷ []) (length store) ≡ some d
unfolding lock
lock-appended [] d = refl
lock-appended (x ∷ store) d = lock-appended store d

pub append-Keeps : (store : Store) (d : Connection) → Keeps store (store ++ some d ∷ [])
append-Keeps store d i (c, e, r, b) = (c, lock-append store i c d e, r, b)

-- The index of a new connection is in no map.
pub owns-fresh :
    (table : Table) (store : Store) → AllOpen table store → owns table (length store) ≡ false
unfolding owns
owns-fresh [] store all = refl
owns-fresh ((ip, i) ∷ table) store ((c, e, r, b), all) = elim (Bool-cases (i == length store)) [
  | inl same ↦
      let gone : lock store i ≡ none =
        ap (lock store) ((==_iff i (length store)).0 same) ∙ lock-fresh store in
      absurd (cc)
  | inr other ↦ rw other (owns-fresh table store all)
]

pub queued-append :
    (table : Table) (store : Store) (d : Connection)
    → AllOpen table store
    → queued table (store ++ some d ∷ []) ≡ queued table store
unfolding queued
queued-append [] store d all = refl
queued-append ((ip, i) ∷ table) store d ((c, e, r, b), all) =
    rw (lock-append store i c d e, e, queued-append table store d all) refl

owns-insert :
    (ip : IpAddress) (i j : ℕ) (table : Table)
    → (i == j) ≡ false
    → owns table j ≡ false
    → owns (insert ip i table) j ≡ false
unfolding owns insert
owns-insert ip i j [] other h = rw other refl
owns-insert ip i j ((a, k) ∷ table) other h = elim (Bool-cases (lt ip a)) [
  | inl below ↦ rw (below, other) h
  | inr not_below ↦ elim (Bool-cases (lt a ip)) [
    | inl above ↦
        let rest = owns-insert ip i j table other (ground arith) in
        rw (not_below, above, rest) (ground arith)
    | inr equal ↦ rw (not_below, equal) h
  ]
]

pub insert-Distinct :
    (ip : IpAddress) (i : ℕ) (table : Table)
    → owns table i ≡ false
    → Distinct table
    → Distinct (insert ip i table)
unfolding owns insert
insert-Distinct ip i [] fresh distinct = (refl, tt)
insert-Distinct ip i ((a, k) ∷ table) fresh (new, distinct) = elim (Bool-cases (lt ip a)) [
  | inl below ↦ rw below (fresh, (new, distinct))
  | inr not_below ↦ elim (Bool-cases (lt a ip)) [
    | inl above ↦
        rw (not_below, above)
          (
            owns-insert ip i k table (ground arith) new,
            insert-Distinct ip i table (ground arith) distinct,
          )
    | inr equal ↦ rw (not_below, equal) (new, distinct)
  ]
]

pub insert-AllOpen :
    (ip : IpAddress) (i : ℕ) (table : Table) (store : Store)
    → IsOpen store i
    → AllOpen table store
    → AllOpen (insert ip i table) store
unfolding insert
insert-AllOpen ip i [] store open_i all = (open_i, tt)
insert-AllOpen ip i ((a, k) ∷ table) store open_i (open_k, all) = elim (Bool-cases (lt ip a)) [
  | inl below ↦ rw below (open_i, (open_k, all))
  | inr not_below ↦ elim (Bool-cases (lt a ip)) [
    | inl above ↦ rw (not_below, above) (open_k, insert-AllOpen ip i table store open_i all)
    | inr equal ↦ rw (not_below, equal) (open_k, all)
  ]
]

pub queued-insert :
    (ip : IpAddress) (i : ℕ) (table : Table) (store : Store)
    → queue_length (lock store i) ≡ 0
    → queued (insert ip i table) store ≡ queued table store
unfolding insert queued
queued-insert ip i [] store h = rw h refl
queued-insert ip i ((a, k) ∷ table) store h = elim (Bool-cases (lt ip a)) [
  | inl below ↦ rw (below, h) (omega arith)
  | inr not_below ↦ elim (Bool-cases (lt a ip)) [
    | inl above ↦ rw (not_below, above, queued-insert ip i table store h) refl
    | inr equal ↦ rw (not_below, equal) refl
  ]
]
