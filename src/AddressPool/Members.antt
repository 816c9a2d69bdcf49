-- ===== src/AddressPool/Members.antt =====
-- Which addresses a pool contains.
use mavtables.Prelude.{
  ℕ, suc, ◌+◌, ◌≤◌, ◌<◌, ◌≡◌, refl, sym, ap, ◌∙◌, Bool, true, false, not, ◌||◌, Option, none, some,
  List, [], ◌∷◌, if◌then◌else◌, arith, ltb, Bool-cases, Option-cases, inl, inr,
}
use mavtables.MavAddress
use mavtables.MavAddress.{MavAddress, lt}
use mavtables.AddressPool.{
  AddressPool, Entry, insert, add, expired, erase_expired, keys, addresses, find, erase, contains,
}

-- The keys are ascending, from a number on.
abbrev pub Ascending : ℕ → List Entry → Type 0
Ascending low [] = Unit
Ascending low ((a, t) ∷ entries) = (low ≤ a.address) × Ascending (suc a.address) entries

abbrev pub IsValid : AddressPool → Type 0
IsValid pool = Ascending 0 pool.entries

unfoldable pub member : MavAddress → List MavAddress → Bool
member address [] = false
member address (a ∷ rest) = MavAddress.eq a address || member address rest

Ascending-lower :
    (low high : ℕ) (entries : List Entry)
    → low ≤ high
    → Ascending high entries
    → Ascending low entries
Ascending-lower low high [] order h = tt
Ascending-lower low high ((a, t) ∷ entries) order (le, rest) = (omega arith, rest)

insert-Ascending :
    (low now : ℕ) (address : MavAddress) (entries : List Entry)
    → low ≤ address.address
    → Ascending low entries
    → Ascending low (insert address now entries)
unfolding insert lt
insert-Ascending low now address [] le h = (le, tt)
insert-Ascending low now address ((a, t) ∷ entries) le (first, rest) =
    elim (Bool-cases (ltb address.address a.address)) [
      | inl before ↦ rw before (le, (ground arith, rest))
      | inr not_before ↦ elim (Bool-cases (ltb a.address address.address)) [
        | inl after ↦
            rw (not_before, after)
              (first, insert-Ascending (suc a.address) now address entries (ground arith) rest)
        | inr same ↦
            rw (not_before, same)
              (le, Ascending-lower _ (suc a.address) entries (ground arith) rest)
      ]
    ]

erase_expired-Ascending :
    (low timeout now : ℕ) (entries : List Entry)
    → Ascending low entries
    → Ascending low (erase_expired timeout now entries)
unfolding erase_expired
erase_expired-Ascending low timeout now [] h = tt
erase_expired-Ascending low timeout now ((a, t) ∷ entries) (first, rest) =
    let later = erase_expired-Ascending (suc a.address) timeout now entries rest in
    elim (Bool-cases (expired timeout now t)) [
      | inl old ↦ rw old (Ascending-lower low (suc a.address) _ (omega arith) later)
      | inr young ↦ rw young (first, later)
    ]

erase-Ascending :
    (low : ℕ) (address : MavAddress) (entries : List Entry)
    → Ascending low entries
    → Ascending low (erase address entries)
unfolding erase
erase-Ascending low address [] h = tt
erase-Ascending low address ((a, t) ∷ entries) (first, rest) =
    elim (Bool-cases (MavAddress.eq a address)) [
      | inl same ↦ rw same (Ascending-lower low (suc a.address) entries (omega arith) rest)
      | inr other ↦ rw other (first, erase-Ascending (suc a.address) address entries rest)
    ]

member-below :
    (low : ℕ) (address : MavAddress) (entries : List Entry)
    → Ascending low entries
    → address.address < low
    → member address (keys entries) ≡ false
unfolding member keys MavAddress.eq
member-below low address [] h below = refl
member-below low address ((a, t) ∷ entries) (first, rest) below =
    ground (arith, member-below (suc a.address) address entries rest (omega arith))

-- The answer of `contains` to what `find` gives.
unfoldable pub alive : ℕ → ℕ → Option ℕ → Bool
alive timeout now none = false
alive timeout now (some time) = not (expired timeout now time)

member-alive :
    (low timeout now : ℕ) (address : MavAddress) (entries : List Entry)
    → Ascending low entries
    → member address (keys (erase_expired timeout now entries))
      ≡ alive timeout now (find address entries)
unfolding member keys erase_expired alive find
member-alive low timeout now address [] h = refl
member-alive low timeout now address ((a, t) ∷ entries) (first, rest) =
    let later = member-alive (suc a.address) timeout now address entries rest in
    let kept = erase_expired-Ascending (suc a.address) timeout now entries rest in
    let absent : (b : MavAddress)
        → MavAddress.eq a b ≡ true
        → member b (keys (erase_expired timeout now entries)) ≡ false =
      λ b same. member-below (suc a.address) b _ kept (unfold MavAddress.eq in ground arith) in
    elim (Bool-cases (expired timeout now t)) [
      | inl old ↦ elim (Bool-cases (MavAddress.eq a address)) [
        | inl same ↦ rw (old, same) (absent address same ∙ sym (ap not old))
        | inr other ↦ rw (old, other) later
      ]
      | inr young ↦ elim (Bool-cases (MavAddress.eq a address)) [
        | inl same ↦ rw (young, same) (sym (ap not young))
        | inr other ↦ rw (young, other) later
      ]
    ]

contains-alive :
    (now : ℕ) (address : MavAddress) (pool : AddressPool)
    → (contains now address pool).0 ≡ alive pool.timeout now (find address pool.entries)
unfolding contains alive
contains-alive now address pool = elim (Option-cases (find address pool.entries)) [
  | inl absent ↦ rw (absent, contains)
  | inr (time, found) ↦ elim (Bool-cases (expired pool.timeout now time)) [
    | inl old ↦ rw (found, contains, old)
    | inr young ↦ rw (found, contains, young)
  ]
]

-- `contains` says yes to exactly the addresses that `addresses` would list at the same time.
pub contains-addresses :
    (now : ℕ) (address : MavAddress) (pool : AddressPool)
    → IsValid pool
    → (contains now address pool).0 ≡ member address (addresses now pool).0
unfolding addresses
contains-addresses now address pool valid =
    contains-alive now address pool
    ∙ sym (member-alive 0 pool.timeout now address pool.entries valid)

find-insert :
    (low now : ℕ) (address : MavAddress) (entries : List Entry) (b : MavAddress)
    → Ascending low entries
    → find b (insert address now entries)
      ≡ (if MavAddress.eq address b then some now else find b entries)
unfolding find insert lt MavAddress.eq
find-insert low now address [] b h = refl
find-insert low now address ((a, t) ∷ entries) b (first, rest) =
    ground (arith, find-insert (suc a.address) now address entries b rest)

-- An address that was added is contained until its time is up, and no other address comes or goes.
pub contains-add :
    (now later : ℕ) (address other : MavAddress) (pool : AddressPool)
    → IsValid pool
    → later ≤ now + pool.timeout
    → MavAddress.eq address other ≡ false
    → ((contains later address (add now address pool)).0 ≡ true)
      × ((contains later other (add now address pool)).0 ≡ (contains later other pool).0)
unfolding add
contains-add now later address other pool valid soon differ = (
  contains-alive later address (add now address pool)
      ∙ ap (alive pool.timeout later) (find-insert 0 now address pool.entries address valid)
      ∙ (unfold alive expired MavAddress.eq in ground arith),
  contains-alive later other (add now address pool)
      ∙ ap (alive pool.timeout later)
          (find-insert 0 now address pool.entries other valid ∙ rw differ)
      ∙ sym (contains-alive later other pool),
)

-- Every operation keeps the addresses distinct and in their order.
pub pool-IsValid :
    (now : ℕ) (address : MavAddress) (pool : AddressPool)
    → IsValid pool
    → IsValid (add now address pool)
      × IsValid (addresses now pool).1
      × IsValid (contains now address pool).1
unfolding add addresses contains
pool-IsValid now address pool valid = (
  insert-Ascending 0 now address pool.entries (omega arith) valid,
  erase_expired-Ascending 0 pool.timeout now pool.entries valid,
  elim (Option-cases (find address pool.entries)) [
    | inl absent ↦ rw (absent, contains) valid
    | inr (time, found) ↦ elim (Bool-cases (expired pool.timeout now time)) [
      | inl old ↦ rw (found, contains, old) (erase-Ascending 0 address pool.entries valid)
      | inr young ↦ rw (found, contains, young) valid
    ]
  ],
)
