-- ===== src/Connection/Best.antt =====
-- Which of the verdicts on the addresses that a packet may go to decides.
use mavtables.Prelude.{
  ℕ, ◌≡◌, refl, Bool, true, false, List, [], ◌∷◌, ◌⊎◌, inl, inr, ◌==◌, if◌then◌else◌, Bool-cases,
  arith, All,
}
use mavtables.Prelude.Int.{ℤ, int_min, max_ℤ, ltb_ℤ, ◌≤ℤ◌}
use mavtables.Prelude.Exception.{Result, ok}
use mavtables.MavAddress.{MavAddress, system}
use mavtables.Packet.{Packet}
use mavtables.Connection.{Connection, Sent, push, push_if, gather}

abbrev pub Any {ℓ} : {A : Type ℓ} → (A → Type 0) → List A → Type 0
Any P [] = ⊥
Any P (x ∷ xs) = P x ⊎ Any P xs

-- The addresses of a list that have the system ID.
unfoldable pub of_system : ℕ → List MavAddress → List MavAddress
of_system sys [] = []
of_system sys (a ∷ rest) =
    let later = of_system sys rest in if sys == system a then a ∷ later else later

-- A filter that throws nothing: the verdict on every address, with an `int` for its priority.
pub record Judges (packet : Packet) (judge : Packet → MavAddress → Result (Bool × ℤ)) : Type 0 where
  pub verdict : MavAddress → Bool × ℤ
  pub returns : (a : MavAddress) → judge packet a ≡ ok (verdict a)
  pub in_range : (a : MavAddress) → int_min ≤ℤ (verdict a).1

-- All addresses are rejected and the queue is as it was; or one at least is accepted, and the packet
-- is queued with the highest of the priorities of those that are.
abbrev pub IsBest : (MavAddress → Bool × ℤ) → List MavAddress → Packet → Connection → Sent → Type 0
IsBest verdict targets packet c sent =
    ((All (λ a. (verdict a).0 ≡ false) targets) × (sent ≡ (ok [], c)))
    ⊎ ((priority : ℤ) × All (λ a. ((verdict a).0 ≡ false) ⊎ ((verdict a).1 ≤ℤ priority)) targets
        × Any (λ a. ((verdict a).0 ≡ true) × (priority ≤ℤ (verdict a).1)) targets
        × (sent ≡ push packet priority c))

-- The loop from its accumulators on.
abbrev pub Gathered : (MavAddress → Bool × ℤ) → List MavAddress → Bool → ℤ → Bool → ℤ → Type 0
Gathered verdict targets accept priority b p =
    (priority ≤ℤ p)
    × All (λ a. ((verdict a).0 ≡ false) ⊎ ((verdict a).1 ≤ℤ p)) targets
    × (((b ≡ accept) × (p ≡ priority) × All (λ a. (verdict a).0 ≡ false) targets)
        ⊎ ((b ≡ true)
            × Any (λ a. ((verdict a).0 ≡ true) × ((p ≤ℤ (verdict a).1) ⊎ (p ≡ priority))) targets))

max_ℤ-left : (a b : ℤ) → a ≤ℤ max_ℤ a b
max_ℤ-left a b = elim (Bool-cases (ltb_ℤ a b)) [
  | inl less ↦ rw less (ground arith)
  | inr not_less ↦ rw not_less (omega arith)
]

max_ℤ-right : (a b : ℤ) → b ≤ℤ max_ℤ a b
max_ℤ-right a b = elim (Bool-cases (ltb_ℤ a b)) [
  | inl less ↦ rw less (omega arith)
  | inr not_less ↦ rw not_less (ground arith)
]

max_ℤ-attained : (a b p : ℤ) → p ≡ max_ℤ a b → (p ≤ℤ b) ⊎ (p ≡ a)
max_ℤ-attained a b p e = elim (Bool-cases (ltb_ℤ a b)) [
  | inl less ↦ inl (rw (e, less) (omega arith))
  | inr not_less ↦ inr (rw (e, not_less))
]

module _ (packet : Packet) {judge : Packet → MavAddress → Result (Bool × ℤ)}
    (judges : Judges packet judge) where
  -- A priority that is attained in the rest, or is the one before it.
  Any-or_before :
      (p m priority : ℤ) (targets : List MavAddress)
      → Any (λ a. ((judges.verdict a).0 ≡ true) × ((p ≤ℤ (judges.verdict a).1) ⊎ (p ≡ m))) targets
      → (p ≡ m)
        ⊎ Any
            (λ a. ((judges.verdict a).0 ≡ true) × ((p ≤ℤ (judges.verdict a).1) ⊎ (p ≡ priority)))
            targets
  Any-or_before p m priority [] any = absurd any
  Any-or_before p m priority (a ∷ targets) (inl (accepted, inl le)) = inr (inl (accepted, inl le))
  Any-or_before p m priority (a ∷ targets) (inl (accepted, inr same)) = inl same
  Any-or_before p m priority (a ∷ targets) (inr any) =
      elim (Any-or_before p m priority targets any) [
        | inl same ↦ inl same
        | inr there ↦ inr (inr there)
      ]

  pub gather-Gathered :
      (targets : List MavAddress) (accept : Bool) (priority : ℤ)
      → (b : Bool) × (p : ℤ) × (gather judge packet targets accept priority ≡ ok (b, p))
        × Gathered judges.verdict targets accept priority b p
  unfolding gather
  gather-Gathered [] accept priority =
      (accept, priority, refl, (omega arith, tt, inl (refl, refl, tt)))
  gather-Gathered (a ∷ targets) accept priority = elim (Bool-cases (judges.verdict a).0) [
    | inl accepted ↦
        let m = max_ℤ priority (judges.verdict a).1 in
        let (b, p, e, (low, high, cases)) = gather-Gathered targets true m in
        (
          b,
          p,
          rw (judges.returns a, accepted) e,
          (
            omega (arith, max_ℤ-left priority (judges.verdict a).1),
            (inr (omega (arith, max_ℤ-right priority (judges.verdict a).1)), high),
            elim cases [
              | inl (x, y, others) ↦
                  inr (x, inl (accepted, max_ℤ-attained priority (judges.verdict a).1 p y))
              | inr (x, any) ↦ elim (Any-or_before p m priority targets any) [
                | inl y ↦ inr (x, inl (accepted, max_ℤ-attained priority (judges.verdict a).1 p y))
                | inr there ↦ inr (x, inr there)
              ]
            ],
          ),
        )
    | inr rejected ↦
        let (b, p, e, (low, high, cases)) = gather-Gathered targets accept priority in
        (
          b,
          p,
          rw (judges.returns a, rejected) e,
          (
            low,
            (inl rejected, high),
            elim cases [
              | inl (x, y, others) ↦ inl (x, y, (rejected, others))
              | inr (x, any) ↦ inr (x, inr any)
            ],
          ),
        )
  ]

  Any-reached :
      (p : ℤ) (targets : List MavAddress)
      → Any
          (λ a. ((judges.verdict a).0 ≡ true) × ((p ≤ℤ (judges.verdict a).1) ⊎ (p ≡ int_min)))
          targets
      → Any (λ a. ((judges.verdict a).0 ≡ true) × (p ≤ℤ (judges.verdict a).1)) targets
  Any-reached p [] any = absurd any
  Any-reached p (a ∷ targets) (inl (accepted, inl le)) = inl (accepted, le)
  Any-reached p (a ∷ targets) (inl (accepted, inr same)) =
      inl (accepted, rw same (judges.in_range a))
  Any-reached p (a ∷ targets) (inr any) = inr (Any-reached p targets any)

  pub gather-IsBest :
      (targets : List MavAddress) (c : Connection)
      → IsBest judges.verdict targets packet c
          (push_if packet (gather judge packet targets false int_min) c)
  gather-IsBest targets c =
      let (b, p, e, (low, high, cases)) = gather-Gathered targets false int_min in
      elim cases [
        | inl (x, y, rejected) ↦ inl (rejected, rw (e, x))
        | inr (x, any) ↦ inr (p, high, Any-reached p targets any, rw (e, x))
      ]
