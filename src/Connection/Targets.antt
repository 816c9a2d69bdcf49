-- ===== src/Connection/Targets.antt =====
-- The addresses whose verdicts decide, in each of the three ways to send.
use mavtables.Prelude.{
  ℕ, ◌≡◌, refl, sym, ◌∙◌, subst, Bool, true, false, ◌||◌, List, [], ◌∷◌, inl, inr, ◌==◌,
  if◌then◌else◌, Bool-cases, arith,
}
use mavtables.Prelude.Int.{ℤ, int_min, max_ℤ}
use mavtables.Prelude.Exception.{Result, ok, ◌>>=◌}
use mavtables.MavAddress.{MavAddress, system}
use mavtables.Packet.{Packet}
use mavtables.AddressPool.{contains, addresses}
use mavtables.Connection.{
  Connection, Sent, push_if, push_or, push_if_found, try_components, send_to_address, gather,
  send_to_all, gather_system, send_to_system,
}
use mavtables.Connection.Best.{Judges, IsBest, of_system, gather-Gathered, gather-IsBest}

unfoldable some_address : List MavAddress → Bool
some_address [] = false
some_address (a ∷ all) = true

-- The destination alone, if the connection reaches it or another component of its system.
unfoldable pub reached : ℕ → ℕ → MavAddress → Connection → List MavAddress
unfolding some_address
reached now later dest c =
    if (contains now dest c.pool).0
    then dest ∷ []
    else if some_address (of_system (system dest) (addresses later (contains now dest c.pool).1).0)
    then dest ∷ []
    else []

eq-flip : (m n : ℕ) → (m == n) ≡ (n == m)
eq-flip m n = ground arith

or-true : (b : Bool) → (b || true) ≡ true
or-true true = refl
or-true false = refl

module _ (packet : Packet) {judge : Packet → MavAddress → Result (Bool × ℤ)}
    (judges : Judges packet judge) where
  -- Where the filter throws nothing and its priorities are in the range of an int, `send_to_all_`
  -- queues the packet if it is accepted for one of the addresses that the pool lists, once and with
  -- the highest of the priorities of those for which it is, and else queues nothing.
  pub send_to_all-IsBest :
      (now : ℕ) (c : Connection)
      → IsBest judges.verdict
          (addresses now c.pool).0
          packet
          (record c { pool = (addresses now c.pool).1 })
          (send_to_all judge now packet c)
  unfolding send_to_all
  send_to_all-IsBest now c = gather-IsBest packet judges (addresses now c.pool).0 _

  gather_system-gather :
      (sys : ℕ) (all : List MavAddress) (found accept : Bool) (priority : ℤ)
      → gather_system judge packet sys all found accept priority ≡ (do
        v ← gather judge packet (of_system sys all) accept priority
        ok (found || some_address (of_system sys all), v.0, v.1))
  unfolding gather_system gather of_system some_address
  gather_system-gather sys [] true accept priority = refl
  gather_system-gather sys [] false accept priority = refl
  gather_system-gather sys (a ∷ all) found accept priority = elim (Bool-cases (sys == system a)) [
    | inl same ↦
        let (b, p, e, _) =
          gather-Gathered packet judges (of_system sys all) ((judges.verdict a).0 || accept)
            (if (judges.verdict a).0 then max_ℤ priority (judges.verdict a).1 else priority) in
        rw (same, judges.returns a)
          (gather_system-gather sys all true _ _ ∙ rw (e, or-true found) refl)
    | inr other ↦ rw other (gather_system-gather sys all found accept priority)
  ]

  push_if_found-IsBest :
      (targets : List MavAddress) (c : Connection)
      → IsBest judges.verdict targets packet c (
          push_if_found judge packet
            (do v ← gather judge packet targets false int_min; ok (some_address targets, v.0, v.1))
            c)
  unfolding some_address gather
  push_if_found-IsBest [] c = inl (tt, refl)
  push_if_found-IsBest (a ∷ targets) c =
      let (b, p, e, _) = gather-Gathered packet judges (a ∷ targets) false int_min in
      let best : IsBest judges.verdict (a ∷ targets) packet c (push_if packet (ok (b, p)) c) =
        subst (λ r. IsBest judges.verdict (a ∷ targets) packet c (push_if packet r c)) e
          (gather-IsBest packet judges (a ∷ targets) c) in
      subst
        (λ r.
          IsBest judges.verdict (a ∷ targets) packet c
            (push_if_found judge packet (r >>= (λ v. ok (true, v.0, v.1))) c))
        (sym e) best

  -- Where the filter throws nothing and its priorities are in the range of an int,
  -- `send_to_system_` queues the packet if it is accepted for one of the listed addresses that have
  -- the system ID, once and with the highest of the priorities of those for which it is, and else
  -- queues nothing.
  pub send_to_system-IsBest :
      (now sys : ℕ) (c : Connection)
      → IsBest judges.verdict
          (of_system sys (addresses now c.pool).0)
          packet
          (record c { pool = (addresses now c.pool).1 })
          (send_to_system judge now packet sys c)
  unfolding send_to_system
  send_to_system-IsBest now sys c =
      rw (gather_system-gather sys (addresses now c.pool).0 false false int_min)
        (push_if_found-IsBest (of_system sys (addresses now c.pool).0) _)

  push_if-IsBest :
      (dest : MavAddress) (c : Connection)
      → IsBest judges.verdict (dest ∷ []) packet c (push_if packet (judge packet dest) c)
  push_if-IsBest dest c = rw (judges.returns dest) (elim (Bool-cases (judges.verdict dest).0) [
    | inl accepted ↦
        inr (
          (judges.verdict dest).1,
          (inr (omega arith), tt),
          inl (accepted, omega arith),
          rw accepted,
        )
    | inr rejected ↦ inl ((rejected, tt), rw rejected)
  ])

  push_or-push_if :
      (r : Bool × ℤ) (found : Bool) (later : Sent) (c : Connection)
      → later ≡ (if found then push_if packet (ok r) c else (ok [], c))
      → push_or judge packet (ok r) c later ≡ push_if packet (ok r) c
  push_or-push_if (true, p) found later c e = refl
  push_or-push_if (false, p) true later c e = e
  push_or-push_if (false, p) false later c e = e

  try_components-push_if :
      (dest : MavAddress) (all : List MavAddress) (c : Connection)
      → try_components judge packet dest all c ≡ (
          if some_address (of_system (system dest) all)
          then push_if packet (judge packet dest) c
          else (ok [], c))
  unfolding try_components of_system some_address
  try_components-push_if dest [] c = refl
  try_components-push_if dest (a ∷ all) c = elim (Bool-cases (system a == system dest)) [
    | inl same ↦
        rw (same, eq-flip (system dest) (system a) ∙ same, judges.returns dest)
          (push_or-push_if (judges.verdict dest) (some_address (of_system (system dest) all)) _ c
            (try_components-push_if dest all c ∙ rw (judges.returns dest)))
    | inr other ↦
        rw (other, eq-flip (system dest) (system a) ∙ other) (try_components-push_if dest all c)
  ]

  -- Where the filter throws nothing and its priorities are in the range of an int,
  -- `send_to_address_` queues the packet, once and with the priority that the filter gives for the
  -- destination, if the filter accepts it for the destination and the connection reaches the
  -- destination or another component of its system, and else queues nothing.
  pub send_to_address-IsBest :
      (now later : ℕ) (dest : MavAddress) (c : Connection)
      → (c' : Connection) × (c'.queue ≡ c.queue)
        × IsBest judges.verdict
            (reached now later dest c)
            packet
            c'
            (send_to_address judge now later packet dest c)
  unfolding send_to_address reached
  send_to_address-IsBest now later dest c = elim (Bool-cases (contains now dest c.pool).0) [
    | inl found ↦ (
      record c { pool = (contains now dest c.pool).1 },
      refl,
      rw (found, send_to_address) (push_if-IsBest dest _),
    )
    | inr absent ↦
        let pool' = addresses later (contains now dest c.pool).1 in
        let c' : Connection = record c { pool = pool'.1 } in
        (
          c',
          refl,
          rw (absent, send_to_address, try_components-push_if dest pool'.0 c')
              (elim (Bool-cases (some_address (of_system (system dest) pool'.0))) [
                | inl other ↦ rw other (push_if-IsBest dest c')
                | inr none_left ↦ rw none_left (inl (tt, refl))
              ]),
        )
  ]
