-- ===== src/PacketParser/Expected.antt =====
-- The length that a complete header gives, and what the constructor makes of that many bytes.
use mavtables.Prelude.{
  ℕ, ◌+◌, ◌<◌, ◌≡◌, ◌≢◌, ap, subst, true, false, Option, none, some, [], ◌∷◌, ◌++◌, Bytes, length,
  arith, inl, inr, ◌⊎◌, Bool-cases, length-append,
}
use mavtables.Prelude.Exception.{Result, ok, err, invalid_packet_id_error}
use mavtables.Mavlink.{Library}
use mavtables.Packet.{Version, v1, v2}
use mavtables.PacketV1
use mavtables.PacketV1.Construct as V1Construct
use mavtables.PacketV2
use mavtables.PacketV2.Construct as V2Construct
use mavtables.PacketParser.{header_complete, remaining, construct}
use mavtables.PacketParser.Wire.{
  v1_header-prefix, v2_header-prefix, v1_just_complete, v2_just_complete,
}

-- The length that a header gives.
unfoldable pub expected : Library → Version → Bytes → Option ℕ
expected lib v1 bytes = elim (PacketV1.header bytes) [ some h ↦ some (6 + h.len + 2) | none ↦ none ]
expected lib v2 bytes = elim (PacketV2.header bytes) [
  | some h ↦ some (PacketV2.expected_length lib h)
  | none ↦ none
]

module _ (lib : Library) where
  pub header-remaining :
      (v : Version) (pre : Bytes) (b : ℕ)
      → pre ≢ []
      → header_complete v pre ≡ false
      → header_complete v (pre ++ b ∷ []) ≡ true
      → (n : ℕ) × (remaining lib v (pre ++ b ∷ []) ≡ ok n)
        × (expected lib v (pre ++ b ∷ []) ≡ some (length (pre ++ b ∷ []) + n))
        × (0 < n)
  unfolding header_complete remaining expected PacketV2.is_signed PacketV2.expected_length
  header-remaining v1 pre b some_byte before after =
      let (h, read) = V1Construct.header-some (pre ++ b ∷ []) after in
      (
        h.len + 2,
        rw (V1Construct.the_header-ok (pre ++ b ∷ []) h read),
        rw (read, expected, v1_just_complete pre b some_byte before after) (ap some (omega arith)),
        omega arith,
      )
  header-remaining v2 pre b some_byte before after =
      let (h, read) = V2Construct.header-some (pre ++ b ∷ []) after in
      elim (Bool-cases (lib.has_signature h.incompat_flags)) [
        | inl signed ↦ (
          (h.len + 2) + 13,
          rw (V2Construct.the_header-ok (pre ++ b ∷ []) h read, after, signed),
          rw (read, expected, signed, v2_just_complete pre b some_byte before after)
              (ap some (omega arith)),
          omega arith,
        )
        | inr plain ↦ (
          h.len + 2,
          rw (V2Construct.the_header-ok (pre ++ b ∷ []) h read, after, plain),
          rw (read, expected, plain, v2_just_complete pre b some_byte before after)
              (ap some (omega arith)),
          omega arith,
        )
      ]

  pub expected-prefix :
      (v : Version) (pre suf : Bytes)
      → header_complete v pre ≡ true
      → (expected lib v (pre ++ suf) ≡ expected lib v pre) × (header_complete v (pre ++ suf) ≡ true)
  unfolding header_complete expected PacketV1.header_complete PacketV2.header_complete
      PacketV1.starts PacketV2.starts
  expected-prefix v1 [] suf complete = absurd (ground arith)
  expected-prefix v1 (b ∷ pre) suf complete = (
    rw (v1_header-prefix (b ∷ pre) suf complete, expected),
    ground (arith, length-append (b ∷ pre) suf),
  )
  expected-prefix v2 [] suf complete = absurd (ground arith)
  expected-prefix v2 (b ∷ pre) suf complete = (
    rw (v2_header-prefix (b ∷ pre) suf complete, expected),
    ground (arith, length-append (b ∷ pre) suf),
  )

  v1_settled :
      (bytes : Bytes) (r : Result Bytes)
      → PacketV1.header_complete bytes ≡ true
      → expected lib v1 bytes ≡ some (length bytes)
      → V1Construct.Outcome lib bytes r
      → (r ≡ ok bytes) ⊎ ((id : ℕ) × (r ≡ err (invalid_packet_id_error id)))
  unfolding expected PacketV1.header_complete PacketV1.starts
  v1_settled bytes r complete long (V1Construct.empty e x) =
      absurd (ground (arith, subst (λ s. PacketV1.header_complete s ≡ true) e complete))
  v1_settled bytes r complete long (V1Construct.wrong_start _ e x) = absurd (ground arith)
  v1_settled bytes r complete long (V1Construct.short_header _ e x) = absurd (ground arith)
  v1_settled bytes r complete long (V1Construct.unknown_id h _ _ x) = inr (h.msgid, x)
  v1_settled bytes r complete long (V1Construct.wrong_length h _ read _ e x) = absurd (ground arith)
  v1_settled bytes r complete long (V1Construct.accepted h _ read _ e x) = inl x

  v2_settled :
      (bytes : Bytes) (r : Result Bytes)
      → PacketV2.header_complete bytes ≡ true
      → expected lib v2 bytes ≡ some (length bytes)
      → V2Construct.Checks lib bytes r
      → (r ≡ ok bytes) ⊎ ((id : ℕ) × (r ≡ err (invalid_packet_id_error id)))
  unfolding expected PacketV2.header_complete PacketV2.starts
  v2_settled bytes r complete long (V2Construct.empty e x) =
      absurd (ground (arith, subst (λ s. PacketV2.header_complete s ≡ true) e complete))
  v2_settled bytes r complete long (V2Construct.wrong_start _ e x) = absurd (ground arith)
  v2_settled bytes r complete long (V2Construct.short_header _ e x) = absurd (ground arith)
  v2_settled bytes r complete long (V2Construct.unknown_id h _ _ x) = inr (h.msgid, x)
  v2_settled bytes r complete long (V2Construct.wrong_length h _ read _ e x) = absurd (ground arith)
  v2_settled bytes r complete long (V2Construct.accepted h _ read _ e x) = inl x

  pub construct-settled :
      (v : Version) (bytes : Bytes)
      → header_complete v bytes ≡ true
      → expected lib v bytes ≡ some (length bytes)
      → (construct lib v bytes ≡ ok bytes)
        ⊎ ((id : ℕ) × (construct lib v bytes ≡ err (invalid_packet_id_error id)))
  unfolding header_complete construct
  construct-settled v1 bytes complete long =
      v1_settled bytes _ complete long (V1Construct.construct_packet_v1-Outcome lib bytes)
  construct-settled v2 bytes complete long =
      v2_settled bytes _ complete long (V2Construct.construct_packet_v2-Checks lib bytes)
