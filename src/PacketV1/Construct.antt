-- ===== src/PacketV1/Construct.antt =====
-- What the constructor of a version 1 packet accepts.
use mavtables.Prelude.{
  ℕ, ◌+◌, ◌<◌, ◌≡◌, ◌≢◌, refl, ◌∙◌, inl, inr, true, false, none, some, [], ◌∷◌, arith, Bytes,
  length, ◌==◌, Bool-cases, Option-cases, if◌then◌else◌, ==_iff,
}
use mavtables.Prelude.Exception.{
  Result, ok, err, invalid_argument, length_error, invalid_packet_id_error, ◌>>◌,
}
use native.Mathlib.Decide.{ℕ_discrete}
use mavtables.Mavlink.{Library, MessageInfo}
use mavtables.PacketV1.{
  Header, header_length, checksum_length, starts, header_complete, cast_header, header, the_header,
  packet_complete, check_start, check_id, construct_packet,
}

-- A complete header can be read.
pub header-some :
    (bytes : Bytes) → header_complete bytes ≡ true → (h : Header) × (header bytes ≡ some h)
unfolding header starts cast_header
header-some [] c = absurd (ground arith)
header-some (a ∷ []) c = absurd (ground arith)
header-some (a ∷ b ∷ []) c = absurd (ground arith)
header-some (a ∷ b ∷ d ∷ []) c = absurd (ground arith)
header-some (a ∷ b ∷ d ∷ e ∷ []) c = absurd (ground arith)
header-some (a ∷ b ∷ d ∷ e ∷ f ∷ []) c = absurd (ground arith)
header-some (a ∷ b ∷ d ∷ e ∷ f ∷ g ∷ rest) c =
    (record { magic = a; len = b; seq = d; sysid = e; compid = f; msgid = g }, ground arith)

pub the_header-ok : (bytes : Bytes) (h : Header) → header bytes ≡ some h → the_header bytes ≡ ok h
unfolding the_header
the_header-ok bytes h e = rw (e, the_header)

-- The outcomes of the constructor, each with the bytes that lead to it.
pub data Outcome (lib : Library) (bytes : Bytes) (r : Result Bytes) : Type 0 where
  empty : bytes ≡ [] → r ≡ err length_error → Outcome lib bytes r
  wrong_start : bytes ≢ [] → starts bytes ≡ false → r ≡ err invalid_argument → Outcome lib bytes r
  short_header :
      starts bytes ≡ true
      → length bytes < header_length
      → r ≡ err length_error
      → Outcome lib bytes r
  unknown_id :
      (h : Header)
      → header bytes ≡ some h
      → lib.message_info_by_id h.msgid ≡ none
      → r ≡ err (invalid_packet_id_error h.msgid)
      → Outcome lib bytes r
  wrong_length :
      (h : Header) (info : MessageInfo)
      → header bytes ≡ some h
      → lib.message_info_by_id h.msgid ≡ some info
      → length bytes ≢ header_length + h.len + checksum_length
      → r ≡ err length_error
      → Outcome lib bytes r
  accepted :
      (h : Header) (info : MessageInfo)
      → header bytes ≡ some h
      → lib.message_info_by_id h.msgid ≡ some info
      → length bytes ≡ header_length + h.len + checksum_length
      → r ≡ ok bytes
      → Outcome lib bytes r

module _ (lib : Library) where
  after_header :
      (b : ℕ) (rest : Bytes) (h : Header)
      → header_complete (b ∷ rest) ≡ true
      → header (b ∷ rest) ≡ some h
      → construct_packet lib (b ∷ rest) ≡ (
          check_id lib h.msgid
          >> (if length (b ∷ rest) == header_length + h.len + checksum_length
              then ok (b ∷ rest)
              else err length_error))
  unfolding construct_packet check_start the_header packet_complete
  after_header b rest h c e = ground arith

  with_header :
      (b : ℕ) (rest : Bytes) (h : Header)
      → header_complete (b ∷ rest) ≡ true
      → header (b ∷ rest) ≡ some h
      → Outcome lib (b ∷ rest) (construct_packet lib (b ∷ rest))
  unfolding check_id
  with_header b rest h c e = elim (Option-cases (lib.message_info_by_id h.msgid)) [
    | inl unknown ↦ unknown_id h e unknown (after_header b rest h c e ∙ rw (unknown, check_id))
    | inr (info, known) ↦
        elim (ℕ_discrete (length (b ∷ rest)) (header_length + h.len + checksum_length)) [
          | yes same ↦
              accepted h info e known same
                (after_header b rest h c e ∙ rw (known, check_id, (==_iff _ _).1 same))
          | no other ↦
              wrong_length h info e known other
                (after_header b rest h c e ∙ rw (known, check_id) (ground arith))
        ]
  ]

  -- The constructor accepts exactly the bytes that begin with a version 1 header of a known message
  -- and have the length that the header gives; each other case has the exception named in `Outcome`.
  pub construct_packet_v1-Outcome : (bytes : Bytes) → Outcome lib bytes (construct_packet lib bytes)
  unfolding construct_packet check_start header_complete
  construct_packet_v1-Outcome [] = empty refl refl
  construct_packet_v1-Outcome (b ∷ rest) = elim (Bool-cases (header_complete (b ∷ rest))) [
    | inl c ↦ let (h, e) = header-some (b ∷ rest) c in with_header b rest h c e
    | inr c ↦ elim (Bool-cases (starts (b ∷ rest))) [
      | inl s ↦ short_header s (ground arith) (ground arith)
      | inr s ↦ wrong_start (λ e. cc) s (ground arith)
    ]
  ]
