-- ===== src/PacketV2/Construct.antt =====
-- What the constructor of a version 2 packet accepts.
use mavtables.Prelude.{
  ℕ, ◌*◌, ◌^◌, ◌+◌, ◌<◌, ◌≡◌, ◌≢◌, refl, ◌∙◌, inl, inr, true, false, none, some, [], ◌∷◌, arith,
  Bytes, length, ◌==◌, Bool-cases, Option-cases, if◌then◌else◌, ==_iff,
}
use mavtables.Prelude.Exception.{
  Result, ok, err, invalid_argument, length_error, invalid_packet_id_error, ◌>>◌,
}
use native.Mathlib.Decide.{ℕ_discrete}
use mavtables.Mavlink.{Library, MessageInfo}
use mavtables.PacketV2.{
  Header, header_length, expected_length, starts, header_complete, cast_header, header, the_header,
  packet_complete, check_start, check_id, construct_packet,
}

-- A complete header can be read.
pub header-some :
    (bytes : Bytes) → header_complete bytes ≡ true → (h : Header) × (header bytes ≡ some h)
unfolding header starts cast_header
header-some [] q = absurd (ground arith)
header-some (a ∷ []) q = absurd (ground arith)
header-some (a ∷ b ∷ []) q = absurd (ground arith)
header-some (a ∷ b ∷ c ∷ []) q = absurd (ground arith)
header-some (a ∷ b ∷ c ∷ d ∷ []) q = absurd (ground arith)
header-some (a ∷ b ∷ c ∷ d ∷ e ∷ []) q = absurd (ground arith)
header-some (a ∷ b ∷ c ∷ d ∷ e ∷ f ∷ []) q = absurd (ground arith)
header-some (a ∷ b ∷ c ∷ d ∷ e ∷ f ∷ g ∷ []) q = absurd (ground arith)
header-some (a ∷ b ∷ c ∷ d ∷ e ∷ f ∷ g ∷ i ∷ []) q = absurd (ground arith)
header-some (a ∷ b ∷ c ∷ d ∷ e ∷ f ∷ g ∷ i ∷ j ∷ []) q = absurd (ground arith)
header-some (a ∷ b ∷ c ∷ d ∷ e ∷ f ∷ g ∷ i ∷ j ∷ k ∷ rest) q = (
  record {
    magic = a;
    len = b;
    incompat_flags = c;
    compat_flags = d;
    seq = e;
    sysid = f;
    compid = g;
    msgid = i + j * 2 ^ 8 + k * 2 ^ 16;
  },
  ground arith,
)

pub the_header-ok : (bytes : Bytes) (h : Header) → header bytes ≡ some h → the_header bytes ≡ ok h
unfolding the_header
the_header-ok bytes h e = rw (e, the_header)

-- The checks of the constructor that fail, and what is known where none does.
pub data Checks (lib : Library) (bytes : Bytes) (r : Result Bytes) : Type 0 where
  empty : bytes ≡ [] → r ≡ err length_error → Checks lib bytes r
  wrong_start : bytes ≢ [] → starts bytes ≡ false → r ≡ err invalid_argument → Checks lib bytes r
  short_header :
      starts bytes ≡ true → length bytes < header_length → r ≡ err length_error → Checks lib bytes r
  unknown_id :
      (h : Header)
      → header bytes ≡ some h
      → lib.message_info_by_id h.msgid ≡ none
      → r ≡ err (invalid_packet_id_error h.msgid)
      → Checks lib bytes r
  wrong_length :
      (h : Header) (info : MessageInfo)
      → header bytes ≡ some h
      → lib.message_info_by_id h.msgid ≡ some info
      → length bytes ≢ expected_length lib h
      → r ≡ err length_error
      → Checks lib bytes r
  accepted :
      (h : Header) (info : MessageInfo)
      → header bytes ≡ some h
      → lib.message_info_by_id h.msgid ≡ some info
      → length bytes ≡ expected_length lib h
      → r ≡ ok bytes
      → Checks lib bytes r

module _ (lib : Library) where
  after_header :
      (b : ℕ) (rest : Bytes) (h : Header)
      → header_complete (b ∷ rest) ≡ true
      → header (b ∷ rest) ≡ some h
      → construct_packet lib (b ∷ rest) ≡ (
          check_id lib h.msgid
          >> (if length (b ∷ rest) == expected_length lib h
              then ok (b ∷ rest)
              else err length_error))
  unfolding construct_packet check_start the_header packet_complete
  after_header b rest h c e = ground arith

  with_header :
      (b : ℕ) (rest : Bytes) (h : Header)
      → header_complete (b ∷ rest) ≡ true
      → header (b ∷ rest) ≡ some h
      → Checks lib (b ∷ rest) (construct_packet lib (b ∷ rest))
  unfolding check_id
  with_header b rest h c e = elim (Option-cases (lib.message_info_by_id h.msgid)) [
    | inl unknown ↦ unknown_id h e unknown (after_header b rest h c e ∙ rw (unknown, check_id))
    | inr (info, known) ↦ elim (ℕ_discrete (length (b ∷ rest)) (expected_length lib h)) [
      | yes same ↦
          accepted h info e known same
            (after_header b rest h c e ∙ rw (known, check_id, (==_iff _ _).1 same))
      | no other ↦
          wrong_length h info e known other
            (after_header b rest h c e ∙ rw (known, check_id) (ground arith))
    ]
  ]

  pub construct_packet_v2-Checks : (bytes : Bytes) → Checks lib bytes (construct_packet lib bytes)
  unfolding construct_packet check_start header_complete
  construct_packet_v2-Checks [] = empty refl refl
  construct_packet_v2-Checks (b ∷ rest) = elim (Bool-cases (header_complete (b ∷ rest))) [
    | inl c ↦ let (h, e) = header-some (b ∷ rest) c in with_header b rest h c e
    | inr c ↦ elim (Bool-cases (starts (b ∷ rest))) [
      | inl s ↦ short_header s (ground arith) (ground arith)
      | inr s ↦ wrong_start (λ e. cc) s (ground arith)
    ]
  ]
