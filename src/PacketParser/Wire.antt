-- ===== src/PacketParser/Wire.antt =====
-- What a parser reads of a header is what the constructor of the packet will find there.
use mavtables.Prelude.{
  ℕ, ◌+◌, ◌≤◌, ◌<◌, ◌≡◌, ◌≢◌, refl, sym, ap, ◌∙◌, true, false, some, [], ◌∷◌, ◌++◌, Bytes, length,
  arith, length-append,
}
use mavtables.Prelude.Exception.{Result, ok}
use mavtables.Mavlink.{Library}
use mavtables.Packet.{Version, v1, v2}
use mavtables.PacketV1
use mavtables.PacketV1.Construct as V1Construct
use mavtables.PacketV2
use mavtables.PacketV2.Construct as V2Construct
use mavtables.PacketParser.{header_complete, remaining, construct}

pub v1_starts-prefix :
    (pre suf : Bytes) → pre ≢ [] → PacketV1.starts (pre ++ suf) ≡ PacketV1.starts pre
unfolding PacketV1.starts
v1_starts-prefix [] suf h = absurd (h refl)
v1_starts-prefix (b ∷ pre) suf h = refl

pub v2_starts-prefix :
    (pre suf : Bytes) → pre ≢ [] → PacketV2.starts (pre ++ suf) ≡ PacketV2.starts pre
unfolding PacketV2.starts
v2_starts-prefix [] suf h = absurd (h refl)
v2_starts-prefix (b ∷ pre) suf h = refl

v1_cast-prefix :
    (pre suf : Bytes)
    → 6 ≤ length pre
    → PacketV1.cast_header (pre ++ suf) ≡ PacketV1.cast_header pre
unfolding PacketV1.cast_header
v1_cast-prefix [] suf h = absurd (omega arith)
v1_cast-prefix (_ ∷ []) suf h = absurd (omega arith)
v1_cast-prefix (_ ∷ _ ∷ []) suf h = absurd (omega arith)
v1_cast-prefix (_ ∷ _ ∷ _ ∷ []) suf h = absurd (omega arith)
v1_cast-prefix (_ ∷ _ ∷ _ ∷ _ ∷ []) suf h = absurd (omega arith)
v1_cast-prefix (_ ∷ _ ∷ _ ∷ _ ∷ _ ∷ []) suf h = absurd (omega arith)
v1_cast-prefix (_ ∷ _ ∷ _ ∷ _ ∷ _ ∷ _ ∷ pre) suf h = refl

v2_cast-prefix :
    (pre suf : Bytes)
    → 10 ≤ length pre
    → PacketV2.cast_header (pre ++ suf) ≡ PacketV2.cast_header pre
unfolding PacketV2.cast_header
v2_cast-prefix [] suf h = absurd (omega arith)
v2_cast-prefix (_ ∷ []) suf h = absurd (omega arith)
v2_cast-prefix (_ ∷ _ ∷ []) suf h = absurd (omega arith)
v2_cast-prefix (_ ∷ _ ∷ _ ∷ []) suf h = absurd (omega arith)
v2_cast-prefix (_ ∷ _ ∷ _ ∷ _ ∷ []) suf h = absurd (omega arith)
v2_cast-prefix (_ ∷ _ ∷ _ ∷ _ ∷ _ ∷ []) suf h = absurd (omega arith)
v2_cast-prefix (_ ∷ _ ∷ _ ∷ _ ∷ _ ∷ _ ∷ []) suf h = absurd (omega arith)
v2_cast-prefix (_ ∷ _ ∷ _ ∷ _ ∷ _ ∷ _ ∷ _ ∷ []) suf h = absurd (omega arith)
v2_cast-prefix (_ ∷ _ ∷ _ ∷ _ ∷ _ ∷ _ ∷ _ ∷ _ ∷ []) suf h = absurd (omega arith)
v2_cast-prefix (_ ∷ _ ∷ _ ∷ _ ∷ _ ∷ _ ∷ _ ∷ _ ∷ _ ∷ []) suf h = absurd (omega arith)
v2_cast-prefix (_ ∷ _ ∷ _ ∷ _ ∷ _ ∷ _ ∷ _ ∷ _ ∷ _ ∷ _ ∷ pre) suf h = refl

pub v1_header-prefix :
    (pre suf : Bytes)
    → PacketV1.header_complete pre ≡ true
    → PacketV1.header (pre ++ suf) ≡ PacketV1.header pre
unfolding PacketV1.header PacketV1.header_complete
v1_header-prefix [] suf h = absurd (unfold PacketV1.starts in ground arith)
v1_header-prefix (b ∷ pre) suf h = ground (
  arith,
  v1_starts-prefix (b ∷ pre) suf (λ e. cc),
  v1_cast-prefix (b ∷ pre) suf (ground arith),
  length-append (b ∷ pre) suf,
)

pub v1_just_complete :
    (pre : Bytes) (b : ℕ)
    → pre ≢ []
    → PacketV1.header_complete pre ≡ false
    → PacketV1.header_complete (pre ++ b ∷ []) ≡ true
    → length (pre ++ b ∷ []) ≡ 6
unfolding PacketV1.header_complete
v1_just_complete pre b some_byte before after =
    ground (arith, length-append pre (b ∷ []), v1_starts-prefix pre (b ∷ []) some_byte)

pub v2_header-prefix :
    (pre suf : Bytes)
    → PacketV2.header_complete pre ≡ true
    → PacketV2.header (pre ++ suf) ≡ PacketV2.header pre
unfolding PacketV2.header PacketV2.header_complete
v2_header-prefix [] suf h = absurd (unfold PacketV2.starts in ground arith)
v2_header-prefix (b ∷ pre) suf h = ground (
  arith,
  v2_starts-prefix (b ∷ pre) suf (λ e. cc),
  v2_cast-prefix (b ∷ pre) suf (ground arith),
  length-append (b ∷ pre) suf,
)

pub v2_just_complete :
    (pre : Bytes) (b : ℕ)
    → pre ≢ []
    → PacketV2.header_complete pre ≡ false
    → PacketV2.header_complete (pre ++ b ∷ []) ≡ true
    → length (pre ++ b ∷ []) ≡ 10
unfolding PacketV2.header_complete
v2_just_complete pre b some_byte before after =
    ground (arith, length-append pre (b ∷ []), v2_starts-prefix pre (b ∷ []) some_byte)

module _ (lib : Library) where
  v1_accepted :
      (bytes kept : Bytes) (r : Result Bytes)
      → r ≡ ok kept
      → V1Construct.Outcome lib bytes r
      → (h : PacketV1.Header) × (PacketV1.header bytes ≡ some h)
        × (length bytes ≡ 6 + h.len + 2)
        × (kept ≡ bytes)
  v1_accepted bytes kept r e (V1Construct.empty _ x) = absurd (cc)
  v1_accepted bytes kept r e (V1Construct.wrong_start _ _ x) = absurd (cc)
  v1_accepted bytes kept r e (V1Construct.short_header _ _ x) = absurd (cc)
  v1_accepted bytes kept r e (V1Construct.unknown_id _ _ _ x) = absurd (cc)
  v1_accepted bytes kept r e (V1Construct.wrong_length _ _ _ _ _ x) = absurd (cc)
  v1_accepted bytes kept r e (V1Construct.accepted h _ read _ long x) =
      (h, read, long, ground arith)

  v2_accepted :
      (bytes kept : Bytes) (r : Result Bytes)
      → r ≡ ok kept
      → V2Construct.Checks lib bytes r
      → (h : PacketV2.Header) × (PacketV2.header bytes ≡ some h)
        × (length bytes ≡ PacketV2.expected_length lib h)
        × (kept ≡ bytes)
  v2_accepted bytes kept r e (V2Construct.empty _ x) = absurd (cc)
  v2_accepted bytes kept r e (V2Construct.wrong_start _ _ x) = absurd (cc)
  v2_accepted bytes kept r e (V2Construct.short_header _ _ x) = absurd (cc)
  v2_accepted bytes kept r e (V2Construct.unknown_id _ _ _ x) = absurd (cc)
  v2_accepted bytes kept r e (V2Construct.wrong_length _ _ _ _ _ x) = absurd (cc)
  v2_accepted bytes kept r e (V2Construct.accepted h _ read _ long x) =
      (h, read, long, ground arith)

  v1_completes :
      (x suf kept : Bytes)
      → PacketV1.header_complete x ≡ true
      → length x ≡ 6
      → PacketV1.construct_packet lib (x ++ suf) ≡ ok kept
      → (remaining lib v1 x ≡ ok (length suf)) × (0 < length suf)
  unfolding remaining
  v1_completes x suf kept complete six accepted =
      let (h, read, long, _) =
        v1_accepted (x ++ suf) kept _ accepted
          (V1Construct.construct_packet_v1-Outcome lib (x ++ suf)) in
      let rest : h.len + 2 ≡ length suf = omega (arith, length-append x suf) in
      (
        rw (V1Construct.the_header-ok x h (sym (v1_header-prefix x suf complete) ∙ read))
            (ap ok rest),
        omega arith,
      )

  v2_completes :
      (x suf kept : Bytes)
      → PacketV2.header_complete x ≡ true
      → length x ≡ 10
      → PacketV2.construct_packet lib (x ++ suf) ≡ ok kept
      → (remaining lib v2 x ≡ ok (length suf)) × (0 < length suf)
  unfolding remaining PacketV2.is_signed PacketV2.expected_length
  v2_completes x suf kept complete ten accepted =
      let (h, read, long, _) =
        v2_accepted (x ++ suf) kept _ accepted
          (V2Construct.construct_packet_v2-Checks lib (x ++ suf)) in
      let total : 10 + length suf ≡ length (x ++ suf) = omega (arith, length-append x suf) in
      (
        rw (V2Construct.the_header-ok x h (sym (v2_header-prefix x suf complete) ∙ read), complete)
            (ap ok (ground arith)),
        ground arith,
      )

  -- The two versions together: once a header has just been completed, as many bytes remain as the
  -- constructor will want.
  pub remaining-completes :
      (v : Version) (pre : Bytes) (b : ℕ) (suf kept : Bytes)
      → pre ≢ []
      → header_complete v pre ≡ false
      → header_complete v (pre ++ b ∷ []) ≡ true
      → construct lib v ((pre ++ b ∷ []) ++ suf) ≡ ok kept
      → (remaining lib v (pre ++ b ∷ []) ≡ ok (length suf)) × (0 < length suf)
  unfolding header_complete construct
  remaining-completes v1 pre b suf kept some_byte before after =
      v1_completes (pre ++ b ∷ []) suf kept after (v1_just_complete pre b some_byte before after)
  remaining-completes v2 pre b suf kept some_byte before after =
      v2_completes (pre ++ b ∷ []) suf kept after (v2_just_complete pre b some_byte before after)

  -- An accepted packet is kept as it is, begins with a start byte and has a complete header.
  pub construct_complete :
      (v : Version) (bytes kept : Bytes)
      → construct lib v bytes ≡ ok kept
      → (header_complete v bytes ≡ true) × (kept ≡ bytes)
  unfolding header_complete construct PacketV1.header PacketV2.header
  construct_complete v1 bytes kept accepted =
      let (h, read, long, same) =
        v1_accepted bytes kept _ accepted (V1Construct.construct_packet_v1-Outcome lib bytes) in
      (ground arith, same)
  construct_complete v2 bytes kept accepted =
      let (h, read, long, same) =
        v2_accepted bytes kept _ accepted (V2Construct.construct_packet_v2-Checks lib bytes) in
      (ground arith, same)
