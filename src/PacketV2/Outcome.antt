-- ===== src/PacketV2/Outcome.antt =====
-- What the constructor of a version 2 packet accepts, byte by byte on the wire.
use mavtables.Prelude.{
  ℕ, ◌*◌, ◌+◌, ◌<◌, ◌≡◌, ◌≢◌, refl, sym, ap, ◌∙◌, none, some, [], ◌∷◌, arith, Bytes, length,
  if◌then◌else◌,
}
use mavtables.Prelude.Exception.{
  Result, ok, err, invalid_argument, length_error, invalid_packet_id_error,
}
use mavtables.Mavlink.{Library, MessageInfo}
use mavtables.PacketV2.{
  Header, expected_length, starts, header_complete, cast_header, header, construct_packet,
}
use mavtables.PacketV2.Construct.{Checks, construct_packet_v2-Checks}
use mavtables.PacketV2.Construct

-- The bytes that a version 2 header has behind the start byte, and those behind the header.
pub record Wire : Type 0 where
  pub len : ℕ
  pub incompat : ℕ
  pub compat : ℕ
  pub seq : ℕ
  pub system : ℕ
  pub component : ℕ
  pub id_low : ℕ
  pub id_mid : ℕ
  pub id_high : ℕ
  pub rest : Bytes

abbrev pub bytes_of : Wire → Bytes
bytes_of w =
    0xfd ∷ w.len ∷ w.incompat ∷ w.compat ∷ w.seq ∷ w.system ∷ w.component ∷ w.id_low ∷ w.id_mid
    ∷ w.id_high ∷ w.rest

abbrev pub id_of : Wire → ℕ
id_of w = w.id_low + 256 * w.id_mid + 65536 * w.id_high

-- The header, the payload, the checksum and, where the flag is set, the signature.
abbrev pub length_of : Library → Wire → ℕ
length_of lib w = if lib.has_signature w.incompat then 10 + w.len + 2 + 13 else 10 + w.len + 2

-- The outcomes of the constructor, each with the bytes that lead to it.
pub data Outcome (lib : Library) (bytes : Bytes) (r : Result Bytes) : Type 0 where
  empty : bytes ≡ [] → r ≡ err length_error → Outcome lib bytes r
  wrong_start :
      (b : ℕ) (rest : Bytes)
      → bytes ≡ b ∷ rest
      → b ≢ 0xfd
      → r ≡ err invalid_argument
      → Outcome lib bytes r
  short_header :
      (rest : Bytes)
      → bytes ≡ 0xfd ∷ rest
      → length bytes < 10
      → r ≡ err length_error
      → Outcome lib bytes r
  unknown_id :
      (w : Wire)
      → bytes ≡ bytes_of w
      → lib.message_info_by_id (id_of w) ≡ none
      → r ≡ err (invalid_packet_id_error (id_of w))
      → Outcome lib bytes r
  wrong_length :
      (w : Wire) (info : MessageInfo)
      → bytes ≡ bytes_of w
      → lib.message_info_by_id (id_of w) ≡ some info
      → length bytes ≢ length_of lib w
      → r ≡ err length_error
      → Outcome lib bytes r
  accepted :
      (w : Wire) (info : MessageInfo)
      → bytes ≡ bytes_of w
      → lib.message_info_by_id (id_of w) ≡ some info
      → length bytes ≡ length_of lib w
      → r ≡ ok bytes
      → Outcome lib bytes r

-- The header that is read of these bytes.
abbrev Reads : Wire → Header → Type 0
Reads w h = (h.len ≡ w.len) × (h.incompat_flags ≡ w.incompat) × (h.msgid ≡ id_of w)

wire_of :
    (bytes : Bytes) (h : Header)
    → header bytes ≡ some h
    → (w : Wire) × (bytes ≡ bytes_of w) × Reads w h
unfolding header starts header_complete cast_header
wire_of [] h e = absurd (ground arith)
wire_of (a ∷ []) h e = absurd (ground arith)
wire_of (a ∷ b ∷ []) h e = absurd (ground arith)
wire_of (a ∷ b ∷ c ∷ []) h e = absurd (ground arith)
wire_of (a ∷ b ∷ c ∷ d ∷ []) h e = absurd (ground arith)
wire_of (a ∷ b ∷ c ∷ d ∷ f ∷ []) h e = absurd (ground arith)
wire_of (a ∷ b ∷ c ∷ d ∷ f ∷ g ∷ []) h e = absurd (ground arith)
wire_of (a ∷ b ∷ c ∷ d ∷ f ∷ g ∷ i ∷ []) h e = absurd (ground arith)
wire_of (a ∷ b ∷ c ∷ d ∷ f ∷ g ∷ i ∷ j ∷ []) h e = absurd (ground arith)
wire_of (a ∷ b ∷ c ∷ d ∷ f ∷ g ∷ i ∷ j ∷ k ∷ []) h e = absurd (ground arith)
wire_of (a ∷ b ∷ c ∷ d ∷ f ∷ g ∷ i ∷ j ∷ k ∷ l ∷ rest) h e = (
  record {
    len = b;
    incompat = c;
    compat = d;
    seq = f;
    system = g;
    component = i;
    id_low = j;
    id_mid = k;
    id_high = l;
    rest = rest;
  },
  (let first : a ≡ 0xfd = ground arith in
      ap (λ x. x ∷ b ∷ c ∷ d ∷ f ∷ g ∷ i ∷ j ∷ k ∷ l ∷ rest) first),
  (ground arith, ground arith, ground arith),
)

module _ (lib : Library) where
  Reads-length_of : (w : Wire) (h : Header) → Reads w h → expected_length lib h ≡ length_of lib w
  unfolding expected_length
  Reads-length_of w h (len, flags, id) = ground arith

  Checks-Outcome : (bytes : Bytes) (r : Result Bytes) → Checks lib bytes r → Outcome lib bytes r
  unfolding starts
  Checks-Outcome bytes r (Construct.empty none_there x) = empty none_there x
  Checks-Outcome [] r (Construct.wrong_start given s x) = absurd (given refl)
  Checks-Outcome (b ∷ rest) r (Construct.wrong_start given s x) =
      wrong_start b rest refl (ground arith) x
  Checks-Outcome [] r (Construct.short_header s n x) = absurd (cc)
  Checks-Outcome (b ∷ rest) r (Construct.short_header s n x) =
      let first : b ≡ 0xfd = ground arith in short_header rest (ap (λ c. c ∷ rest) first) n x
  Checks-Outcome bytes r (Construct.unknown_id h read unknown x) =
      let (w, shape, reads) = wire_of bytes h read in
      let same = reads.2 in
      unknown_id w shape (sym (ap lib.message_info_by_id same) ∙ unknown)
        (x ∙ ap (λ n. err (invalid_packet_id_error n)) same)
  Checks-Outcome bytes r (Construct.wrong_length h info read known other x) =
      let (w, shape, reads) = wire_of bytes h read in
      let long = Reads-length_of w h reads in
      wrong_length w info shape (sym (ap lib.message_info_by_id reads.2) ∙ known)
        (λ e. other (e ∙ sym long)) x
  Checks-Outcome bytes r (Construct.accepted h info read known same x) =
      let (w, shape, reads) = wire_of bytes h read in
      accepted w info shape (sym (ap lib.message_info_by_id reads.2) ∙ known)
        (same ∙ Reads-length_of w h reads) x

  -- The constructor accepts exactly the bytes that begin with a version 2 header of a known message,
  -- the byte 0xfd and nine more, and have the length of the header, the payload that the header gives,
  -- the checksum, and the signature if its flag says that there is one; each other case has the
  -- exception named in `Outcome`.
  pub construct_packet_v2-Outcome : (bytes : Bytes) → Outcome lib bytes (construct_packet lib bytes)
  construct_packet_v2-Outcome bytes =
      Checks-Outcome bytes (construct_packet lib bytes) (construct_packet_v2-Checks lib bytes)
