-- ===== src/PacketParser/Valid.antt =====
-- The states of a parser, whatever bytes it is given.
use mavtables.Prelude.{
  ℕ, zero, suc, ◌+◌, ◌<◌, ◌≡◌, ◌≢◌, refl, ap, ◌∙◌, Bool, true, false, Option, none, some, [], ◌∷◌,
  ◌++◌, Bytes, length, arith, ◌==◌, inl, inr, Bool-cases, length-append,
}
use mavtables.Prelude.Exception.{ok}
use mavtables.Mavlink.{Library}
use mavtables.Packet.{Packet, Version, v1, v2}
use mavtables.PacketV1
use mavtables.PacketV2
use mavtables.PacketParser.{
  PacketParser, State, waiting_for_start_byte, fresh, waiting_for_header, waiting_for_packet,
  header_complete, parse_byte, start_byte, header_byte, packet_byte, decrement, Step,
}
use mavtables.PacketParser.Wire.{v1_starts-prefix, v2_starts-prefix}
use mavtables.PacketParser.Stream.{snoc-ne-nil, suc-ne-zero}
use mavtables.PacketParser.Expected.{expected, header-remaining, expected-prefix, construct-settled}

unfoldable pub starts : Version → Bytes → Bool
starts v1 = PacketV1.starts
starts v2 = PacketV2.starts

-- A new parser has no bytes. In a header there are some bytes, the first of which is the start byte
-- of the version, and no complete header. In a packet the header is complete, its message ID may be
-- unknown, and the bytes that remain are at least one and make up the length that the header gives.
abbrev pub InState : Library → State → Version → Bytes → ℕ → Type 0
InState lib waiting_for_start_byte v buffer n = (buffer ≡ []) × (v ≡ v2) × (n ≡ 0)
InState lib waiting_for_header v buffer n =
    (buffer ≢ []) × (starts v buffer ≡ true) × (header_complete v buffer ≡ false) × (n ≡ 0)
InState lib waiting_for_packet v buffer n =
    (header_complete v buffer ≡ true)
    × ((m : ℕ) × (expected lib v buffer ≡ some m) × (length buffer + n ≡ m))
    × (0 < n)

abbrev pub IsValid : Library → PacketParser → Type 0
IsValid lib p = InState lib p.state p.version p.buffer p.bytes_remaining

abbrev Survives : Library → Step → Type 0
Survives lib step = ((packet : Option Packet) × (step.0 ≡ ok packet)) × IsValid lib step.1

module _ (lib : Library) where
  fresh-IsValid : IsValid lib fresh
  fresh-IsValid = (refl, refl, refl)

  start_byte-Survives : (b : ℕ) → Survives lib (ok none, start_byte fresh b)
  unfolding start_byte starts PacketV1.starts PacketV2.starts header_complete
      PacketV1.header_complete PacketV2.header_complete
  start_byte-Survives b = elim (Bool-cases (b == PacketV1.start_byte)) [
    | inl one ↦ rw (one, start_byte) ((none, refl), ((λ e. cc), one, refl, refl))
    | inr other ↦ elim (Bool-cases (b == PacketV2.start_byte)) [
      | inl two ↦ rw (other, start_byte, two) ((none, refl), ((λ e. cc), two, refl, refl))
      | inr neither ↦ rw (other, start_byte, neither) ((none, refl), (refl, refl, refl))
    ]
  ]

  starts-prefix : (v : Version) (pre suf : Bytes) → pre ≢ [] → starts v (pre ++ suf) ≡ starts v pre
  unfolding starts
  starts-prefix v1 = v1_starts-prefix
  starts-prefix v2 = v2_starts-prefix

  header_byte-Survives :
      (v : Version) (pre : Bytes) (b : ℕ)
      → InState lib waiting_for_header v pre 0
      → Survives lib (
          header_byte lib
            (record { buffer = pre; state = waiting_for_header; version = v; bytes_remaining = 0 })
            b)
  unfolding header_byte
  header_byte-Survives v pre b (some_byte, begins, before, zero_left) =
      elim (Bool-cases (header_complete v (pre ++ b ∷ []))) [
        | inl after ↦
            let (n, count, long, some_bytes) =
              header-remaining lib v pre b some_byte before after in
            rw (after, header_byte, count) ((none, refl), (after, (_, long, refl), some_bytes))
        | inr incomplete ↦
            rw (incomplete, header_byte)
              (
                (none, refl),
                (
                  snoc-ne-nil pre b,
                  starts-prefix v pre (b ∷ []) some_byte ∙ begins,
                  incomplete,
                  refl,
                ),
              )
      ]

  packet_byte-Survives :
      (v : Version) (pre : Bytes) (n b : ℕ)
      → InState lib waiting_for_packet v pre n
      → Survives lib (
          packet_byte lib
            (record { buffer = pre; state = waiting_for_packet; version = v; bytes_remaining = n })
            b)
  unfolding packet_byte decrement
  packet_byte-Survives v pre zero b (complete, long, some_bytes) = absurd (omega arith)
  packet_byte-Survives v pre (suc zero) b (complete, (m, long, total), some_bytes) =
      let (same, still) = expected-prefix lib v pre (b ∷ []) complete in
      elim (construct-settled lib v (pre ++ b ∷ []) still
        (same ∙ long ∙ ap some (omega (arith, length-append pre (b ∷ []))))) [
          | inl accepted ↦ rw (accepted, packet_byte) ((_, refl), fresh-IsValid)
          | inr (id, unknown) ↦ rw (unknown, packet_byte) ((_, refl), fresh-IsValid)
        ]
  packet_byte-Survives v pre (suc (suc n)) b (complete, (m, long, total), some_bytes) =
      let (same, still) = expected-prefix lib v pre (b ∷ []) complete in
      rw (suc-ne-zero n, packet_byte)
        (
          (none, refl),
          (still, (m, same ∙ long, omega (arith, length-append pre (b ∷ []))), omega arith),
        )

  fields-Survive :
      (s : State) (v : Version) (buffer : Bytes) (n b : ℕ)
      → InState lib s v buffer n
      → Survives lib (
          parse_byte lib
            (record { buffer = buffer; state = s; version = v; bytes_remaining = n })
            b)
  unfolding parse_byte
  fields-Survive waiting_for_start_byte v buffer n b (empty, two, zero_left) =
      rw (empty, two, zero_left) (start_byte-Survives b)
  fields-Survive waiting_for_header v buffer n b (some_byte, begins, before, zero_left) =
      rw zero_left (header_byte-Survives v buffer b (some_byte, begins, before, refl))
  fields-Survive waiting_for_packet v buffer n b valid = packet_byte-Survives v buffer n b valid

  -- From a valid state, `parse_byte` throws no exception, whichever the byte is, and leaves a valid
  -- state: there `bytes_remaining_` is what is missing of the length that the header gives.
  pub parse_byte-IsValid :
      (p : PacketParser) (b : ℕ)
      → IsValid lib p
      → ((packet : Option Packet) × ((parse_byte lib p b).0 ≡ ok packet))
        × IsValid lib (parse_byte lib p b).1
  parse_byte-IsValid p b valid = fields-Survive p.state p.version p.buffer p.bytes_remaining b valid
