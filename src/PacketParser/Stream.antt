-- ===== src/PacketParser/Stream.antt =====
-- What a parser makes of a stream of packets, with other bytes between them.
use mavtables.Prelude.{
  ℕ, suc, ◌<◌, ◌≡◌, ◌≢◌, refl, sym, ap, ◌∙◌, subst, true, false, none, some, List, [], ◌∷◌, ◌++◌,
  map, Bytes, length, arith, ◌==◌, inl, inr, All, Bool-cases, append-nil,
}
use mavtables.Prelude.Exception.{ok}
use mavtables.Mavlink.{Library}
use mavtables.Packet.{Packet, Version, v1, v2}
use mavtables.PacketV1
use mavtables.PacketV2
use mavtables.PacketParser.{
  fresh, waiting_for_header, waiting_for_packet, header_complete, construct, feed, keep, parse_byte,
  start_byte, header_byte, packet_byte, decrement,
}
use mavtables.PacketParser.Wire.{remaining-completes, construct_complete}

abbrev pub packet_of : Version → Bytes → Packet
packet_of v bytes = record { version = v; bytes = bytes; connection = none }

append-snoc : (pre : Bytes) (b : ℕ) (suf : Bytes) → pre ++ b ∷ suf ≡ (pre ++ b ∷ []) ++ suf
append-snoc [] b suf = refl
append-snoc (c ∷ pre) b suf = ap (λ s. c ∷ s) (append-snoc pre b suf)

pub snoc-ne-nil : (pre : Bytes) (b : ℕ) → pre ++ b ∷ [] ≢ []
snoc-ne-nil [] b = λ e. cc
snoc-ne-nil (c ∷ pre) b = λ e. cc

pub suc-ne-zero : (n : ℕ) → (suc n == 0) ≡ false
suc-ne-zero n = ground arith

-- A byte that starts no packet.
abbrev pub IsJunk : ℕ → Type 0
IsJunk b = ((b == PacketV1.start_byte) ≡ false) × ((b == PacketV2.start_byte) ≡ false)

-- Some junk, and a packet that the constructor of its version accepts.
pub record Frame (lib : Library) : Type 0 where
  pub junk : Bytes
  pub version : Version
  pub bytes : Bytes
  pub junk-IsJunk : All IsJunk junk
  pub accepted : construct lib version bytes ≡ ok bytes

module _ (lib : Library) where
  feed-packet_phase :
      (v : Version) (pre suf more : Bytes)
      → 0 < length suf
      → construct lib v (pre ++ suf) ≡ ok (pre ++ suf)
      → feed lib
          (record {
            buffer = pre;
            state = waiting_for_packet;
            version = v;
            bytes_remaining = length suf;
          })
          (suf ++ more)
        ≡ keep lib (some (packet_of v (pre ++ suf))) (feed lib fresh more)
  unfolding feed parse_byte packet_byte decrement
  feed-packet_phase v pre [] more some_bytes accepted = absurd (omega arith)
  feed-packet_phase v pre (b ∷ []) more some_bytes accepted = rw (accepted)
  feed-packet_phase v pre (b ∷ c ∷ suf) more some_bytes accepted = rw (suc-ne-zero (length suf)) (
      subst
        (λ bytes.
          feed lib
            (record {
              buffer = pre ++ b ∷ [];
              state = waiting_for_packet;
              version = v;
              bytes_remaining = suc (length suf);
            })
            ((c ∷ suf) ++ more)
          ≡ keep lib (some (packet_of v bytes)) (feed lib fresh more))
        (sym (append-snoc pre b (c ∷ suf)))
        (feed-packet_phase v (pre ++ b ∷ []) (c ∷ suf) more (omega arith) (
          subst (λ bytes. construct lib v bytes ≡ ok bytes) (append-snoc pre b (c ∷ suf))
            accepted)))

  feed-header_phase :
      (v : Version) (pre suf more : Bytes)
      → pre ≢ []
      → header_complete v pre ≡ false
      → construct lib v (pre ++ suf) ≡ ok (pre ++ suf)
      → feed lib
          (record { buffer = pre; state = waiting_for_header; version = v; bytes_remaining = 0 })
          (suf ++ more)
        ≡ keep lib (some (packet_of v (pre ++ suf))) (feed lib fresh more)
  unfolding feed parse_byte header_byte
  feed-header_phase v pre [] more some_byte before accepted = absurd (
      ground (
        arith,
        (construct_complete lib v pre (pre ++ [])
            (subst (λ x. construct lib v x ≡ ok (pre ++ [])) (append-nil pre) accepted)).0,
      ))
  feed-header_phase v pre (b ∷ suf) more some_byte before accepted =
      let again : construct lib v ((pre ++ b ∷ []) ++ suf) ≡ ok ((pre ++ b ∷ []) ++ suf) =
        subst (λ bytes. construct lib v bytes ≡ ok bytes) (append-snoc pre b suf) accepted in
      rw (append-snoc pre b suf) (elim (Bool-cases (header_complete v (pre ++ b ∷ []))) [
        | inl complete ↦
            let (count, some_bytes) =
              remaining-completes lib v pre b suf _ some_byte before complete again in
            rw (complete, count) (feed-packet_phase v (pre ++ b ∷ []) suf more some_bytes again)
        | inr incomplete ↦
            rw incomplete
              (feed-header_phase v (pre ++ b ∷ []) suf more (snoc-ne-nil pre b) incomplete again)
      ])

  feed-starts :
      (v : Version) (b : ℕ) (suf more : Bytes)
      → header_complete v (b ∷ suf) ≡ true
      → feed lib fresh (b ∷ (suf ++ more))
        ≡ feed lib
            (record {
              buffer = b ∷ [];
              state = waiting_for_header;
              version = v;
              bytes_remaining = 0;
            })
            (suf ++ more)
  unfolding feed parse_byte start_byte header_complete PacketV1.header_complete
      PacketV2.header_complete PacketV1.starts PacketV2.starts
  feed-starts v1 b suf more complete = ap (λ p. feed lib p (suf ++ more)) (ground arith)
  feed-starts v2 b suf more complete = ap (λ p. feed lib p (suf ++ more)) (ground arith)

  nil-incomplete : (v : Version) → header_complete v [] ≡ false
  unfolding header_complete PacketV1.header_complete PacketV2.header_complete
  nil-incomplete v1 = refl
  nil-incomplete v2 = refl

  first_byte-incomplete : (v : Version) (b : ℕ) → header_complete v (b ∷ []) ≡ false
  unfolding header_complete PacketV1.header_complete PacketV2.header_complete
  first_byte-incomplete v1 b = refl
  first_byte-incomplete v2 b = refl

  feed-packet :
      (v : Version) (bytes more : Bytes)
      → construct lib v bytes ≡ ok bytes
      → feed lib fresh (bytes ++ more) ≡ keep lib (some (packet_of v bytes)) (feed lib fresh more)
  feed-packet v [] more accepted =
      absurd (ground (arith, nil-incomplete v, (construct_complete lib v [] _ accepted).0))
  feed-packet v (b ∷ suf) more accepted =
      feed-starts v b suf more (construct_complete lib v (b ∷ suf) _ accepted).0
      ∙ feed-header_phase v (b ∷ []) suf more (λ e. cc) (first_byte-incomplete v b) accepted

  feed-junk :
      (junk more : Bytes) → All IsJunk junk → feed lib fresh (junk ++ more) ≡ feed lib fresh more
  unfolding feed parse_byte start_byte
  feed-junk [] more all = refl
  feed-junk (b ∷ junk) more all = rw (all.0.0, all.0.1) (feed-junk junk more all.1)

  unfoldable pub stream : List (Frame lib) → Bytes → Bytes
  stream [] tail = tail
  stream (f ∷ frames) tail = f.junk ++ (f.bytes ++ stream frames tail)

  -- Packets that the constructors accept, one behind the other or with bytes between them that start
  -- no packet, are all returned by the parser, unchanged and in their order, no exception is thrown,
  -- and the parser is left as a new one.
  pub feed-stream :
      (frames : List (Frame lib)) (tail : Bytes)
      → All IsJunk tail
      → feed lib fresh (stream frames tail)
        ≡ (ok (map (λ f. packet_of f.version f.bytes) frames), fresh)
  unfolding stream
  feed-stream [] tail all =
      ap (feed lib fresh) (sym (append-nil tail)) ∙ feed-junk tail [] all ∙ (unfold feed in refl)
  feed-stream (f ∷ frames) tail all =
      feed-junk f.junk (f.bytes ++ stream frames tail) f.junk-IsJunk
      ∙ feed-packet f.version f.bytes (stream frames tail) f.accepted
      ∙ ap (keep lib (some (packet_of f.version f.bytes))) (feed-stream frames tail all)
