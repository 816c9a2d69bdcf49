-- ===== src/PacketV2/Dest.antt =====
-- The source and the destination of a version 2 packet.
use mavtables.Prelude.{
  ℕ, suc, zero, ◌+◌, ◌≤◌, ◌<◌, ◌≡◌, refl, ap, ◌∙◌, ◌⊎◌, inl, inr, true, false, Option, none, some,
  [], ◌∷◌, arith, Bytes, All, IsByte, length, get_or, lt→ltb, take, drop, ltb, Bool-cases,
  if◌then◌else◌,
}
use mavtables.Prelude.Exception.{Result, ok, ◌>>=◌, byte_at, byte_at-inside}
use mavtables.Mavlink.{Library, MessageEntry}
use mavtables.MavAddress.{MavAddress, system, component}
use mavtables.MavAddress.Fields.{construct-bytes}
use mavtables.PacketV2.Construct.{the_header-ok}
use mavtables.PacketV2.{
  Header, header_length, expected_length, header, header_complete, cast_header, source, dest,
  dest_system, dest_component, to_dest,
}

-- The fields of a header are bytes of the packet.
header-IsByte :
    (bytes : Bytes) (h : Header)
    → All IsByte bytes
    → header bytes ≡ some h
    → IsByte h.sysid × IsByte h.compid × IsByte h.len
unfolding header header_complete cast_header
header-IsByte [] h q r = ground arith
header-IsByte (a ∷ []) h q r = ground arith
header-IsByte (a ∷ b ∷ []) h q r = ground arith
header-IsByte (a ∷ b ∷ c ∷ []) h q r = ground arith
header-IsByte (a ∷ b ∷ c ∷ d ∷ []) h q r = ground arith
header-IsByte (a ∷ b ∷ c ∷ d ∷ e ∷ []) h q r = ground arith
header-IsByte (a ∷ b ∷ c ∷ d ∷ e ∷ f ∷ []) h q r = ground arith
header-IsByte (a ∷ b ∷ c ∷ d ∷ e ∷ f ∷ g ∷ []) h q r = ground arith
header-IsByte (a ∷ b ∷ c ∷ d ∷ e ∷ f ∷ g ∷ i ∷ []) h q r = ground arith
header-IsByte (a ∷ b ∷ c ∷ d ∷ e ∷ f ∷ g ∷ i ∷ j ∷ []) h q r = ground arith
header-IsByte (a ∷ b ∷ c ∷ d ∷ e ∷ f ∷ g ∷ i ∷ j ∷ k ∷ rest) h q r = ground arith

-- The source of a packet of bytes is the address of its two ID bytes; no exception is thrown.
pub source_v2-fields :
    (bytes : Bytes) (h : Header)
    → All IsByte bytes
    → header bytes ≡ some h
    → (a : MavAddress) × (source bytes ≡ ok a) × (system a ≡ h.sysid) × (component a ≡ h.compid)
unfolding source
source_v2-fields bytes h b e =
    let (sys, comp, _) = header-IsByte bytes h b e in
    rw (the_header-ok bytes h e) (construct-bytes h.sysid h.compid sys comp)

-- The payload, as long as the header gives it.
abbrev pub payload : Bytes → Header → Bytes
payload bytes h = take h.len (drop header_length bytes)

get_or-drop : (k i : ℕ) (xs : Bytes) → get_or (drop k xs) i 0 ≡ get_or xs (i + k) 0
get_or-drop zero i xs = ap (λ (j : ℕ). get_or xs j 0) (omega arith)
get_or-drop (suc k) i [] = refl
get_or-drop (suc k) i (x ∷ xs) =
    get_or-drop k i xs ∙ ap (λ (j : ℕ). get_or (x ∷ xs) j 0) {x = suc (i + k)} (omega arith)

get_or-take :
    (n i : ℕ) (xs : Bytes) → get_or (take n xs) i 0 ≡ (if ltb i n then get_or xs i 0 else 0)
get_or-take zero i xs = ground arith
get_or-take (suc n) i [] = ground arith
get_or-take (suc n) zero (x ∷ xs) = ground arith
get_or-take (suc n) (suc i) (x ∷ xs) = ground (arith, get_or-take n i xs)

-- The byte that a target field reads: the payload's, or zero where it is cut off.
target : Bytes → Header → ℕ → ℕ
target bytes h offset = get_or (payload bytes h) offset 0

byte_at-target :
    (bytes : Bytes) (h : Header) (offset : ℕ)
    → All IsByte bytes
    → header_length + h.len ≤ length bytes
    → offset < h.len
    → (byte_at bytes (offset + header_length) ≡ ok (target bytes h offset))
      × IsByte (target bytes h offset)
unfolding target
byte_at-target bytes h offset all fits inside =
    let read : target bytes h offset ≡ get_or bytes (offset + header_length) 0 =
      get_or-take h.len offset (drop header_length bytes)
      ∙ rw (lt→ltb offset h.len inside) (get_or-drop header_length offset bytes) in
    rw read (byte_at-inside bytes (offset + header_length) (omega arith) all)

target-outside :
    (bytes : Bytes) (h : Header) (offset : ℕ) → h.len ≤ offset → target bytes h offset ≡ 0
unfolding target
target-outside bytes h offset outside =
    get_or-take h.len offset (drop header_length bytes) ∙ ground arith

dest_system-target :
    (bytes : Bytes) (h : Header) (e : MessageEntry)
    → All IsByte bytes
    → header_length + h.len ≤ length bytes
    → e.have_target_system ≡ true
    → (dest_system bytes h e ≡ ok (some (target bytes h e.target_system_ofs)))
      × IsByte (target bytes h e.target_system_ofs)
unfolding dest_system
dest_system-target bytes h e all fits have = elim (Bool-cases (ltb e.target_system_ofs h.len)) [
  | inl inside ↦ ground (arith, byte_at-target bytes h e.target_system_ofs all fits)
  | inr outside ↦ ground (arith, target-outside bytes h e.target_system_ofs)
]

-- What `dest` takes for the component ID.
abbrev target_component : Bytes → Header → MessageEntry → ℕ
target_component bytes h e =
    if e.have_target_component then target bytes h e.target_component_ofs else 0

dest_component-target :
    (bytes : Bytes) (h : Header) (e : MessageEntry)
    → All IsByte bytes
    → header_length + h.len ≤ length bytes
    → (dest_component bytes h e ≡ ok (target_component bytes h e))
      × IsByte (target_component bytes h e)
unfolding dest_component
dest_component-target bytes h e all fits = elim (Bool-cases (ltb e.target_component_ofs h.len)) [
  | inl inside ↦ ground (arith, byte_at-target bytes h e.target_component_ofs all fits)
  | inr outside ↦ ground (arith, target-outside bytes h e.target_component_ofs)
]

to_dest-some :
    (s c : ℕ)
    → s < 256
    → c < 256
    → (a : MavAddress) × (to_dest (some s) c ≡ ok (some a)) × (system a ≡ s) × (component a ≡ c)
unfolding to_dest
to_dest-some s c hs hc =
    let (a, made, sys, comp) = construct-bytes s c hs hc in (a, rw made, sys, comp)

-- There is no destination if the message has no target system, and otherwise it is made of the two
-- target fields, where a field that the payload leaves out counts as zero.
abbrev pub IsDest : Library → Bytes → Header → MessageEntry → Result (Option MavAddress) → Type 0
IsDest lib bytes h e r =
    ((e.have_target_system ≡ false) × (r ≡ ok none))
    ⊎ ((e.have_target_system ≡ true)
        × ((a : MavAddress) × (r ≡ ok (some a))
            × (system a ≡ get_or (payload bytes h) e.target_system_ofs 0)
            × (component a ≡ (
                if e.have_target_component
                then get_or (payload bytes h) e.target_component_ofs 0
                else 0))))

-- The destination of a complete packet whose message is known is always found: there is none if the
-- message has no target system, and otherwise it is made of the two target fields, where a field
-- that the payload leaves out counts as zero. Nothing outside of the payload is read.
pub dest-target :
    (lib : Library) (bytes : Bytes) (h : Header) (e : MessageEntry)
    → All IsByte bytes
    → header bytes ≡ some h
    → length bytes ≡ expected_length lib h
    → lib.msg_entry h.msgid ≡ some e
    → IsDest lib bytes h e (dest lib bytes)
unfolding target
dest-target lib bytes h e all complete len entry = elim (Bool-cases e.have_target_system) [
  | inl have ↦
      let (sys, s_byte) = dest_system-target bytes h e all fits have in
      let (a, made, s, c) = to_dest-some _ _ s_byte comp.1 in
      inr (have, (a, rw (start, sys, comp.0) made, s, c))
  | inr lacks ↦ inl (lacks, rw (start, no_system lacks, comp.0) (unfold to_dest in refl))
]
  where
    fits : header_length + h.len ≤ length bytes
    fits = unfold expected_length in ground arith

    comp :
        (dest_component bytes h e ≡ ok (target_component bytes h e))
        × IsByte (target_component bytes h e)
    comp = dest_component-target bytes h e all fits

    start :
        dest lib bytes ≡ (do s ← dest_system bytes h e; c ← dest_component bytes h e; to_dest s c)
    start = unfold dest in rw (the_header-ok bytes h complete, entry)

    no_system : e.have_target_system ≡ false → dest_system bytes h e ≡ ok none
    no_system lacks = unfold dest_system in rw lacks
