-- ===== src/UnixUdpSocket/Rate.antt =====
-- The rate limit of a UDP socket.
use mavtables.Prelude.{
  ℕ, ◌+◌, ◌-◌, ◌≤◌, ◌≡◌, refl, ap, ◌∙◌, false, ◌==◌, ltb, length, Bytes, arith, if◌then◌else◌,
}
use mavtables.Prelude.Int.{ℤ}
use mavtables.IpAddress.{IpAddress}
use mavtables.UnixUdpSocket.{UnixUdpSocket, send_duration, limit, send}

-- When a packet is sent that `send` is called with at `now`, and the socket afterwards.
abbrev pub sent_at : Bytes → IpAddress → ℕ → ℤ → UnixUdpSocket → ℕ
sent_at bytes address now sent s = (send bytes address now sent s).1

abbrev pub after_send : Bytes → IpAddress → ℕ → ℤ → UnixUdpSocket → UnixUdpSocket
after_send bytes address now sent s = (send bytes address now sent s).3

-- The time that a packet takes at the highest bitrate.
abbrev pub airtime : Bytes → UnixUdpSocket → ℕ
airtime bytes s = send_duration (length bytes) s.max_bitrate

limit-limited :
    (size now : ℕ) (s : UnixUdpSocket)
    → (s.max_bitrate == 0) ≡ false
    → limit size now s ≡ (
      if ltb now s.next_time then s.next_time - now else 0,
      record s { next_time = now + send_duration size s.max_bitrate },
    )
unfolding limit
limit-limited size now s limited = rw limited refl

-- With a limit: the time of the call or of the last packet's deadline, the later one, and the deadline
-- of this packet.
limited-sent_at :
    (bytes : Bytes) (address : IpAddress) (now : ℕ) (sent : ℤ) (s : UnixUdpSocket)
    → (s.max_bitrate == 0) ≡ false
    → (now ≤ sent_at bytes address now sent s)
      × (s.next_time ≤ sent_at bytes address now sent s)
      × (sent_at bytes address now sent s ≤ now + (s.next_time - now))
      × ((after_send bytes address now sent s).next_time ≡ now + airtime bytes s)
      × ((after_send bytes address now sent s).max_bitrate ≡ s.max_bitrate)
unfolding send
limited-sent_at bytes address now sent s limited =
    let l = limit-limited (length bytes) now s limited in
    let t : sent_at bytes address now sent s
        ≡ now + (if ltb now s.next_time then s.next_time - now else 0) =
      ap (λ p. now + p.0) l in
    (
      ground arith,
      ground arith,
      ground arith,
      ap (λ p. p.1.next_time) l,
      ap (λ p. p.1.max_bitrate) l,
    )

-- Every packet is called for when the one before has been sent, or later.
module _ (first second third : Bytes) (address : IpAddress) (r : ℤ) (s : UnixUdpSocket)
    (limited : (s.max_bitrate == 0) ≡ false) (t1 t2 t3 : ℕ) where
  abbrev pub s1 : UnixUdpSocket
  s1 = after_send first address t1 r s

  abbrev pub s2 : UnixUdpSocket
  s2 = after_send second address t2 r s1

  -- The limit counts from the call and not from the sending: with a highest bitrate, where three
  -- packets are handed over to a socket that need not wait for an earlier packet, the second at the
  -- time of the first and the third when the second is sent, and the second takes no longer than the
  -- first, the third is sent in the same instant as the second.
  pub send-burst :
      s.next_time ≤ t1
      → t2 ≡ t1
      → t3 ≡ sent_at second address t2 r s1
      → airtime second s ≤ airtime first s
      → sent_at third address t3 r s2 ≡ sent_at second address t2 r s1
  send-burst idle at_once no_pause shorter =
      let (a, b, c, d, e) = limited-sent_at first address t1 r s limited in
      let limited1 = ap (λ n. n == 0) e ∙ limited in
      let (a1, b1, c1, d1, e1) = limited-sent_at second address t2 r s1 limited1 in
      let limited2 = ap (λ n. n == 0) e1 ∙ limited1 in
      let (a2, b2, c2, d2, e2) = limited-sent_at third address t3 r s2 limited2 in
      let same : airtime second s1 ≡ airtime second s =
        ap (λ n. send_duration (length second) n) e in
      omega arith
