-- ===== src/UnixSerialPort/Speeds.antt =====
-- The baud rates that a serial port supports.
use mavtables.Prelude.{
  ℕ, ◌≡◌, refl, sym, subst, List, [], ◌∷◌, ◌⊎◌, inl, inr, ◌==◌, ==_iff, All, Bool-cases,
}
use mavtables.Prelude.Exception.{ok, Gives, Gives-ok}
use mavtables.UnixSerialPort.{Speed, speeds, find_speed, speed_constant}

-- Bits per second; B134 is 134.5.
abbrev pub rate : Speed → ℕ
rate Speed.b0 = 0
rate Speed.b50 = 50
rate Speed.b75 = 75
rate Speed.b110 = 110
rate Speed.b134 = 134
rate Speed.b150 = 150
rate Speed.b200 = 200
rate Speed.b300 = 300
rate Speed.b600 = 600
rate Speed.b1200 = 1200
rate Speed.b1800 = 1800
rate Speed.b2400 = 2400
rate Speed.b4800 = 4800
rate Speed.b9600 = 9600
rate Speed.b19200 = 19200
rate Speed.b38400 = 38400
rate Speed.b57600 = 57600
rate Speed.b115200 = 115200
rate Speed.b230400 = 230400

abbrev Meant : ℕ × Speed → Type 0
Meant (n, speed) = (rate speed ≡ n) ⊎ ((n ≡ 135) × (rate speed ≡ 134))

find_speed-Meant :
    (baud_rate : ℕ) (table : List (ℕ × Speed))
    → All Meant table
    → Gives (λ speed. Meant (baud_rate, speed)) (find_speed baud_rate table)
unfolding find_speed
find_speed-Meant baud_rate [] all = tt
find_speed-Meant baud_rate ((n, speed) ∷ table) (first, all) = elim (Bool-cases (baud_rate == n)) [
  | inl same ↦ rw same (subst (λ m. Meant (m, speed)) (sym ((==_iff baud_rate n).0 same)) first)
  | inr other ↦ rw other (find_speed-Meant baud_rate table all)
]

speeds-Meant : All Meant speeds
speeds-Meant = (
  inl refl,
  (
    inl refl,
    (
      inl refl,
      (
        inl refl,
        (
          inl refl,
          (
            inr (refl, refl),
            (
              inl refl,
              (
                inl refl,
                (
                  inl refl,
                  (
                    inl refl,
                    (
                      inl refl,
                      (
                        inl refl,
                        (
                          inl refl,
                          (
                            inl refl,
                            (
                              inl refl,
                              (inl refl, (inl refl, (inl refl, (inl refl, (inl refl, tt))))),
                            ),
                          ),
                        ),
                      ),
                    ),
                  ),
                ),
              ),
            ),
          ),
        ),
      ),
    ),
  ),
)

-- The speed that is set on a serial port is the baud rate that was asked for, or 134 for 135.
pub speed_constant-rate :
    (baud_rate : ℕ) (speed : Speed)
    → speed_constant baud_rate ≡ ok speed
    → (rate speed ≡ baud_rate) ⊎ ((baud_rate ≡ 135) × (rate speed ≡ 134))
unfolding speed_constant
speed_constant-rate baud_rate speed e =
    Gives-ok (λ s. Meant (baud_rate, s)) (speed_constant baud_rate) speed
      (find_speed-Meant baud_rate speeds speeds-Meant) e
