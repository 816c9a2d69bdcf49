-- ===== src/UnixSerialPort/Descriptors.antt =====
-- Which descriptors a serial port opens and closes.
use mavtables.Prelude.{
  ℕ, ◌+◌, ◌≤◌, ◌≡◌, refl, ap, ◌∙◌, Bool, true, false, List, [], ◌∷◌, ◌++◌, Bytes, ◌⊎◌, inl, inr,
  Bool-cases, arith, if◌then◌else◌,
}
use mavtables.Prelude.Int.{ℤ, eq_ℤ}
use mavtables.Prelude.Exception.{Result, ok, err, Exception}
use mavtables.UnixSerialPort.{
  UnixSerialPort, Answers, Call, close, events, Speed, failed, with_speed, configure_port,
  configured, open_port, destroy, read, reopened, speed_constant,
}

-- How often a descriptor is closed.
unfoldable pub closes : ℤ → List Call → ℕ
closes fd [] = 0
closes fd (close d ∷ calls) = (if eq_ℤ d fd then 1 else 0) + closes fd calls
closes fd (call ∷ calls) = closes fd calls

closes-append : (fd : ℤ) (xs ys : List Call) → closes fd (xs ++ ys) ≡ closes fd xs + closes fd ys
unfolding closes
closes-append fd [] ys = omega arith
closes-append fd (close d ∷ xs) ys = let e = closes-append fd xs ys in omega arith
closes-append fd (x ∷ xs) ys = closes-append fd xs ys

eq_ℤ-self : (d : ℤ) → eq_ℤ d d ≡ true
eq_ℤ-self d = ground arith

-- Configuring closes nothing.
with_speed-closes :
    (fd : ℤ) (a : Answers) (s : UnixSerialPort) (r : Result Speed)
    → closes fd (with_speed a s r).1 ≡ 0
unfolding closes
with_speed-closes fd a s (ok speed) = refl
with_speed-closes fd a s (err e) = refl

configure_port-closes :
    (fd : ℤ) (a : Answers) (s : UnixSerialPort) → closes fd (configure_port a s).1 ≡ 0
unfolding configure_port closes
configure_port-closes fd a s = elim (Bool-cases (failed a.got)) [
  | inl missing ↦ rw missing refl
  | inr got ↦ rw got (with_speed-closes fd a s (speed_constant s.baud_rate))
]

-- Where opening has succeeded, its descriptor is open; where it has failed, either there is none or it
-- has been closed once.
abbrev pub Balanced : Answers → Result (Unit {0}) × List Call × UnixSerialPort → Type 0
Balanced a (ok v, calls, s) =
    (failed s.port ≡ false) × (s.port ≡ a.opened) × (closes a.opened calls ≡ 0)
Balanced a (err e, calls, s) =
    (s.port ≡ a.opened) × ((failed a.opened ≡ true) ⊎ (closes a.opened calls ≡ 1))

configured-Balanced :
    (a : Answers) (s : UnixSerialPort) (q : Result (Unit {0}) × List Call)
    → s.port ≡ a.opened
    → failed a.opened ≡ false
    → closes a.opened q.1 ≡ 0
    → Balanced a (configured s q)
unfolding closes
configured-Balanced a s (ok v, calls) same opened none_closed =
    (ap failed same ∙ opened, same, none_closed)
configured-Balanced a s (err e, calls) same opened none_closed =
    let one : closes a.opened (close s.port ∷ []) ≡ 1 = rw (same, eq_ℤ-self a.opened) refl in
    (same, inr (closes-append a.opened calls (close s.port ∷ []) ∙ omega arith))

-- Opening a serial port keeps the descriptor open exactly if it returns: where the device cannot be
-- configured, it is closed once, whatever failed.
pub open_port-Balanced : (a : Answers) (s : UnixSerialPort) → Balanced a (open_port a s)
unfolding open_port
open_port-Balanced a s = elim (Bool-cases (failed a.opened)) [
  | inl missing ↦ rw missing (refl, inl missing)
  | inr opened ↦ rw opened (
      configured-Balanced a (record s { port = a.opened }) _ refl opened
        (configure_port-closes a.opened a (record s { port = a.opened })))
]

reopened-closes :
    (a : Answers) (calls : List Call) (q : Result (Unit {0}) × List Call × UnixSerialPort)
    (e : Exception)
    → Balanced a q
    → failed a.opened ≡ false
    → q.0 ≡ err e
    → let (r, calls', s') = reopened calls q in
      closes a.opened (calls' ++ destroy s') ≡ closes a.opened calls + 2
unfolding closes destroy
reopened-closes a calls (ok v, more, s) e balanced opened failed_again = absurd (cc)
reopened-closes a calls (err x, more, s) e (same, inl missing) opened failed_again = absurd (cc)
reopened-closes a calls (err x, more, s) e (same, inr one) opened failed_again =
    let last : closes a.opened (close s.port ∷ []) ≡ 1 = rw (same, eq_ℤ-self a.opened) refl in
    closes-append a.opened (calls ++ more) (close s.port ∷ [])
    ∙ ap (λ n. n + closes a.opened (close s.port ∷ [])) (closes-append a.opened calls more)
    ∙ omega arith

-- Where reading finds an error on the port, opens the device again, and cannot configure it, the new
-- descriptor is closed when the exception is thrown and once more when the port is destroyed.
pub read-closes_twice :
    (in_events : Bool) (a : Answers) (size : ℤ) (buffer : Bytes) (s : UnixSerialPort)
    (e : Exception)
    → failed a.opened ≡ false
    → (open_port a s).0 ≡ err e
    → let (r, calls, s') = read (events true in_events) a size buffer s in
      2 ≤ closes a.opened (calls ++ destroy s')
unfolding read
read-closes_twice in_events a size buffer s e opened failed_again =
    let twice =
      reopened-closes a (close s.port ∷ []) (open_port a s) e (open_port-Balanced a s) opened
        failed_again in
    omega arith
