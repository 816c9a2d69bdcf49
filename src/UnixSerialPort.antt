-- ===== src/UnixSerialPort.antt =====
-- src/UnixSerialPort.hpp, src/UnixSerialPort.cpp and src/SerialPort.cpp: a serial port. The system
-- calls are a parameter: what a call returns is an argument, negative for an error, and the calls
-- that are made are listed in order.
pub mod Descriptors
pub mod Speeds
use mavtables.Prelude.{
  ℕ, zero, suc, Bool, true, false, not, ◌&&◌, Option, none, some, List, [], ◌∷◌, ◌++◌, Bytes, codes,
  ltb, ◌==◌, if◌then◌else◌, length, take,
}
use mavtables.Prelude.Int.{ℤ, pos, negsuc, ltb_ℤ}
use mavtables.Prelude.Exception.{Result, ok, err, invalid_argument, runtime_error, ◌>>=◌}
use mavtables.Text.{decimal}

pub data Speed : Type 0 where
  b0 b50 b75 b110 b134 b150 b200 b300 b600 b1200 b1800 : Speed
  b2400 b4800 b9600 b19200 b38400 b57600 b115200 b230400 : Speed

-- The bits of `termios` that the program names, the size of a character with CS8 as 3, and the two
-- speeds, none before they are set.
pub record Termios : Type 0 where
  pub clocal : Bool
  pub cread : Bool
  pub parenb : Bool
  pub cstopb : Bool
  pub crtscts : Bool
  pub csize : ℕ
  pub icanon : Bool
  pub echo : Bool
  pub echoe : Bool
  pub isig : Bool
  pub ignbrk : Bool
  pub brkint : Bool
  pub parmrk : Bool
  pub istrip : Bool
  pub inlcr : Bool
  pub igncr : Bool
  pub icrnl : Bool
  pub ixon : Bool
  pub ixoff : Bool
  pub ixany : Bool
  pub opost : Bool
  pub vmin : ℕ
  pub vtime : ℕ
  pub ispeed : Option Speed
  pub ospeed : Option Speed

-- `features_ & FLOW_CONTROL` is `flow_control`.
pub record UnixSerialPort : Type 0 where
  pub device : Bytes
  pub baud_rate : ℕ
  pub flow_control : Bool
  pub port : ℤ

pub data Call : Type 0 where
  open_device : Bytes → Call
  close : ℤ → Call
  tcgetattr : ℤ → Call
  tcsetattr : ℤ → Termios → Call
  write_data : ℤ → Bytes → Call

-- The cases of the switch.
abbrev pub speeds : List (ℕ × Speed)
speeds =
    (0, Speed.b0)
    ∷ (50, Speed.b50)
    ∷ (75, Speed.b75)
    ∷ (110, Speed.b110)
    ∷ (134, Speed.b134)
    ∷ (135, Speed.b134)
    ∷ (150, Speed.b150)
    ∷ (200, Speed.b200)
    ∷ (300, Speed.b300)
    ∷ (600, Speed.b600)
    ∷ (1200, Speed.b1200)
    ∷ (1800, Speed.b1800)
    ∷ (2400, Speed.b2400)
    ∷ (4800, Speed.b4800)
    ∷ (9600, Speed.b9600)
    ∷ (19200, Speed.b19200)
    ∷ (38400, Speed.b38400)
    ∷ (57600, Speed.b57600)
    ∷ (115200, Speed.b115200)
    ∷ (230400, Speed.b230400)
    ∷ []

unfoldable pub find_speed : ℕ → List (ℕ × Speed) → Result Speed
find_speed baud_rate [] = err invalid_argument
find_speed baud_rate ((n, speed) ∷ rest) =
    let others = find_speed baud_rate rest in if baud_rate == n then ok speed else others

unfoldable pub speed_constant : ℕ → Result Speed
unfolding find_speed
speed_constant baud_rate = find_speed baud_rate speeds

-- The settings, 8N1 and raw, with what `tcgetattr` gave as the start.
unfoldable pub settings : Speed → Bool → Termios → Termios
settings speed flow_control tty = record tty {
  ispeed = some speed;
  ospeed = some speed;
  clocal = true;
  cread = true;
  parenb = false;
  cstopb = false;
  csize = 3;
  crtscts = flow_control;
  icanon = false;
  echo = false;
  echoe = false;
  isig = false;
  ignbrk = false;
  brkint = false;
  parmrk = false;
  istrip = false;
  inlcr = false;
  igncr = false;
  icrnl = false;
  ixon = false;
  ixoff = false;
  ixany = false;
  opost = false;
  vmin = 0;
  vtime = 0;
}

abbrev pub failed : ℤ → Bool
failed r = ltb_ℤ r (pos 0)

-- What the system answers while a port is opened.
pub record Answers : Type 0 where
  pub opened : ℤ
  pub got : ℤ
  pub tty : Termios
  pub set : ℤ

abbrev with_speed : Answers → UnixSerialPort → Result Speed → Result (Unit {0}) × List Call
with_speed a s (err e) = (err e, tcgetattr s.port ∷ [])
with_speed a s (ok speed) = (
  if failed a.set then err runtime_error else ok tt,
  tcgetattr s.port ∷ tcsetattr s.port (settings speed s.flow_control a.tty) ∷ [],
)

unfoldable pub configure_port : Answers → UnixSerialPort → Result (Unit {0}) × List Call
unfolding speed_constant settings
configure_port a s =
    if failed a.got
    then (err runtime_error, tcgetattr s.port ∷ [])
    else with_speed a s (speed_constant s.baud_rate)

-- An exception of `configure_port_` closes the port, and is thrown again.
abbrev pub configured :
    UnixSerialPort → Result (Unit {0}) × List Call → Result (Unit {0}) × List Call × UnixSerialPort
configured s (ok v, calls) = (ok tt, open_device s.device ∷ calls, s)
configured s (err e, calls) = (err e, open_device s.device ∷ (calls ++ close s.port ∷ []), s)

unfoldable pub open_port : Answers → UnixSerialPort → Result (Unit {0}) × List Call × UnixSerialPort
unfolding configure_port
open_port a s =
    let s' = record s { port = a.opened } in
    if failed a.opened
    then (err runtime_error, open_device s.device ∷ [], s')
    else configured s' (configure_port a s')

unfoldable pub make : Bytes → ℕ → Bool → Answers → Result (Unit {0}) × List Call × UnixSerialPort
unfolding open_port
make device baud_rate flow_control a = open_port a (record {
  device = device;
  baud_rate = baud_rate;
  flow_control = flow_control;
  port = negsuc 0;
})

unfoldable pub destroy : UnixSerialPort → List Call
destroy s = close s.port ∷ []

-- `poll` fails, times out, or says whether there is an error on the port and whether there are data.
pub data Poll : Type 0 where
  poll_failed timed_out : Poll
  events : Bool → Bool → Poll

-- What `read` returned, and the buffer of 1024 bytes.
unfoldable pub read_data : ℤ → Bytes → Result Bytes
read_data (negsuc n) buffer = err runtime_error
read_data (pos n) buffer = ok (take n buffer)

abbrev pub reopened :
    List Call
    → Result (Unit {0}) × List Call × UnixSerialPort
    → Result Bytes × List Call × UnixSerialPort
reopened calls (ok v, more, s) = (ok [], calls ++ more, s)
reopened calls (err e, more, s) = (err e, calls ++ more, s)

unfoldable pub read :
    Poll → Answers → ℤ → Bytes → UnixSerialPort → Result Bytes × List Call × UnixSerialPort
unfolding open_port read_data
read poll_failed a size buffer s = (err runtime_error, [], s)
read timed_out a size buffer s = (ok [], [], s)
read (events true in_events) a size buffer s = reopened (close s.port ∷ []) (open_port a s)
read (events false true) a size buffer s = (read_data size buffer, [], s)
read (events false false) a size buffer s = (ok [], [], s)

-- `PartialSendError` is told how much has been written, and of how much.
pub data WriteError : Type 0 where
  system_error : WriteError
  partial_send_error : ℕ → ℕ → WriteError

unfoldable pub write : Bytes → ℤ → UnixSerialPort → Option WriteError × List Call
write bytes (negsuc n) s = (some system_error, write_data s.port bytes ∷ [])
write bytes (pos n) s = (
  if ltb n (length bytes) then some (partial_send_error n (length bytes)) else none,
  write_data s.port bytes ∷ [],
)

abbrev print_flow : Bool → Bytes
print_flow true = codes "    flow_control yes;\n"
print_flow false = codes "    flow_control no;\n"

unfoldable pub print : UnixSerialPort → Bytes
print s =
    codes "serial {\n    device "
    ++ (s.device
        ++ (codes ";\n    baudrate "
            ++ (decimal s.baud_rate ++ (codes ";\n" ++ (print_flow s.flow_control ++ codes "}")))))
