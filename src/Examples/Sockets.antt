-- ===== src/Examples/Sockets.antt =====
-- A socket with a limit of 8000 bits per second, and a serial port with a baud rate that it does not
-- support.
use mavtables.Prelude.{
  ◌+◌, ◌*◌, ◌^◌, ◌≤◌, ◌≡◌, refl, sym, true, false, none, [], ◌∷◌, ◌++◌, Bytes, codes, arith,
}
use mavtables.Prelude.Int.{pos}
use mavtables.Prelude.Exception.{err, invalid_argument}
use mavtables.IpAddress.{IpAddress}
use mavtables.UnixUdpSocket
use mavtables.UnixUdpSocket.{UnixUdpSocket}
use mavtables.UnixUdpSocket.Rate.{sent_at, s1, s2, send-burst}
use mavtables.UnixSerialPort
use mavtables.UnixSerialPort.{UnixSerialPort, Answers, Termios, read, events, destroy}
use mavtables.UnixSerialPort.Descriptors.{closes, read-closes_twice}

abbrev host : IpAddress
host = record { address = 127 * 2 ^ 24 + 1; port = 14500 }

abbrev socket : UnixUdpSocket
socket = record {
  port = 14500;
  address = none;
  max_bitrate = 8000;
  socket = pos 3;
  next_time = 500;
}

-- One byte, which takes a millisecond.
abbrev byte : Bytes
byte = 0xfe ∷ []

-- The second of two packets that are handed over at the same time leaves a millisecond later.
at_limit :
    sent_at byte host 1000 (pos 1) (s1 byte byte byte host (pos 1) socket refl 1000 1000 1001000)
    ≡ 1001000
unfolding UnixUdpSocket.send UnixUdpSocket.limit UnixUdpSocket.send_duration
at_limit = refl

send-burst_example :
    sent_at byte host 1001000 (pos 1) (s2 byte byte byte host (pos 1) socket refl 1000 1000 1001000)
    ≡ sent_at byte host 1000 (pos 1) (s1 byte byte byte host (pos 1) socket refl 1000 1000 1001000)
send-burst_example =
    send-burst byte byte byte host (pos 1) socket refl 1000 1000 1001000 (omega arith) refl
      (sym at_limit) (omega arith)

abbrev tty : Termios
tty = record {
  clocal = false;
  cread = false;
  parenb = true;
  cstopb = true;
  crtscts = false;
  csize = 0;
  icanon = true;
  echo = true;
  echoe = true;
  isig = true;
  ignbrk = false;
  brkint = false;
  parmrk = false;
  istrip = false;
  inlcr = false;
  igncr = false;
  icrnl = true;
  ixon = true;
  ixoff = false;
  ixany = false;
  opost = true;
  vmin = 1;
  vtime = 0;
  ispeed = none;
  ospeed = none;
}

abbrev serial_port : UnixSerialPort
serial_port = record {
  device = codes "/dev/ttyUSB0";
  baud_rate = 57601;
  flow_control = false;
  port = pos 3;
}

abbrev answers : Answers
answers = record { opened = pos 4; got = pos 0; tty = tty; set = pos 0 }

refused : (UnixSerialPort.open_port answers serial_port).0 ≡ err invalid_argument
unfolding UnixSerialPort.open_port UnixSerialPort.configure_port UnixSerialPort.speed_constant
    UnixSerialPort.find_speed
refused = refl

read-closes_twice_example :
    let (r, calls, s') = read (events true false) answers (pos 0) [] serial_port in
    2 ≤ closes (pos 4) (calls ++ destroy s')
read-closes_twice_example =
    read-closes_twice false answers (pos 0) [] serial_port invalid_argument refl refused
