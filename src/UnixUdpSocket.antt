-- ===== src/UnixUdpSocket.antt =====
-- src/UnixUDPSocket.hpp, src/UnixUDPSocket.cpp and src/UDPSocket.cpp: a UDP socket. The system calls
-- are a parameter: what a call returns is an argument, negative for an error, and the calls that are
-- made are listed in order. The clock is steady, in nanoseconds.
pub mod Rate
use mavtables.Prelude.{
  ℕ, zero, suc, ◌+◌, ◌-◌, ◌*◌, ◌/◌, ◌%◌, ◌^◌, Bool, true, false, not, ◌&&◌, Option, none, some,
  List, [], ◌∷◌, ◌++◌, Bytes, codes, ltb, ◌==◌, if◌then◌else◌, length,
}
use mavtables.Prelude.Int.{ℤ, pos, negsuc, ltb_ℤ}
use mavtables.Prelude.Exception.{Result, ok, err, runtime_error, ◌>>=◌}
use mavtables.Text.{decimal}
use mavtables.IpAddress
use mavtables.IpAddress.{IpAddress}

pub record UnixUdpSocket : Type 0 where
  pub port : ℕ
  pub address : Option IpAddress
  pub max_bitrate : ℕ
  pub socket : ℤ
  pub next_time : ℕ

-- `bind` names the address, zero for any, and the port; `sendto` the data and where they go.
pub data Call : Type 0 where
  create : Call
  bind : ℤ → ℕ → ℕ → Call
  close : ℤ → Call
  sendto : ℤ → Bytes → ℕ → ℕ → Call

abbrev pub failed : ℤ → Bool
failed r = ltb_ℤ r (pos 0)

-- `htons` of a port as 16 bits, and of the address to listen on.
abbrev pub bind_address : Option IpAddress → ℕ
bind_address none = 0
bind_address (some a) = a.address

-- A `std::system_error` is a `std::runtime_error`.
unfoldable pub create_socket : ℤ → ℤ → UnixUdpSocket → Result (Unit {0}) × List Call × UnixUdpSocket
create_socket fd bound s =
    if failed fd
    then (err runtime_error, create ∷ [], record s { socket = fd })
    else if failed bound
    then (
      err runtime_error,
      create ∷ bind fd (bind_address s.address) (s.port % 2 ^ 16) ∷ [],
      record s { socket = fd },
    )
    else (
      ok tt,
      create ∷ bind fd (bind_address s.address) (s.port % 2 ^ 16) ∷ [],
      record s { socket = fd },
    )

unfoldable pub make :
    ℕ → Option IpAddress → ℕ → ℕ → ℤ → ℤ → Result (Unit {0}) × List Call × UnixUdpSocket
unfolding create_socket
make port address max_bitrate now fd bound = create_socket fd bound (record {
  port = port;
  address = address;
  max_bitrate = max_bitrate;
  socket = negsuc 0;
  next_time = now;
})

unfoldable pub destroy : UnixUdpSocket → List Call
destroy s = close s.socket ∷ []

-- `(1000 * 1000 * data.size() * 8) / max_bitrate_ * 1us`, in nanoseconds
unfoldable pub send_duration : ℕ → ℕ → ℕ
send_duration size max_bitrate =
    let bits : ℕ = (1000 * 1000 * size * 8) % 2 ^ 64 in bits / max_bitrate * 1000

-- The rate limit, called at `now`: how long the thread sleeps, and the socket.
unfoldable pub limit : ℕ → ℕ → UnixUdpSocket → ℕ × UnixUdpSocket
unfolding send_duration
limit size now s = if s.max_bitrate == 0 then (0, s) else (
  if ltb now s.next_time then s.next_time - now else 0,
  record s { next_time = now + send_duration size s.max_bitrate },
)

-- The time at which the data are given to the system, and what that returns or throws.
unfoldable pub send :
    Bytes → IpAddress → ℕ → ℤ → UnixUdpSocket → Result (Unit {0}) × ℕ × List Call × UnixUdpSocket
unfolding limit
send bytes address now sent s =
    let (sleep, s') = limit (length bytes) now s in
    (
      if failed sent then err runtime_error else ok tt,
      now + sleep,
      sendto s.socket bytes address.address (address.port % 2 ^ 16) ∷ [],
      s',
    )

-- What `ioctl` and `recvfrom` give: the length that waits, the result, the buffer, whether the address
-- is one of the internet, and its parts in the order of the host.
pub record Waiting : Type 0 where
  pub ioctl : ℤ
  pub size : ℤ
  pub buffer : Bytes
  pub inet : Bool
  pub address : ℕ
  pub port : ℕ

-- `IPAddress(0)` with no data
abbrev pub nothing : Bytes × IpAddress
nothing = ([], record { address = 0; port = 0 })

unfoldable pub receive_waiting : Waiting → Result (Bytes × IpAddress)
receive_waiting w =
    if failed w.ioctl
    then err runtime_error
    else if failed w.size
    then err runtime_error
    else if ltb_ℤ (pos 0) w.size && w.inet
    then (do ip ← IpAddress.construct w.address w.port; ok (w.buffer, ip))
    else ok nothing

-- `poll` fails, times out, or says whether there is an error on the socket and whether there are data.
pub data Poll : Type 0 where
  poll_failed timed_out : Poll
  events : Bool → Bool → Poll

abbrev pub reopened :
    List Call
    → Result (Unit {0}) × List Call × UnixUdpSocket
    → Result (Bytes × IpAddress) × List Call × UnixUdpSocket
reopened calls (ok v, more, s) = (ok nothing, calls ++ more, s)
reopened calls (err e, more, s) = (err e, calls ++ more, s)

unfoldable pub receive :
    Poll → ℤ → ℤ → Waiting → UnixUdpSocket → Result (Bytes × IpAddress) × List Call × UnixUdpSocket
unfolding create_socket receive_waiting
receive poll_failed fd bound w s = (err runtime_error, [], s)
receive timed_out fd bound w s = (ok nothing, [], s)
receive (events true in_events) fd bound w s =
    reopened (close s.socket ∷ []) (create_socket fd bound s)
receive (events false true) fd bound w s = (receive_waiting w, [], s)
receive (events false false) fd bound w s = (ok nothing, [], s)

abbrev print_address : Option IpAddress → Bytes
print_address none = []
print_address (some a) = codes "    address " ++ (IpAddress.print a ++ codes ";\n")

abbrev print_bitrate : ℕ → Bytes
print_bitrate n = if n == 0 then [] else codes "    max_bitrate " ++ (decimal n ++ codes ";\n")

unfoldable pub print : UnixUdpSocket → Bytes
print s =
    codes "udp {\n"
    ++ (codes "    port "
        ++ (decimal s.port
            ++ (codes ";\n"
                ++ (print_address s.address ++ (print_bitrate s.max_bitrate ++ codes "}")))))
