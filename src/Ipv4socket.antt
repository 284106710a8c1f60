-- ===== src/Ipv4socket.antt =====
-- c/recveive/src/IPv4socket.cpp (copied to c/send and c/back): the constructors of sockets, and
-- `SetNonblocking`. They return a descriptor, or -1.
pub mod Descriptors
use Prim.Native.Nat.{bit_and, bit_or}
use rabbitmq_work.Base.{
  ℕ, ◌-◌, ◌%◌, ◌^◌, ℤ, pos, negsuc, is_negative, String, List, [], ◌∷◌, Option, if◌then◌else◌,
}
use rabbitmq_work.Amqp.{socket, connect, bind, listen, close, get_flags, set_flags}
use rabbitmq_work.Session.{M, num, error_text, int, pure, call, printf, ◌>>=◌, ◌>>◌}

abbrev pub minus_one : ℤ
minus_one = negsuc 0

-- SOCK_STREAM and SOCK_DGRAM
abbrev pub sock_stream : ℕ
sock_stream = 1

abbrev pub sock_dgram : ℕ
sock_dgram = 2

-- `htons` keeps 16 bits.
abbrev htons : ℕ → ℕ
htons port = port % 2 ^ 16

-- The report of a failed call, with or without a line end.
abbrev report : String → ℕ → M ℤ
report format errno = printf format (num errno ∷ error_text (pos errno) ∷ []) >> pure minus_one

-- `CreatIpv4TcpCleintSocket`
unfoldable pub creat_ipv4_tcp_cleint_socket : String → ℕ → M ℤ
creat_ipv4_tcp_cleint_socket ip port = do
  made ← call (socket sock_stream)
  if is_negative made.0
      then (printf "failed to creat socket!\n" [] >> pure minus_one)
      else (call (connect made.0 ip (htons port)) >>= λ r.
          if is_negative r.0
          then (printf "connection failed\n" [] >> call (close made.0) >> pure minus_one)
          else pure made.0)

-- `CreatIpv4TcpServerSocket`
unfoldable pub creat_ipv4_tcp_server_socket : Option String → ℕ → ℕ → M ℤ
creat_ipv4_tcp_server_socket ip port backlog = do
  made ← call (socket sock_stream)
  if is_negative made.0
      then (printf "failed to call socket!\n" [] >> report "errno value: %d, it means: %s" made.1)
      else (call (bind made.0 ip (htons port)) >>= λ bound.
          if is_negative bound.0
          then (printf "failed to call bind!\n" []
              >> report "errno value: %d, it means: %s\n" bound.1)
          else (call (listen made.0 backlog) >>= λ heard.
              if is_negative heard.0
              then (printf "failed to call listen!\n" []
                  >> report "errno value: %d, it means: %s" heard.1)
              else pure made.0))

-- `CreatIpv4UdpSocket`
unfoldable pub creat_ipv4_udp_socket : Option String → ℕ → M ℤ
creat_ipv4_udp_socket ip port = do
  made ← call (socket sock_dgram)
  if is_negative made.0
      then (printf "failed to call socket!\n" [] >> report "errno value: %d, it means: %s" made.1)
      else (call (bind made.0 ip (htons port)) >>= λ bound.
          if is_negative bound.0
          then report "errno value: %d, it means: %s" bound.1
          else pure made.0)

-- `x | O_NONBLOCK` on an `int`: for `negsuc n`, whose bits are those of n flipped, it clears the bit
-- of n.
abbrev pub or_nonblock : ℤ → ℤ
or_nonblock (pos n) = pos (bit_or n 0x800)
or_nonblock (negsuc n) = negsuc (n - bit_and n 0x800)

-- `SetNonblocking`
unfoldable pub set_nonblocking : ℤ → M ℤ
set_nonblocking fd = do
  old_option ← call (get_flags fd)
  r ← call (set_flags fd (or_nonblock old_option))
  if is_negative r.0
      then (printf "failed to call fcntl!\n" [] >> report "errno value: %d, it means: %s" r.1)
      else pure old_option
