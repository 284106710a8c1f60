-- ===== src/Epoll.antt =====
-- c/recveive/src/epoll.cpp (copied to c/send and c/back): the two event loops over the ready
-- descriptors, level triggered (`lt`) and edge triggered (`et`).
pub mod Kept
pub mod Edge
pub mod Registered
pub mod Draining
pub mod Leaving
use rabbitmq_work.Base.{
  ℕ, zero, suc, ◌==◌, ℤ, pos, negsuc, is_negative, String, List, [], ◌∷◌, Bool, true, false, ◌&&◌,
  Option, if◌then◌else◌,
}
use rabbitmq_work.Amqp.{Bytes, accept, close, recv, epoll_add, epoll_del}
use rabbitmq_work.Session.{M, int, bytes, pure, call, printf, still_running, ◌>>=◌, ◌>>◌}
use rabbitmq_work.Ipv4socket.{set_nonblocking}
use rabbitmq_work.Signals.{main_process_signal_processing}

-- An `epoll_event`: the descriptor, and the bits EPOLLIN and EPOLLRDHUP of its events.
pub record Ready : Type 0 where
  pub fd : ℤ
  pub readable : Bool
  pub hung_up : Bool

abbrev pub same_fd : ℤ → ℤ → Bool
same_fd (pos m) (pos n) = m == n
same_fd (negsuc m) (negsuc n) = m == n
same_fd _ _ = false

-- EAGAIN, which is also EWOULDBLOCK
abbrev pub eagain : ℕ
eagain = 11

-- `AddFdToEpoll`
unfoldable pub add_fd_to_epoll : ℤ → ℤ → Bool → M (Unit {0})
add_fd_to_epoll epoll_fd fd enable = do
  call (epoll_add epoll_fd fd enable)
  set_nonblocking fd
  pure tt

-- `DeleteFdFromEpoll`
unfoldable pub delete_fd_from_epoll : ℤ → ℤ → M (Unit {0})
delete_fd_from_epoll epoll_fd fd = call (epoll_del epoll_fd fd)

-- A new connection, in either loop; `enable` asks for EPOLLET.
pub accept_user : ℤ → ℤ → Bool → String → M (Unit {0})
accept_user epoll_fd listen_fd enable greeting = do
  conn_fd ← call (accept listen_fd)
  if is_negative conn_fd
      then printf "failed to accept!\n" []
      else (add_fd_to_epoll epoll_fd conn_fd enable >> printf greeting [])

-- A connection that the other side has closed, in either loop.
pub drop_user : ℤ → ℤ → M (Unit {0})
unfolding delete_fd_from_epoll
drop_user epoll_fd fd = do
  printf "a client left\n\n" []
  delete_fd_from_epoll epoll_fd fd
  call (close fd)

abbrev print_data : ℤ → Bytes → ℤ → M (Unit {0})
print_data n buff fd =
    printf "get %d bytes of client data :%s from: %d\n" (int n ∷ bytes buff ∷ int fd ∷ [])

-- The rest of `lt`'s last branch, by the result of `recv`.
lt_received : ℤ → ℤ → ℤ → Bytes → ℕ → M (Unit {0})
unfolding delete_fd_from_epoll
lt_received epoll_fd fd (pos (suc n)) buff errno = print_data (pos (suc n)) buff fd
lt_received epoll_fd fd n buff errno =
    if errno == eagain
    then print_data n buff fd
    else (delete_fd_from_epoll epoll_fd fd >> printf "a client lesft!\n" [] >> call (close fd))

-- A round of `lt`; `signal_fd` is `g_sMainProcessSigDate.m_nRdFd`. Whatever the signal processing
-- returns, the round is over.
unfoldable pub lt_event : ℤ → ℤ → ℤ → Ready → M (Unit {0})
unfolding accept_user drop_user lt_received
lt_event signal_fd epoll_fd listen_fd ev =
    if same_fd ev.fd signal_fd && ev.readable
    then (main_process_signal_processing ev.fd >> pure tt)
    else if same_fd listen_fd ev.fd
    then accept_user epoll_fd listen_fd false "comes a new user\n"
    else if ev.hung_up
    then drop_user epoll_fd ev.fd
    else if ev.readable
    then (call (recv ev.fd 1023) >>= λ got. lt_received epoll_fd ev.fd got.0 got.1 got.2)
    else pure tt

-- `lt`
unfoldable pub lt : ℤ → ℤ → ℤ → List Ready → M (Unit {0})
lt signal_fd epoll_fd listen_fd [] = pure tt
lt signal_fd epoll_fd listen_fd (ev ∷ evs) =
    lt_event signal_fd epoll_fd listen_fd ev >> lt signal_fd epoll_fd listen_fd evs

-- A round of `et`'s `while (1)`, by the result of `recv`; `again` is the next one.
et_received : ℤ → ℤ → M (Unit {0}) → ℤ → Bytes → ℕ → M (Unit {0})
unfolding delete_fd_from_epoll
et_received epoll_fd fd again (pos n) buff errno =
    printf "get %d bytes of client data :%s! from: %d\n" (int (pos n) ∷ bytes buff ∷ int fd ∷ [])
    >> again
et_received epoll_fd fd again (negsuc n) buff errno =
    if errno == eagain then again else (delete_fd_from_epoll epoll_fd fd >> call (close fd))

-- The `while (1)` of `et`.
unfoldable pub et_read : ℤ → ℤ → ℕ → M (Unit {0})
unfolding et_received
et_read epoll_fd fd zero = still_running
et_read epoll_fd fd (suc rounds) = call (recv fd 1023) >>= λ got.
    et_received epoll_fd fd (et_read epoll_fd fd rounds) got.0 got.1 got.2

unfoldable pub et_event : ℕ → ℤ → ℤ → Ready → M (Unit {0})
unfolding accept_user drop_user
et_event rounds epoll_fd listen_fd ev =
    if same_fd listen_fd ev.fd
    then accept_user epoll_fd listen_fd true "comes a new user\n\n"
    else if ev.hung_up
    then drop_user epoll_fd ev.fd
    else if ev.readable
    then et_read epoll_fd ev.fd rounds
    else pure tt

-- `et`
unfoldable pub et : ℕ → ℤ → ℤ → List Ready → M (Unit {0})
et rounds epoll_fd listen_fd [] = pure tt
et rounds epoll_fd listen_fd (ev ∷ evs) =
    et_event rounds epoll_fd listen_fd ev >> et rounds epoll_fd listen_fd evs
