-- ===== src/Ipv4socket/Descriptors.antt =====
-- Which descriptors the socket constructors leave open.
use rabbitmq_work.Base.{
  ℕ, ◌≡◌, ◌==◌, ==_iff, inl, inr, refl, ℤ, pos, negsuc, is_negative, Bool, true, false, Bool-cases,
  String, List, [], ◌∷◌, Option, if◌then◌else◌,
}
use rabbitmq_work.Amqp.{socket, connect, bind, listen, close}
use rabbitmq_work.Session.{Log, Oracle, Outcome, called, ok, exited, aborted, running}
use rabbitmq_work.Ipv4socket.{
  minus_one, sock_stream, sock_dgram, creat_ipv4_udp_socket, htons, creat_ipv4_tcp_cleint_socket,
  creat_ipv4_tcp_server_socket,
}

abbrev pub same_int : ℤ → ℤ → Bool
same_int (pos m) (pos n) = m == n
same_int (negsuc m) (negsuc n) = m == n
same_int _ _ = false

same_int_self : (x : ℤ) → same_int x x ≡ true
same_int_self (pos m) = (==_iff m m).1 refl
same_int_self (negsuc m) = (==_iff m m).1 refl

abbrev pub without : ℤ → List ℤ → List ℤ
without fd [] = []
without fd (x ∷ xs) = let rest = without fd xs in if same_int x fd then xs else x ∷ rest

-- The sockets that were made and that no `close` of them has followed, the newest first.
abbrev pub open_sockets : Log → List ℤ
open_sockets [] = []
open_sockets (called (socket _) made ∷ l) =
    if is_negative made.0 then open_sockets l else made.0 ∷ open_sockets l
open_sockets (called (close fd) _ ∷ l) = without fd (open_sockets l)
open_sockets (_ ∷ l) = open_sockets l

-- The open sockets, with one more if it is a descriptor.
abbrev pub and_open : ℤ → Log → List ℤ
and_open fd l = if is_negative fd then open_sockets l else fd ∷ open_sockets l

-- A constructor's result and the open sockets go together: that one more on success, none on -1.
abbrev pub Balanced : Log → Outcome ℤ × Log → Type 0
Balanced l (ok fd, l') = open_sockets l' ≡ and_open fd l
Balanced l (exited _, l') = ⊥
Balanced l (aborted, l') = ⊥
Balanced l (running, l') = ⊥

-- Every run of the client's constructor returns. If it returns a descriptor, that one is open besides
-- those that were open before; if not, just those are: the socket of a failed connection is closed,
-- and no other.
pub cleint_socket-Balanced :
    (ip : String) (port : ℕ) (o : Oracle) (l : Log)
    → Balanced l (creat_ipv4_tcp_cleint_socket ip port o l)
unfolding creat_ipv4_tcp_cleint_socket
cleint_socket-Balanced ip port o l =
    let made = o l (socket sock_stream) in
    elim (Bool-cases (is_negative made.0)) [
      | inl failed ↦ rw failed (rw failed refl)
      | inr good ↦
          rw good
            (elim (Bool-cases (
              is_negative
                (o (called (socket sock_stream) made ∷ l) (connect made.0 ip (htons port))).0)) [
                  | inl refused ↦ rw (refused, good) (rw (same_int_self made.0) refl)
                  | inr connected ↦ rw (connected, good) refl
                ])
    ]

-- The descriptor, unless one of the calls was refused.
abbrev pub fd_if_good : List ℤ → ℤ → ℤ
fd_if_good [] fd = fd
fd_if_good (r ∷ rs) fd = if is_negative r then minus_one else fd_if_good rs fd

-- Every run returns, with this result; a socket that was made is open.
abbrev pub Holds : ℤ → ℤ → Log → Outcome ℤ × Log → Type 0
Holds made result l r = (r.0 ≡ ok result) × (open_sockets r.1 ≡ and_open made l)

module _ (ip : Option String) (port : ℕ) (o : Oracle) (l : Log) where
  -- The answers in turn, of a stream socket and of a datagram socket.
  abbrev pub made : ℕ → ℤ × ℕ
  made kind = o l (socket kind)

  abbrev after_made : ℕ → Log
  after_made kind = called (socket kind) (made kind) ∷ l

  abbrev pub bound : ℕ → ℤ × ℕ
  bound kind = o (after_made kind) (bind (made kind).0 ip (htons port))

  abbrev after_bound : ℕ → Log
  after_bound kind = called (bind (made kind).0 ip (htons port)) (bound kind) ∷ after_made kind

  abbrev pub heard : ℕ → ℤ × ℕ
  heard backlog = o (after_bound sock_stream) (listen (made sock_stream).0 backlog)

  tcp_socket-Holds :
      (backlog : ℕ)
      → let fd = (made sock_stream).0 in
        Holds fd
          (fd_if_good (fd ∷ (bound sock_stream).0 ∷ (heard backlog).0 ∷ []) fd)
          l
          (creat_ipv4_tcp_server_socket ip port backlog o l)
  unfolding creat_ipv4_tcp_server_socket
  tcp_socket-Holds backlog = elim (Bool-cases (is_negative (made sock_stream).0)) [
    | inl failed ↦ rw failed (rw failed (refl, refl))
    | inr good ↦ rw good (elim (Bool-cases (is_negative (bound sock_stream).0)) [
      | inl refused ↦ rw (refused, good) (refl, refl)
      | inr at_port ↦ rw at_port (elim (Bool-cases (is_negative (heard backlog).0)) [
        | inl deaf ↦ rw (deaf, good) (refl, refl)
        | inr hears ↦ rw (hears, good) (refl, refl)
      ])
    ])
  ]

  udp_socket-Holds :
      let fd = (made sock_dgram).0 in
      Holds fd
        (fd_if_good (fd ∷ (bound sock_dgram).0 ∷ []) fd)
        l
        (creat_ipv4_udp_socket ip port o l)
  unfolding creat_ipv4_udp_socket
  udp_socket-Holds = elim (Bool-cases (is_negative (made sock_dgram).0)) [
    | inl failed ↦ rw failed (rw failed (refl, refl))
    | inr good ↦ rw good (elim (Bool-cases (is_negative (bound sock_dgram).0)) [
      | inl refused ↦ rw (refused, good) (refl, refl)
      | inr at_port ↦ rw (at_port, good) (refl, refl)
    ])
  ]

  -- The constructors of a server's stream socket and of a datagram socket always return: the
  -- descriptor, or -1 if one of their calls was refused. The socket, if it was made, is open besides
  -- those that were open before, after a refused `bind` or `listen` too, when nobody knows it.
  pub server_sockets_keep :
      (backlog : ℕ)
      → let fd = (made sock_stream).0 in
        let fd' = (made sock_dgram).0 in
        Holds fd
          (fd_if_good (fd ∷ (bound sock_stream).0 ∷ (heard backlog).0 ∷ []) fd)
          l
          (creat_ipv4_tcp_server_socket ip port backlog o l)
        × Holds fd'
            (fd_if_good (fd' ∷ (bound sock_dgram).0 ∷ []) fd')
            l
            (creat_ipv4_udp_socket ip port o l)
  server_sockets_keep backlog = (tcp_socket-Holds backlog, udp_socket-Holds)
