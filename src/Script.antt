-- ===== src/Script.antt =====
-- The protocol as data: a list of library calls, some of them checked. What the clients' setup code
-- is held against; its laws stand in `Script.Laws`.
pub mod Laws
pub mod Silent
pub mod Kept
use rabbitmq_work.Base.{ℕ, ℤ, String, List, [], ◌∷◌, Bool, true, ◌≡◌}
use rabbitmq_work.Amqp.{
  Call, Response, new_connection, tcp_socket_new, open_socket, socket_open, set_sockfd, login,
  channel_open, get_rpc_reply, basic_publish, channel_shut, connection_shut, destroy_connection,
}
use rabbitmq_work.Session.{
  M, Log, Oracle, called, printed, slept, emit, printf, pure, call, ◌>>=◌, ◌>>◌,
}
use rabbitmq_work.Utils.{die_on_error, die_on_amqp_error, die_if_null, die_unless_zero}
use rabbitmq_work.Utils.Laws.{
  accepted_status, accepted_reply, accepted_pointer, accepted_zero, status_complaint,
  reply_complaint, die_complaint,
}

pub data Item : Type 0 where
  -- The result is ignored.
  plain : Call → Item
  -- The result goes to `die_on_error`, `die_on_amqp_error` or a test before `die` with this context.
  checked : Call → String → Item
  -- A message on the standard output, and a `sleep`.
  say : String → Item
  nap : ℕ → Item

-- The check that fits the type of the call's result.
abbrev pub verdict : (c : Call) → Response c → String → M (Unit {0})
verdict (open_socket _ _) x context = die_on_error x context
verdict (basic_publish _ _ _ _ _ _ _ _) x context = die_on_error x context
verdict (destroy_connection _) x context = die_on_error x context
verdict (login _ _ _ _ _ _ _) x context = die_on_amqp_error x context
verdict (get_rpc_reply _) x context = die_on_amqp_error x context
verdict (channel_shut _ _) x context = die_on_amqp_error x context
verdict (connection_shut _) x context = die_on_amqp_error x context
verdict (tcp_socket_new _) x context = die_if_null x context
verdict (socket_open _ _ _) x context = die_unless_zero x context
verdict _ x context = pure tt

abbrev pub accepted : (c : Call) → Response c → Bool
accepted (open_socket _ _) x = accepted_status x
accepted (basic_publish _ _ _ _ _ _ _ _) x = accepted_status x
accepted (destroy_connection _) x = accepted_status x
accepted (login _ _ _ _ _ _ _) x = accepted_reply x
accepted (get_rpc_reply _) x = accepted_reply x
accepted (channel_shut _ _) x = accepted_reply x
accepted (connection_shut _) x = accepted_reply x
accepted (tcp_socket_new _) x = accepted_pointer x
accepted (socket_open _ _ _) x = accepted_zero x
accepted _ x = true

abbrev pub complaint : (c : Call) → Response c → String → Log
complaint (open_socket _ _) x context = status_complaint x context
complaint (basic_publish _ _ _ _ _ _ _ _) x context = status_complaint x context
complaint (destroy_connection _) x context = status_complaint x context
complaint (login _ _ _ _ _ _ _) x context = reply_complaint x context
complaint (get_rpc_reply _) x context = reply_complaint x context
complaint (channel_shut _ _) x context = reply_complaint x context
complaint (connection_shut _) x context = reply_complaint x context
complaint (tcp_socket_new _) x context = die_complaint context
complaint (socket_open _ _ _) x context = die_complaint context
complaint _ x context = []

-- Runs a script, and then `k`.
abbrev pub perform : {A : Type 0} → List Item → M A → M A
perform [] k = k
perform (plain c ∷ s) k = call c >> perform s k
perform (say format ∷ s) k = printf format [] >> perform s k
perform (nap n ∷ s) k = emit (slept n) >> perform s k
perform (checked c context ∷ s) k = call c >>= λ x. verdict c x context >> perform s k

-- The transcript after all of a script's calls, made one after the other.
abbrev pub transcript : Oracle → List Item → Log → Log
transcript o [] l = l
transcript o (plain c ∷ s) l = transcript o s (called c (o l c) ∷ l)
transcript o (say format ∷ s) l = transcript o s (printed format [] ∷ l)
transcript o (nap n ∷ s) l = transcript o s (slept n ∷ l)
transcript o (checked c _ ∷ s) l = transcript o s (called c (o l c) ∷ l)

-- Every checked result is accepted.
abbrev pub AllAccepted : Oracle → List Item → Log → Type 0
AllAccepted o [] l = Unit
AllAccepted o (plain c ∷ s) l = AllAccepted o s (called c (o l c) ∷ l)
AllAccepted o (say format ∷ s) l = AllAccepted o s (printed format [] ∷ l)
AllAccepted o (nap n ∷ s) l = AllAccepted o s (slept n ∷ l)
AllAccepted o (checked c _ ∷ s) l =
    (accepted c (o l c) ≡ true) × AllAccepted o s (called c (o l c) ∷ l)
