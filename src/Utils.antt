-- ===== src/Utils.antt =====
-- The error helpers of utils.cpp: every client calls them on the result of each library call.
pub mod Laws
pub mod Dump
use rabbitmq_work.Base.{
  zero, Option, none, some, pos, ℕ, ℤ, String, List, [], ◌∷◌, is_negative, if◌then◌else◌,
}
use rabbitmq_work.Amqp.{
  RpcReply, normal, none_given, library_exception, server_exception, unlisted, ServerReply,
  connection_close, channel_close, other_reply,
}
use rabbitmq_work.Session.{M, Arg, num, text, bytes, error_text, pure, ◌>>=◌, ◌>>◌, eprintf, exit}

-- `die`, at the formatted message.
unfoldable pub die : {A : Type 0} → String → List Arg → M A
die format args = do eprintf format args; eprintf "\n" []; exit 1

-- The checks of receive/src/amqp_listenq.cpp: `if (!socket) die(…)` and `if (status) die(…)`.
abbrev pub die_if_null : Option ℕ → String → M (Unit {0})
die_if_null none context = die context []
die_if_null (some _) context = pure tt

abbrev pub die_unless_zero : ℤ → String → M (Unit {0})
die_unless_zero (pos zero) context = pure tt
die_unless_zero _ context = die context []

unfoldable pub die_on_error : ℤ → String → M (Unit {0})
die_on_error x context =
    if is_negative x
    then (eprintf "%s: %s\n" (text context ∷ error_text x ∷ []) >> exit 1)
    else pure tt

-- The inner `switch`.
complain_server : ServerReply → String → M (Unit {0})
complain_server (connection_close code reply_text) context =
    eprintf "%s: server connection error %uh, message: %.*s\n"
      (text context ∷ num code ∷ bytes reply_text ∷ [])
complain_server (channel_close code reply_text) context =
    eprintf "%s: server channel error %uh, message: %.*s\n"
      (text context ∷ num code ∷ bytes reply_text ∷ [])
complain_server (other_reply id) context =
    eprintf "%s: unknown server error, method id 0x%08X\n" (text context ∷ num id ∷ [])

unfoldable pub die_on_amqp_error : RpcReply → String → M (Unit {0})
unfolding complain_server
die_on_amqp_error normal context = pure tt
die_on_amqp_error none_given context =
    eprintf "%s: missing RPC reply type!\n" (text context ∷ []) >> exit 1
die_on_amqp_error (library_exception x) context =
    eprintf "%s: %s\n" (text context ∷ error_text x ∷ []) >> exit 1
die_on_amqp_error (server_exception reply) context = complain_server reply context >> exit 1
die_on_amqp_error (unlisted _) context = exit 1
