-- ===== src/Utils/Laws.antt =====
-- What the error helpers let through: `accepted` says which results a program goes on after, and
-- `complaint` what it prints after the others.
use rabbitmq_work.Base.{
  zero, suc, ℕ, Option, none, some, ℤ, pos, negsuc, String, [], ◌∷◌, ◌++◌, Bool, true, false, ◌≡◌,
  refl,
}
use rabbitmq_work.Amqp.{
  RpcReply, normal, none_given, library_exception, server_exception, unlisted, connection_close,
  channel_close, other_reply,
}
use rabbitmq_work.Session.{Log, Oracle, complained, num, text, bytes, error_text, ok, exited}
use rabbitmq_work.Utils.{die, die_on_error, die_on_amqp_error, die_if_null, die_unless_zero}

abbrev pub accepted_status : ℤ → Bool
accepted_status (pos _) = true
accepted_status (negsuc _) = false

abbrev pub accepted_reply : RpcReply → Bool
accepted_reply normal = true
accepted_reply _ = false

abbrev pub accepted_pointer : Option ℕ → Bool
accepted_pointer none = false
accepted_pointer (some _) = true

abbrev pub accepted_zero : ℤ → Bool
accepted_zero (pos zero) = true
accepted_zero _ = false

-- What is printed about a result that is not accepted, newest first.
abbrev pub status_complaint : ℤ → String → Log
status_complaint x context = complained "%s: %s\n" (text context ∷ error_text x ∷ []) ∷ []

abbrev pub reply_complaint : RpcReply → String → Log
reply_complaint normal context = []
reply_complaint none_given context =
    complained "%s: missing RPC reply type!\n" (text context ∷ []) ∷ []
reply_complaint (library_exception x) context =
    complained "%s: %s\n" (text context ∷ error_text x ∷ []) ∷ []
reply_complaint (server_exception (connection_close code reply_text)) context =
    complained "%s: server connection error %uh, message: %.*s\n"
      (text context ∷ num code ∷ bytes reply_text ∷ [])
    ∷ []
reply_complaint (server_exception (channel_close code reply_text)) context =
    complained "%s: server channel error %uh, message: %.*s\n"
      (text context ∷ num code ∷ bytes reply_text ∷ [])
    ∷ []
reply_complaint (server_exception (other_reply id)) context =
    complained "%s: unknown server error, method id 0x%08X\n" (text context ∷ num id ∷ []) ∷ []
reply_complaint (unlisted _) context = []

abbrev pub die_complaint : String → Log
die_complaint context = complained "\n" [] ∷ complained context [] ∷ []

module _ (context : String) (o : Oracle) (l : Log) where
  pub die_on_error_accepted :
      (x : ℤ) → accepted_status x ≡ true → die_on_error x context o l ≡ (ok tt, l)
  unfolding die_on_error
  die_on_error_accepted (pos n) h = refl
  die_on_error_accepted (negsuc n) h = cc

  pub die_on_error_refused :
      (x : ℤ)
      → accepted_status x ≡ false
      → die_on_error x context o l ≡ (exited 1, status_complaint x context ++ l)
  unfolding die_on_error
  die_on_error_refused (pos n) h = cc
  die_on_error_refused (negsuc n) h = refl

  pub die_on_amqp_error_accepted :
      (x : RpcReply) → accepted_reply x ≡ true → die_on_amqp_error x context o l ≡ (ok tt, l)
  unfolding die_on_amqp_error
  die_on_amqp_error_accepted normal h = refl
  die_on_amqp_error_accepted none_given h = cc
  die_on_amqp_error_accepted (library_exception x) h = cc
  die_on_amqp_error_accepted (server_exception x) h = cc
  die_on_amqp_error_accepted (unlisted x) h = cc

  pub die_on_amqp_error_refused :
      (x : RpcReply)
      → accepted_reply x ≡ false
      → die_on_amqp_error x context o l ≡ (exited 1, reply_complaint x context ++ l)
  unfolding die_on_amqp_error
  die_on_amqp_error_refused normal h = cc
  die_on_amqp_error_refused none_given h = refl
  die_on_amqp_error_refused (library_exception x) h = refl
  die_on_amqp_error_refused (server_exception (connection_close code t)) h = refl
  die_on_amqp_error_refused (server_exception (channel_close code t)) h = refl
  die_on_amqp_error_refused (server_exception (other_reply id)) h = refl
  die_on_amqp_error_refused (unlisted x) h = refl

  pub die_if_null_accepted :
      (x : Option ℕ) → accepted_pointer x ≡ true → die_if_null x context o l ≡ (ok tt, l)
  die_if_null_accepted none h = cc
  die_if_null_accepted (some _) h = refl

  pub die_if_null_refused :
      (x : Option ℕ)
      → accepted_pointer x ≡ false
      → die_if_null x context o l ≡ (exited 1, die_complaint context ++ l)
  unfolding die
  die_if_null_refused none h = refl
  die_if_null_refused (some _) h = cc

  pub die_unless_zero_accepted :
      (x : ℤ) → accepted_zero x ≡ true → die_unless_zero x context o l ≡ (ok tt, l)
  die_unless_zero_accepted (pos zero) h = refl
  die_unless_zero_accepted (pos (suc n)) h = cc
  die_unless_zero_accepted (negsuc n) h = cc

  pub die_unless_zero_refused :
      (x : ℤ)
      → accepted_zero x ≡ false
      → die_unless_zero x context o l ≡ (exited 1, die_complaint context ++ l)
  unfolding die
  die_unless_zero_refused (pos zero) h = cc
  die_unless_zero_refused (pos (suc n)) h = refl
  die_unless_zero_refused (negsuc n) h = refl
