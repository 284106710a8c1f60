-- ===== src/Script/Kept.antt =====
-- Predicates on transcripts along a script, wherever it stops.
use rabbitmq_work.Base.{ℕ, String, List, [], ◌∷◌, ◌++◌, inl, inr, Bool-cases}
use rabbitmq_work.Amqp.{
  Call, Response, RpcReply, normal, none_given, library_exception, server_exception, unlisted,
  connection_close, channel_close, other_reply, open_socket, tcp_socket_new, socket_open, login,
  get_rpc_reply, basic_publish, channel_shut, connection_shut, destroy_connection,
}
use rabbitmq_work.Session.{M, Log, Oracle, Arg, Outcome, exited, called, printed, complained, slept}
use rabbitmq_work.Utils.Laws.{reply_complaint}
use rabbitmq_work.Script.{Item, plain, checked, say, nap, accepted, complaint, perform}
use rabbitmq_work.Script.Laws.{verdict-accepted, verdict-refused}

-- Every call of the script is one of a kind.
abbrev pub Each : (Call → Type 0) → List Item → Type 0
Each Q [] = Unit
Each Q (plain c ∷ s) = Q c × Each Q s
Each Q (say _ ∷ s) = Each Q s
Each Q (nap _ ∷ s) = Each Q s
Each Q (checked c _ ∷ s) = Q c × Each Q s

-- Any kind.
abbrev pub AnyCall : Call → Type 0
AnyCall c = Unit

pub Each-any : (s : List Item) → Each AnyCall s
Each-any [] = tt
Each-any (plain c ∷ s) = (tt, Each-any s)
Each-any (say _ ∷ s) = Each-any s
Each-any (nap _ ∷ s) = Each-any s
Each-any (checked c _ ∷ s) = (tt, Each-any s)

-- A predicate on transcripts that messages, sleeps and the calls of a kind keep.
pub record IsKept (Q : Call → Type 0) (P : Log → Type 0) : Type 0 where
  pub by_call : (c : Call) (x : Response c) (l : Log) → Q c → P l → P (called c x ∷ l)
  pub by_print : (f : String) (args : List Arg) (l : Log) → P l → P (printed f args ∷ l)
  pub by_complaint : (f : String) (args : List Arg) (l : Log) → P l → P (complained f args ∷ l)
  pub by_sleep : (n : ℕ) (l : Log) → P l → P (slept n ∷ l)

module _ (Q : Call → Type 0) (P : Log → Type 0) (kept : IsKept Q P) where
  reply-IsKept : (x : RpcReply) (t : String) (l : Log) → P l → P (reply_complaint x t ++ l)
  reply-IsKept normal t l p = p
  reply-IsKept none_given t l p = kept.by_complaint _ _ l p
  reply-IsKept (library_exception _) t l p = kept.by_complaint _ _ l p
  reply-IsKept (server_exception (connection_close _ _)) t l p = kept.by_complaint _ _ l p
  reply-IsKept (server_exception (channel_close _ _)) t l p = kept.by_complaint _ _ l p
  reply-IsKept (server_exception (other_reply _)) t l p = kept.by_complaint _ _ l p
  reply-IsKept (unlisted _) t l p = p

  complaint-IsKept :
      (c : Call) (x : Response c) (t : String) (l : Log) → P l → P (complaint c x t ++ l)
  complaint-IsKept (open_socket _ _) x t l p = kept.by_complaint _ _ l p
  complaint-IsKept (basic_publish _ _ _ _ _ _ _ _) x t l p = kept.by_complaint _ _ l p
  complaint-IsKept (destroy_connection _) x t l p = kept.by_complaint _ _ l p
  complaint-IsKept (login _ _ _ _ _ _ _) x t l p = reply-IsKept x t l p
  complaint-IsKept (get_rpc_reply _) x t l p = reply-IsKept x t l p
  complaint-IsKept (channel_shut _ _) x t l p = reply-IsKept x t l p
  complaint-IsKept (connection_shut _) x t l p = reply-IsKept x t l p
  complaint-IsKept (tcp_socket_new _) x t l p = kept.by_complaint _ _ _ (kept.by_complaint _ _ l p)
  complaint-IsKept (socket_open _ _ _) x t l p = kept.by_complaint _ _ _ (kept.by_complaint _ _ l p)
  complaint-IsKept _ x t l p = p

  -- What holds of each stop and of what follows the script holds of the run.
  pub perform-IsKept :
      {A : Type 0} (R : Outcome A × Log → Type 0) (o : Oracle) (s : List Item) (k : M A) (l : Log)
      → Each Q s
      → ((l' : Log) → P l' → R (exited 1, l'))
      → ((l' : Log) → P l' → R (k o l'))
      → P l
      → R (perform s k o l)
  perform-IsKept R o [] k l e stop go p = go l p
  perform-IsKept R o (plain c ∷ s) k l (q, e) stop go p =
      perform-IsKept R o s k _ e stop go (kept.by_call c (o l c) l q p)
  perform-IsKept R o (say f ∷ s) k l e stop go p =
      perform-IsKept R o s k _ e stop go (kept.by_print f [] l p)
  perform-IsKept R o (nap n ∷ s) k l e stop go p =
      perform-IsKept R o s k _ e stop go (kept.by_sleep n l p)
  perform-IsKept R o (checked c t ∷ s) k l (q, e) stop go p =
      let p' = kept.by_call c (o l c) l q p in
      elim (Bool-cases (accepted c (o l c))) [
        | inl good ↦
            rw (verdict-accepted c (o l c) t o (called c (o l c) ∷ l) good)
              (perform-IsKept R o s k _ e stop go p')
        | inr bad ↦
            rw (verdict-refused c (o l c) t o (called c (o l c) ∷ l) bad)
              (stop _ (complaint-IsKept c (o l c) t _ p'))
      ]
