-- ===== src/Server/Posts.antt =====
-- How many messages a run publishes.
use rabbitmq_work.Base.{
  ℕ, zero, suc, ◌+◌, ◌≤◌, ◌≡◌, ◌==◌, if◌then◌else◌, String, List, [], ◌∷◌, ◌++◌, arith, refl, inl,
  inr, Bool-cases,
}
use rabbitmq_work.Amqp.{
  Call, Response, RpcReply, normal, none_given, library_exception, server_exception, unlisted,
  connection_close, channel_close, other_reply, open_socket, tcp_socket_new, socket_open, login,
  get_rpc_reply, basic_publish, channel_shut, connection_shut, destroy_connection,
}
use rabbitmq_work.Session.{Log, Oracle, called, printed, slept, still_running}
use rabbitmq_work.Utils.Laws.{reply_complaint}
use rabbitmq_work.Script.{Item, plain, checked, say, nap, accepted, complaint, perform}
use rabbitmq_work.Script.Laws.{verdict-accepted, verdict-refused}
use rabbitmq_work.Server.{thread_a}
use rabbitmq_work.Server.Sending.{rounds_script, sender_script, thread_a-perform}

-- One for a call that publishes.
abbrev pub post : Call → ℕ
post (basic_publish _ _ _ _ _ _ _ _) = 1
post _ = 0

abbrev pub publishes : Log → ℕ
publishes [] = 0
publishes (called c _ ∷ l) = post c + publishes l
publishes (_ ∷ l) = publishes l

abbrev posts : List Item → ℕ
posts [] = 0
posts (plain c ∷ s) = post c + posts s
posts (checked c _ ∷ s) = post c + posts s
posts (_ ∷ s) = posts s

posts-append : (s t : List Item) → posts (s ++ t) ≡ posts s + posts t
posts-append [] t = omega arith
posts-append (plain c ∷ s) t = omega (arith, posts-append s t)
posts-append (checked c _ ∷ s) t = omega (arith, posts-append s t)
posts-append (say _ ∷ s) t = posts-append s t
posts-append (nap _ ∷ s) t = posts-append s t

reply_complaint-publishes :
    (x : RpcReply) (t : String) (l : Log) → publishes (reply_complaint x t ++ l) ≡ publishes l
reply_complaint-publishes normal t l = refl
reply_complaint-publishes none_given t l = refl
reply_complaint-publishes (library_exception _) t l = refl
reply_complaint-publishes (server_exception (connection_close _ _)) t l = refl
reply_complaint-publishes (server_exception (channel_close _ _)) t l = refl
reply_complaint-publishes (server_exception (other_reply _)) t l = refl
reply_complaint-publishes (unlisted _) t l = refl

complaint-publishes :
    (c : Call) (x : Response c) (t : String) (l : Log)
    → publishes (complaint c x t ++ l) ≡ publishes l
complaint-publishes (open_socket _ _) x t l = refl
complaint-publishes (basic_publish _ _ _ _ _ _ _ _) x t l = refl
complaint-publishes (destroy_connection _) x t l = refl
complaint-publishes (login _ _ _ _ _ _ _) x t l = reply_complaint-publishes x t l
complaint-publishes (get_rpc_reply _) x t l = reply_complaint-publishes x t l
complaint-publishes (channel_shut _ _) x t l = reply_complaint-publishes x t l
complaint-publishes (connection_shut _) x t l = reply_complaint-publishes x t l
complaint-publishes (tcp_socket_new _) x t l = refl
complaint-publishes (socket_open _ _ _) x t l = refl
complaint-publishes _ x t l = refl

-- A script that goes on running publishes no more than it has messages, wherever it stops.
perform-publishes :
    (o : Oracle) (s : List Item) (l : Log)
    → publishes (perform s (still_running {A = Unit {0}}) o l).1 ≤ posts s + publishes l
perform-publishes o [] l = omega arith
perform-publishes o (plain c ∷ s) l = omega (arith, perform-publishes o s (called c (o l c) ∷ l))
perform-publishes o (say format ∷ s) l = perform-publishes o s (printed format [] ∷ l)
perform-publishes o (nap n ∷ s) l = perform-publishes o s (slept n ∷ l)
perform-publishes o (checked c t ∷ s) l = elim (Bool-cases (accepted c (o l c))) [
  | inl good ↦
      rw (verdict-accepted c (o l c) t o (called c (o l c) ∷ l) good)
        (omega (arith, perform-publishes o s (called c (o l c) ∷ l)))
  | inr bad ↦
      rw (verdict-refused c (o l c) t o (called c (o l c) ∷ l) bad)
        (omega (arith, complaint-publishes c (o l c) t (called c (o l c) ∷ l)))
]

-- How many of the values that `thread_A` reads are not 0.
abbrev pub ups : (ℕ → ℕ) → ℕ → ℕ → ℕ
ups flags i zero = 0
ups flags i (suc n) = (if flags i == 0 then 0 else 1) + ups flags (suc i) n

rounds_script-posts :
    (flags : ℕ → ℕ) (conn i n : ℕ) → posts (rounds_script flags conn i n) ≡ ups flags i n
rounds_script-posts flags conn i zero = refl
rounds_script-posts flags conn i (suc n) = elim (Bool-cases (flags i == 0)) [
  | inl down ↦ rw down (omega (arith, rounds_script-posts flags conn (suc i) n))
  | inr up ↦ rw up (omega (arith, rounds_script-posts flags conn (suc i) n))
]

pub thread_a-publishes :
    (flags : ℕ → ℕ) (rounds : ℕ) (o : Oracle) (l : Log)
    → publishes (thread_a flags rounds o l).1 ≤ ups flags 0 rounds + publishes l
thread_a-publishes flags rounds o l = rw (thread_a-perform flags rounds o l) (
    omega (
      arith,
      perform-publishes o (sender_script flags rounds o l) _,
      rounds_script-posts flags _ 0 rounds,
    ))
