-- ===== src/Script/Laws.antt =====
-- A script runs to its end, or exits at its first checked result that is not accepted.
use rabbitmq_work.Base.{
  String, List, [], ◌∷◌, ◌++◌, true, false, ◌≡◌, refl, ap, fun_ext, ◌∙◌, ◌⊎◌, inl, inr, Bool-cases,
}
use rabbitmq_work.Amqp.{
  Call, Response, open_socket, login, get_rpc_reply, basic_publish, channel_shut, connection_shut,
  destroy_connection, tcp_socket_new, socket_open,
}
use rabbitmq_work.Session.{
  M, Log, Oracle, Outcome, called, printed, slept, emit, printf, ok, exited, pure, call, ◌>>=◌,
  ◌>>◌,
}
use rabbitmq_work.Session.Laws.{>>=_assoc}
use rabbitmq_work.Utils.Laws.{
  die_on_error_accepted, die_on_error_refused, die_on_amqp_error_accepted,
  die_on_amqp_error_refused, die_if_null_accepted, die_if_null_refused, die_unless_zero_accepted,
  die_unless_zero_refused,
}
use rabbitmq_work.Script.{
  Item, plain, checked, say, nap, verdict, accepted, complaint, perform, transcript, AllAccepted,
}

pub verdict-accepted :
    (c : Call) (x : Response c) (context : String) (o : Oracle) (l : Log)
    → accepted c x ≡ true
    → verdict c x context o l ≡ (ok tt, l)
verdict-accepted (open_socket _ _) x t o l h = die_on_error_accepted t o l x h
verdict-accepted (basic_publish _ _ _ _ _ _ _ _) x t o l h = die_on_error_accepted t o l x h
verdict-accepted (destroy_connection _) x t o l h = die_on_error_accepted t o l x h
verdict-accepted (login _ _ _ _ _ _ _) x t o l h = die_on_amqp_error_accepted t o l x h
verdict-accepted (get_rpc_reply _) x t o l h = die_on_amqp_error_accepted t o l x h
verdict-accepted (channel_shut _ _) x t o l h = die_on_amqp_error_accepted t o l x h
verdict-accepted (connection_shut _) x t o l h = die_on_amqp_error_accepted t o l x h
verdict-accepted (tcp_socket_new _) x t o l h = die_if_null_accepted t o l x h
verdict-accepted (socket_open _ _ _) x t o l h = die_unless_zero_accepted t o l x h
verdict-accepted _ x t o l h = refl

pub verdict-refused :
    (c : Call) (x : Response c) (context : String) (o : Oracle) (l : Log)
    → accepted c x ≡ false
    → verdict c x context o l ≡ (exited 1, complaint c x context ++ l)
verdict-refused (open_socket _ _) x t o l h = die_on_error_refused t o l x h
verdict-refused (basic_publish _ _ _ _ _ _ _ _) x t o l h = die_on_error_refused t o l x h
verdict-refused (destroy_connection _) x t o l h = die_on_error_refused t o l x h
verdict-refused (login _ _ _ _ _ _ _) x t o l h = die_on_amqp_error_refused t o l x h
verdict-refused (get_rpc_reply _) x t o l h = die_on_amqp_error_refused t o l x h
verdict-refused (channel_shut _ _) x t o l h = die_on_amqp_error_refused t o l x h
verdict-refused (connection_shut _) x t o l h = die_on_amqp_error_refused t o l x h
verdict-refused (tcp_socket_new _) x t o l h = die_if_null_refused t o l x h
verdict-refused (socket_open _ _ _) x t o l h = die_unless_zero_refused t o l x h
verdict-refused _ x t o l h = cc

-- One script after another.
pub perform-append :
    {A : Type 0} (s t : List Item) (k : M A) → perform (s ++ t) k ≡ perform s (perform t k)
perform-append [] t k = refl
perform-append (plain c ∷ s) t k = rw (perform-append s t k)
perform-append (say format ∷ s) t k = rw (perform-append s t k)
perform-append (nap n ∷ s) t k = rw (perform-append s t k)
perform-append (checked c context ∷ s) t k = rw (perform-append s t k)

-- What follows a script may be moved into it.
pub perform->>= :
    {A B : Type 0} (s : List Item) (k : M A) (f : A → M B)
    → (perform s k >>= f) ≡ perform s (k >>= f)
perform->>= [] k f = refl
perform->>= (plain c ∷ s) k f = ap (λ m. call c >> m) (perform->>= s k f)
perform->>= (say format ∷ s) k f = ap (λ m. printf format [] >> m) (perform->>= s k f)
perform->>= (nap n ∷ s) k f = ap (λ m. emit (slept n) >> m) (perform->>= s k f)
perform->>= {B} (checked c context ∷ s) k f = fun_ext λ o. fun_ext λ l.
    ap (λ (m : M B). m o (called c (o l c) ∷ l))
      (>>=_assoc (verdict c (o l c) context) (λ _. perform s k) f
        ∙ ap (λ m. verdict c (o l c) context >> m) (perform->>= s k f))

-- Where a script stops before its end.
pub record Stops {A : Type 0} (o : Oracle) (s : List Item) (l : Log) (r : Outcome A × Log)
    : Type 0 where
  pub done : List Item
  pub failing : Call
  pub context : String
  pub skipped : List Item
  pub whole : s ≡ done ++ checked failing context ∷ skipped
  pub before : AllAccepted o done l
  pub refused : accepted failing (o (transcript o done l) failing) ≡ false
  pub result :
      let l' = transcript o done l in
      let x = o l' failing in r ≡ (exited 1, complaint failing x context ++ called failing x ∷ l')

-- One more item in front that a run gets past.
Stops-cons :
    {A : Type 0} (o : Oracle) (i : Item) (s : List Item) (l l' : Log) (r : Outcome A × Log)
    → ((done : List Item) → AllAccepted o done l' → AllAccepted o (i ∷ done) l)
    → ((done : List Item) → transcript o (i ∷ done) l ≡ transcript o done l')
    → Stops o s l' r
    → Stops o (i ∷ s) l r
Stops-cons o i s l l' r good same st = record {
  done = i ∷ st.done;
  failing = st.failing;
  context = st.context;
  skipped = st.skipped;
  whole = ap (λ (t : List Item). i ∷ t) st.whole;
  before = good st.done st.before;
  refused = rw (same st.done) st.refused;
  result = rw (same st.done) st.result;
}

pub perform_lem :
    {A : Type 0} (o : Oracle) (s : List Item) (l : Log) (k : M A)
    → (AllAccepted o s l × (perform s k o l ≡ k o (transcript o s l)))
      ⊎ Stops o s l (perform s k o l)
perform_lem o [] l k = inl (tt, refl)
perform_lem o (plain c ∷ s) l k = elim (perform_lem o s (called c (o l c) ∷ l) k) [
  | inl p ↦ inl p
  | inr st ↦ inr (Stops-cons o (plain c) s l _ _ (λ d a. a) (λ d. refl) st)
]
perform_lem o (say format ∷ s) l k = elim (perform_lem o s (printed format [] ∷ l) k) [
  | inl p ↦ inl p
  | inr st ↦ inr (Stops-cons o (say format) s l _ _ (λ d a. a) (λ d. refl) st)
]
perform_lem o (nap n ∷ s) l k = elim (perform_lem o s (slept n ∷ l) k) [
  | inl p ↦ inl p
  | inr st ↦ inr (Stops-cons o (nap n) s l _ _ (λ d a. a) (λ d. refl) st)
]
perform_lem o (checked c context ∷ s) l k = elim (Bool-cases (accepted c (o l c))) [
  | inl good ↦
      rw (verdict-accepted c (o l c) context o (called c (o l c) ∷ l) good)
        (elim (perform_lem o s (called c (o l c) ∷ l) k) [
          | inl p ↦ inl ((good, p.0), p.1)
          | inr st ↦
              inr (Stops-cons o (checked c context) s l _ _ (λ d a. (good, a)) (λ d. refl) st)
        ])
  | inr bad ↦ inr (record {
    done = [];
    failing = c;
    context = context;
    skipped = s;
    whole = refl;
    before = tt;
    refused = bad;
    result = rw (verdict-refused c (o l c) context o (called c (o l c) ∷ l) bad);
  })
]

-- An operation that is a script, with what follows it.
pub perform_then :
    {A : Type 0} (s : List Item) {m : M (Unit {0})} {k k' : M A}
    → m ≡ perform s (pure tt)
    → k ≡ k'
    → (m >> k) ≡ perform s k'
perform_then s {k} {k'} e f =
    ap (λ (n : M (Unit {0})). n >> k) e ∙ perform->>= s (pure tt) (λ _. k) ∙ ap (perform s) f
