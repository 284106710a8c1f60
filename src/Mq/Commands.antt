-- ===== src/Mq/Commands.antt =====
-- The handler of c/recveive/src/mq.cpp: what it does with a fragment.
use rabbitmq_work.Base.{
  ℕ, zero, suc, [], ◌∷◌, ◌++◌, true, false, ◌≡◌, ◌⊎◌, refl, sym, ◌∙◌, ap, ==_iff, inl, inr,
  Bool-cases,
}
use rabbitmq_work.Amqp.{Bytes}
use rabbitmq_work.Session.{Log, Oracle, ok, printed, flagged, alarmed, bytes}
use rabbitmq_work.Reader.Monitor.{phase_of, waits}
use rabbitmq_work.Reader.Body.{IsQuiet}
use rabbitmq_work.Mq.{c_string, is_m, handler_mq_message, receiver}

handler-silent :
    (b : Bytes) (o : Oracle) (l : Log) (conn ch : ℕ)
    → phase_of conn ch (handler_mq_message b o l).1 ≡ phase_of conn ch l
unfolding handler_mq_message
handler-silent b o l conn ch = elim (Bool-cases (is_m (c_string (b ++ 0 ∷ [])))) [
  | inl m ↦ rw m
  | inr other ↦ rw other
]

handler-steady : (b : Bytes) (o : Oracle) (l : Log) → waits (handler_mq_message b o l).1 ≡ waits l
unfolding handler_mq_message
handler-steady b o l = elim (Bool-cases (is_m (c_string (b ++ 0 ∷ [])))) [
  | inl m ↦ rw m
  | inr other ↦ rw other
]

handler-returns : (b : Bytes) (o : Oracle) (l : Log) → (handler_mq_message b o l).0 ≡ ok tt
unfolding handler_mq_message
handler-returns b o l = elim (Bool-cases (is_m (c_string (b ++ 0 ∷ [])))) [
  | inl m ↦ rw m
  | inr other ↦ rw other
]

pub receiver-IsQuiet : IsQuiet receiver
receiver-IsQuiet = record {
  returns = handler-returns;
  silent = handler-silent;
  steady = handler-steady;
}

-- A fragment that reads as the C string "m".
abbrev pub IsCommand : Bytes → Type 0
IsCommand f = (f ≡ b'm' ∷ []) ⊎ ((rest : Bytes) × (f ≡ b'm' ∷ 0 ∷ rest))

is_m_of_IsCommand : (f : Bytes) → IsCommand f → is_m (c_string (f ++ 0 ∷ [])) ≡ true
is_m_of_IsCommand f (inl e) = rw e
is_m_of_IsCommand f (inr (rest, e)) = rw e

IsCommand-of_is_m : (f : Bytes) → is_m (c_string (f ++ 0 ∷ [])) ≡ true → IsCommand f
IsCommand-of_is_m [] h = cc
IsCommand-of_is_m (zero ∷ f) h = cc
IsCommand-of_is_m (suc b ∷ []) h = inl (ap (λ (x : ℕ). x ∷ []) ((==_iff (suc b) b'm').0 h))
IsCommand-of_is_m (suc b ∷ zero ∷ f) h =
    inr (f, ap (λ (x : ℕ). x ∷ 0 ∷ f) ((==_iff (suc b) b'm').0 h))
IsCommand-of_is_m (suc b ∷ suc c ∷ f) h = cc

not-IsCommand : (f : Bytes) → is_m (c_string (f ++ 0 ∷ [])) ≡ false → ¬ IsCommand f
not-IsCommand f other h = cc (sym (is_m_of_IsCommand f h) ∙ other)

-- The handler prints every fragment, and returns. If the fragment reads as the C string "m", it then
-- says so, raises the flag and sets the alarm to two seconds; if not, it does nothing else.
pub handler_mq_message_lem :
    (f : Bytes) (o : Oracle) (l : Log)
    → let received = printed "receive:%s\n" (bytes (c_string (f ++ 0 ∷ [])) ∷ []) ∷ l in
      (IsCommand f
        × (handler_mq_message f o l
            ≡ (ok tt, alarmed 2 ∷ flagged 1 ∷ printed "message count\n" [] ∷ received)))
      ⊎ ((¬ IsCommand f) × (handler_mq_message f o l ≡ (ok tt, received)))
unfolding handler_mq_message
handler_mq_message_lem f o l = elim (Bool-cases (is_m (c_string (f ++ 0 ∷ [])))) [
  | inl m ↦ inl (IsCommand-of_is_m f m, rw m refl)
  | inr other ↦ inr (not-IsCommand f other, rw other refl)
]
