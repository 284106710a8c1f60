-- ===== src/Reader/Printing.antt =====
-- The clients that print a fragment do nothing else with it.
use rabbitmq_work.Base.{ℕ, [], ◌∷◌, ◌≡◌, refl}
use rabbitmq_work.Amqp.{Bytes}
use rabbitmq_work.Session.{Log, Oracle, ok, num, printed}
use rabbitmq_work.Reader.{Ending, print_each, print_fragment}
use rabbitmq_work.Reader.Monitor.{phase_of, waits}
use rabbitmq_work.Reader.Body.{IsQuiet}

-- The characters' transcript, newest first.
abbrev pub printed_each : Bytes → Log → Log
printed_each [] l = l
printed_each (b ∷ bs) l = printed_each bs (printed "%c" (num b ∷ []) ∷ l)

pub print_each_lem :
    (f : Bytes) (o : Oracle) (l : Log) → print_each f o l ≡ (ok tt, printed_each f l)
print_each_lem [] o l = refl
print_each_lem (b ∷ f) o l = print_each_lem f o (printed "%c" (num b ∷ []) ∷ l)

pub print_fragment_lem :
    (f : Bytes) (o : Oracle) (l : Log)
    → print_fragment f o l ≡ (ok tt, printed "\n" [] ∷ printed_each f l)
unfolding print_fragment
print_fragment_lem f o l = rw (print_each_lem f o l)

printed_each-silent :
    (f : Bytes) (l : Log) (conn ch : ℕ) → phase_of conn ch (printed_each f l) ≡ phase_of conn ch l
printed_each-silent [] l conn ch = refl
printed_each-silent (b ∷ f) l conn ch = printed_each-silent f _ conn ch

printed_each-steady : (f : Bytes) (l : Log) → waits (printed_each f l) ≡ waits l
printed_each-steady [] l = refl
printed_each-steady (b ∷ f) l = printed_each-steady f _

pub print_fragment-IsQuiet :
    (e e' : Ending) → IsQuiet (record { unexpected = e; overlong = e'; consume = print_fragment })
print_fragment-IsQuiet e e' = record {
  returns = λ b o l. rw (print_fragment_lem b o l);
  silent = λ b o l conn ch. rw (print_fragment_lem b o l) (printed_each-silent b l conn ch);
  steady = λ b o l. rw (print_fragment_lem b o l) (printed_each-steady b l);
}
