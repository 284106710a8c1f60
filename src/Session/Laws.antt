-- ===== src/Session/Laws.antt =====
-- The monad laws of a run, pointwise.
use rabbitmq_work.Base.{◌≡◌, refl, fun_ext}
use rabbitmq_work.Session.{
  Outcome, ok, exited, aborted, running, M, Oracle, Log, resume, pure, ◌>>=◌, ◌>>◌,
}

resume-resume :
    {A B C : Type 0} (f : A → M B) (g : B → M C) (o : Oracle) (r : Outcome A) (l : Log)
    → resume g o (resume f o r l).0 (resume f o r l).1 ≡ resume (λ a. f a >>= g) o r l
resume-resume f g o (ok a) l = refl
resume-resume f g o (exited n) l = refl
resume-resume f g o aborted l = refl
resume-resume f g o running l = refl

pub >>=_assoc :
    {A B C : Type 0} (m : M A) (f : A → M B) (g : B → M C)
    → (m >>= f >>= g) ≡ (m >>= λ a. f a >>= g)
>>=_assoc m f g = fun_ext λ o. fun_ext λ l. resume-resume f g o (m o l).0 (m o l).1

resume-pure : (o : Oracle) (r : Outcome (Unit {0})) (l : Log) → resume (λ _. pure tt) o r l ≡ (r, l)
resume-pure o (ok _) l = refl
resume-pure o (exited n) l = refl
resume-pure o aborted l = refl
resume-pure o running l = refl

pub >>=_pure : (m : M (Unit {0})) → (m >> pure tt) ≡ m
>>=_pure m = fun_ext λ o. fun_ext λ l. resume-pure o (m o l).0 (m o l).1
