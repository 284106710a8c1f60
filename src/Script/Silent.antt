-- ===== src/Script/Silent.antt =====
-- Scripts that neither read frames nor acknowledge, and the monitor of `Reader.Monitor`.
use rabbitmq_work.Base.{ℕ, List, ◌∷◌, ◌≡◌, refl, ◌∙◌}
use rabbitmq_work.Amqp.{Call, Response, simple_wait_frame, basic_ack}
use rabbitmq_work.Session.{M, Log, Oracle, Outcome, called, exited}
use rabbitmq_work.Script.{Item, perform}
use rabbitmq_work.Script.Kept.{Each, IsKept, perform-IsKept}
use rabbitmq_work.Reader.Monitor.{phase_of, waits}

abbrev pub IsSilent : Call → Type 0
IsSilent (simple_wait_frame _) = ⊥
IsSilent (basic_ack _ _ _ _) = ⊥
IsSilent _ = Unit

abbrev pub AllSilent : List Item → Type 0
AllSilent s = Each IsSilent s

-- Two transcripts that the monitor cannot tell apart.
pub record Alike (conn ch : ℕ) (l l' : Log) : Type 0 where
  pub phases : phase_of conn ch l' ≡ phase_of conn ch l
  pub reads : waits l' ≡ waits l

module _ (conn ch : ℕ) where
  called-Alike :
      (c : Call) (x : Response c) (l : Log) → IsSilent c → Alike conn ch l (called c x ∷ l)
  called-Alike (simple_wait_frame _) x l h = absurd h
  called-Alike (basic_ack _ _ _ _) x l h = absurd h
  called-Alike _ x l h = record { phases = refl; reads = refl }

  Alike-trans : {l l' l'' : Log} → Alike conn ch l l' → Alike conn ch l' l'' → Alike conn ch l l''
  Alike-trans a b = record { phases = b.phases ∙ a.phases; reads = b.reads ∙ a.reads }

  Alike-IsKept : (l : Log) → IsKept IsSilent (Alike conn ch l)
  Alike-IsKept l = record {
    by_call = λ c x l' q a. Alike-trans a (called-Alike c x l' q);
    by_print = λ f args l' a. record { phases = a.phases; reads = a.reads };
    by_complaint = λ f args l' a. record { phases = a.phases; reads = a.reads };
    by_sleep = λ n l' a. record { phases = a.phases; reads = a.reads };
  }

  -- What holds of each stop and of what follows the script holds of the run.
  pub perform-Alike :
      {A : Type 0} (P : Outcome A × Log → Type 0) (o : Oracle) (s : List Item) (k : M A) (l : Log)
      → AllSilent s
      → ((l' : Log) → Alike conn ch l l' → P (exited 1, l'))
      → ((l' : Log) → Alike conn ch l l' → P (k o l'))
      → P (perform s k o l)
  perform-Alike P o s k l silent stop go =
      perform-IsKept IsSilent (Alike conn ch l) (Alike-IsKept l) P o s k l silent stop go
        (record { phases = refl; reads = refl })
