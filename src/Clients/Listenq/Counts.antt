-- ===== src/Clients/Listenq/Counts.antt =====
-- What a transcript of receive/src/amqp_listenq.cpp took, acknowledged and released.
use rabbitmq_work.Base.{
  ℕ, suc, ◌≤◌, ◌+◌, List, [], ◌∷◌, length, ◌≡◌, ◌⊎◌, refl, ap, ◌∙◌, sym, arith, false,
  if◌then◌else◌, pos,
}
use rabbitmq_work.Amqp.{
  Call, Response, Frame, consume_message, simple_wait_frame, basic_ack, destroy_envelope,
}
use rabbitmq_work.Session.{Log, Oracle, called}
use rabbitmq_work.Script.Kept.{IsKept}
use rabbitmq_work.Clients.Listenq.{decoded_tag, is_normal}

-- An ack: the connection, the channel, the tag and the flag for all the tags up to it.
abbrev pub Ack : Type 0
Ack = ℕ × ℕ × ℕ × ℕ

-- The acks so far, newest first.
abbrev pub acks : Log → List Ack
acks [] = []
acks (called (basic_ack conn channel tag multiple) _ ∷ l) = (conn, channel, tag, multiple) ∷ acks l
acks (_ ∷ l) = acks l

-- The ack for a frame read from a connection: on it, on channel 1, of the tag that the frame decodes
-- to and of no other.
abbrev pub ack_for : (Frame → ℕ) → ℕ → Frame → Ack
ack_for garbage conn f = (conn, 1, decoded_tag garbage f, 0)

-- The acks for the frames read so far, newest first.
abbrev pub heard : (Frame → ℕ) → Log → List Ack
heard garbage [] = []
heard garbage (called (simple_wait_frame conn) (pos _, f) ∷ l) =
    ack_for garbage conn f ∷ heard garbage l
heard garbage (_ ∷ l) = heard garbage l

-- How many messages were asked for, how many came, and how many envelopes were destroyed.
abbrev pub asked : Log → ℕ
asked [] = 0
asked (called (consume_message _) _ ∷ l) = suc (asked l)
asked (_ ∷ l) = asked l

abbrev pub taken : Log → ℕ
taken [] = 0
taken (called (consume_message _) (reply, _) ∷ l) =
    if is_normal reply then suc (taken l) else taken l
taken (_ ∷ l) = taken l

abbrev pub released : Log → ℕ
released [] = 0
released (called (destroy_envelope _) _ ∷ l) = suc (released l)
released (_ ∷ l) = released l

module _ (garbage : Frame → ℕ) where
  -- Between two rounds, with `extra` envelopes not destroyed.
  pub record Tally (extra : ℕ) (l : Log) : Type 0 where
    pub acked : acks l ≡ heard garbage l
    pub freed : released l ≡ length (acks l)
    pub balanced : taken l ≡ extra + released l

  abbrev pub Settled : Log → Type 0
  Settled l = Tally 0 l ⊎ Tally 1 l

-- The calls that none of these count.
abbrev pub IsUncounted : Call → Type 0
IsUncounted (consume_message _) = ⊥
IsUncounted (simple_wait_frame _) = ⊥
IsUncounted (basic_ack _ _ _ _) = ⊥
IsUncounted (destroy_envelope _) = ⊥
IsUncounted _ = Unit

-- Two transcripts with the same counts.
pub record SameCounts (garbage : Frame → ℕ) (l l' : Log) : Type 0 where
  pub same_acks : acks l' ≡ acks l
  pub same_heard : heard garbage l' ≡ heard garbage l
  pub same_asked : asked l' ≡ asked l
  pub same_taken : taken l' ≡ taken l
  pub same_released : released l' ≡ released l

called-SameCounts :
    (garbage : Frame → ℕ) (c : Call) (x : Response c) (l : Log)
    → IsUncounted c
    → SameCounts garbage l (called c x ∷ l)
called-SameCounts garbage (consume_message _) x l q = absurd q
called-SameCounts garbage (simple_wait_frame _) x l q = absurd q
called-SameCounts garbage (basic_ack _ _ _ _) x l q = absurd q
called-SameCounts garbage (destroy_envelope _) x l q = absurd q
called-SameCounts garbage _ x l q = record {
  same_acks = refl;
  same_heard = refl;
  same_asked = refl;
  same_taken = refl;
  same_released = refl;
}

SameCounts-trans :
    {garbage : Frame → ℕ} {l l' l'' : Log}
    → SameCounts garbage l l'
    → SameCounts garbage l' l''
    → SameCounts garbage l l''
SameCounts-trans a b = record {
  same_acks = b.same_acks ∙ a.same_acks;
  same_heard = b.same_heard ∙ a.same_heard;
  same_asked = b.same_asked ∙ a.same_asked;
  same_taken = b.same_taken ∙ a.same_taken;
  same_released = b.same_released ∙ a.same_released;
}

pub SameCounts-Tally :
    (garbage : Frame → ℕ) (n : ℕ) (l l' : Log)
    → SameCounts garbage l l'
    → Tally garbage n l
    → Tally garbage n l'
SameCounts-Tally garbage n l l' s t = record {
  acked = s.same_acks ∙ t.acked ∙ sym s.same_heard;
  freed = s.same_released ∙ t.freed ∙ ap (λ (x : List Ack). length x) (sym s.same_acks);
  balanced = omega (arith, s.same_taken, s.same_released, t.balanced);
}

abbrev pub same_counts : (garbage : Frame → ℕ) (l : Log) → SameCounts garbage l l
same_counts garbage l = record {
  same_acks = refl;
  same_heard = refl;
  same_asked = refl;
  same_taken = refl;
  same_released = refl;
}

pub SameCounts-IsKept : (garbage : Frame → ℕ) (l : Log) → IsKept IsUncounted (SameCounts garbage l)
SameCounts-IsKept garbage l = record {
  by_call = λ c x l' q s. SameCounts-trans s (called-SameCounts garbage c x l' q);
  by_print = λ f args l' s. record {
    same_acks = s.same_acks;
    same_heard = s.same_heard;
    same_asked = s.same_asked;
    same_taken = s.same_taken;
    same_released = s.same_released;
  };
  by_complaint = λ f args l' s. record {
    same_acks = s.same_acks;
    same_heard = s.same_heard;
    same_asked = s.same_asked;
    same_taken = s.same_taken;
    same_released = s.same_released;
  };
  by_sleep = λ n l' s. record {
    same_acks = s.same_acks;
    same_heard = s.same_heard;
    same_asked = s.same_asked;
    same_taken = s.same_taken;
    same_released = s.same_released;
  };
}

-- From the `n`th on, no message comes.
abbrev pub RunsOut : Oracle → ℕ → ℕ → Type 0
RunsOut o conn n = (l : Log) → n ≤ asked l → is_normal (o l (consume_message conn)).0 ≡ false
