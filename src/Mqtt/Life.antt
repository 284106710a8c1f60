-- ===== src/Mqtt/Life.antt =====
-- The life of an MQTT client in work/src/mqtt.
use Prim.Native.String.{String}
use rabbitmq_work.Base.{ℕ, ℤ, Bool, List, [], ◌∷◌, ◌≡◌, ◌⊎◌, true, false, refl}
use rabbitmq_work.Amqp.{
  Bytes, mqtt_set_callbacks, mqtt_connect, mqtt_subscribe, mqtt_disconnect, mqtt_destroy,
  mqtt_free_message, mqtt_free_topic,
}
use rabbitmq_work.Session.{M, Log, Oracle, Outcome, pure, called, printed, bytes, ok, exited, ◌>>=◌}
use rabbitmq_work.Reader.Printing.{printed_each, print_each_lem}
use rabbitmq_work.Mqtt.{
  MqttUtil, is_success, new_mqtt_util, drop_mqtt_util, subscribe_topic, on_mqtt_msg_arrived,
}

-- The callbacks of a client are set.
abbrev HasCallbacks : ℕ → Log → Type 0
HasCallbacks c [] = ⊥
HasCallbacks c (called (mqtt_set_callbacks d) _ ∷ l) = d ≡ c
HasCallbacks c (_ ∷ l) = HasCallbacks c l

-- The newest call is a connect of the client, which was accepted or not.
abbrev JustAnswered : Bool → ℕ → Log → Type 0
JustAnswered accepted c (printed _ _ ∷ called (mqtt_connect d) rc ∷ l) =
    (d ≡ c) × (is_success rc ≡ accepted)
JustAnswered accepted c _ = ⊥

-- Every connect is one of this client after its callbacks were set, and every subscription is one of
-- this client right after a connect that was accepted.
abbrev pub Orderly : ℕ → Log → Type 0
Orderly c [] = Unit
Orderly c (called (mqtt_connect d) _ ∷ l) = (d ≡ c) × HasCallbacks c l × Orderly c l
Orderly c (called (mqtt_subscribe d _ _) _ ∷ l) = (d ≡ c) × JustAnswered true c l × Orderly c l
Orderly c (_ ∷ l) = Orderly c l

abbrev pub Topic : Type 0
Topic = String × ℤ

-- The topics subscribed to, the newest first.
abbrev pub topics : Log → List Topic
topics [] = []
topics (called (mqtt_subscribe _ topic qos) _ ∷ l) = (topic, qos) ∷ topics l
topics (_ ∷ l) = topics l

-- The same from a list, behind earlier ones.
abbrev pub newest_first : List Topic → List Topic → List Topic
newest_first [] done = done
newest_first (t ∷ ts) done = newest_first ts (t ∷ done)

-- `MQTTSubscribe` for one topic after the other, and the object from its constructor to its
-- destructor.
unfoldable pub subscribe_all : List Topic → MqttUtil → M MqttUtil
subscribe_all [] u = pure u
subscribe_all (t ∷ ts) u = subscribe_topic u t.0 t.1 >>= subscribe_all ts

unfoldable pub session : String → String → List Topic → M (Unit {0})
session ip client_id ts = do
  u ← new_mqtt_util ip client_id
  v ← subscribe_all ts u
  drop_mqtt_util v

abbrev Refused : {A : Type 0} → ℕ → Outcome A × Log → Type 0
Refused c r = (r.0 ≡ exited 255) × JustAnswered false c r.1 × Orderly c r.1

abbrev Subscribed : List Topic → MqttUtil → Log → Outcome MqttUtil × Log → Type 0
Subscribed ts u l r =
    ((w : MqttUtil) × (r.0 ≡ ok w)
      × (w.client ≡ u.client)
      × (topics r.1 ≡ newest_first ts (topics l))
      × Orderly u.client r.1)
    ⊎ Refused u.client r

-- How a session ends: with the client disconnected and destroyed after all the subscriptions, or
-- right after a connect that was refused.
abbrev pub Ended : ℕ → List Topic → Outcome (Unit {0}) × Log → Type 0
Ended c ts r =
    ((l : Log) × (r ≡ (ok tt, called (mqtt_destroy c) tt ∷ called (mqtt_disconnect c 10000) tt ∷ l))
      × (topics l ≡ newest_first ts [])
      × Orderly c l)
    ⊎ Refused c r

-- A message that arrives is printed, topic and then payload, each byte once and in order; then it is
-- freed and the topic after it, each once, and the library is told that it was handled.
pub on_mqtt_msg_arrived_lem :
    (topic payload : Bytes) (o : Oracle) (l : Log)
    → on_mqtt_msg_arrived topic payload o l ≡ (
      ok 1,
      called (mqtt_free_topic topic) tt
          ∷ called (mqtt_free_message payload) tt
          ∷ printed "\n" []
          ∷ printed_each payload (
              printed "   message: " []
              ∷ printed "     topic: %s\n" (bytes topic ∷ [])
              ∷ printed "Message arrived\n" []
              ∷ l),
    )
unfolding on_mqtt_msg_arrived
on_mqtt_msg_arrived_lem topic payload o l = rw (print_each_lem payload o) refl
