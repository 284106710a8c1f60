-- ===== src/Mqtt.antt =====
-- work/src/mqtt/mqtt.cpp and mqttpublic.cpp, a wrapper of an MQTT client library and its callbacks,
-- and work/src/core/main.cpp.
pub mod Life
use Prim.Native.String.{String, ◌++◌}
use rabbitmq_work.Base.{
  ℕ, zero, ℤ, pos, List, [], ◌∷◌, Option, none, some, Bool, true, false, if◌then◌else◌,
}
use rabbitmq_work.Amqp.{
  Bytes, mqtt_create, mqtt_set_callbacks, mqtt_connect, mqtt_subscribe, mqtt_disconnect,
  mqtt_destroy, mqtt_free_message, mqtt_free_topic,
}
use rabbitmq_work.Session.{M, int, bytes, pure, call, printf, exit, still_running, ◌>>=◌, ◌>>◌}
use rabbitmq_work.Reader.{print_each}

-- `MQTTUtil`; the topic and the QOS are not set before a subscription.
pub record MqttUtil : Type 0 where
  pub client : ℕ
  pub ip : String
  pub address : String
  pub client_id : String
  pub subscription : Option (String × ℤ)

-- The constructor.
unfoldable pub new_mqtt_util : String → String → M MqttUtil
new_mqtt_util ip client_id = do
  let address : String = "tcp://" ++ (ip ++ ":1883")
  client ← call (mqtt_create address client_id)
  call (mqtt_set_callbacks client)
  pure (record {
    client = client;
    ip = ip;
    address = address;
    client_id = client_id;
    subscription = none;
  })

-- The destructor.
unfoldable pub drop_mqtt_util : MqttUtil → M (Unit {0})
drop_mqtt_util u = do call (mqtt_disconnect u.client 10000); call (mqtt_destroy u.client)

-- MQTTCLIENT_SUCCESS is 0.
abbrev pub is_success : ℤ → Bool
is_success (pos zero) = true
is_success _ = false

-- `MqttInit`; the status of `exit(-1)` is 255.
unfoldable pub mqtt_init : MqttUtil → M (Unit {0})
mqtt_init u = do
  rc ← call (mqtt_connect u.client)
  if is_success rc
      then printf "ok!\n" []
      else (printf "Failed to connect, return code %d\n" (int rc ∷ []) >> exit 255)

-- `MQTTSubscribe`
unfoldable pub subscribe_topic : MqttUtil → String → ℤ → M MqttUtil
subscribe_topic u topic qos = do
  mqtt_init u
  call (mqtt_subscribe u.client topic qos)
  pure (record u { subscription = some (topic, qos) })

-- `_OnMqttDeliverED`: the token that it leaves in `deliveredtoken`.
unfoldable pub on_mqtt_delivered : ℤ → M ℤ
on_mqtt_delivered dt =
    printf "Message with token value %d delivery confirmed\n" (int dt ∷ []) >> pure dt

-- `_OnMqttMsgArrvED`; `putchar` prints as `%c` does.
unfoldable pub on_mqtt_msg_arrived : Bytes → Bytes → M ℕ
on_mqtt_msg_arrived topic payload = do
  printf "Message arrived\n" []
  printf "     topic: %s\n" (bytes topic ∷ [])
  printf "   message: " []
  print_each payload
  printf "\n" []
  call (mqtt_free_message payload)
  call (mqtt_free_topic topic)
  pure 1

-- `_OnMqttConnLostED`
unfoldable pub on_mqtt_conn_lost : Bytes → M (Unit {0})
on_mqtt_conn_lost cause =
    printf "\nConnection lost\n" [] >> printf "     cause: %s\n" (bytes cause ∷ [])

-- `main` of work/src/core/main.cpp; its `while (1);` never ends.
unfoldable pub work_main : M (Unit {0})
work_main = do
  hh ← new_mqtt_util "localhost" "123"
  subscribe_topic hh "sensor" (pos 1)
  still_running
