-- ===== src/Clients/Exchange/Setup.antt =====
-- The setup that exchange/src/amqp_exchange_declare.cpp writes out is `Mqinit` of
-- c/recveive/src/mq.cpp at its constants.
use rabbitmq_work.Base.{◌≡◌}
use rabbitmq_work.Session.Laws.{>>=_assoc}
use rabbitmq_work.Mq.{mqinit}
use rabbitmq_work.Rabbitmq.{
  log_to_rabbitmq, declare_exchange, declare_queue, blind_exchange_queue, rabbitmq_consume,
}
use rabbitmq_work.Clients.Exchange.{exchange_setup}

-- The setup of the exchange client makes the same run as `Mqinit` at host "localhost", port 5672,
-- channel 1, "test1" as exchange, queue and key, type "direct" and the guest's login.
pub exchange_setup-mqinit :
    exchange_setup ≡ mqinit 1 "localhost" 5672 "test1" "test1" "test1" "direct" "guest" "guest"
unfolding exchange_setup mqinit log_to_rabbitmq declare_exchange declare_queue blind_exchange_queue
    rabbitmq_consume
exchange_setup-mqinit = simp >>=_assoc
