-- ===== src/Closing.antt =====
-- How every client ends: it closes channel 1 and the connection, and destroys the connection.
use rabbitmq_work.Base.{ℕ, List, [], ◌∷◌, ◌≡◌}
use rabbitmq_work.Amqp.{channel_shut, connection_shut, destroy_connection}
use rabbitmq_work.Session.{M, pure, call, ◌>>=◌, ◌>>◌}
use rabbitmq_work.Session.Laws.{>>=_pure}
use rabbitmq_work.Script.{Item, checked, perform}
use rabbitmq_work.Utils.{die_on_error, die_on_amqp_error}

-- The last three statements of each client.
unfoldable pub shut_down : ℕ → M (Unit {0})
shut_down conn = do
  die_on_amqp_error (← call (channel_shut conn 1)) "Closing channel"
  die_on_amqp_error (← call (connection_shut conn)) "Closing connection"
  status ← call (destroy_connection conn)
  die_on_error status "Ending connection"

abbrev pub closing_script : ℕ → List Item
closing_script conn =
    checked (channel_shut conn 1) "Closing channel"
    ∷ checked (connection_shut conn) "Closing connection"
    ∷ checked (destroy_connection conn) "Ending connection"
    ∷ []

pub shut_down-perform : (conn : ℕ) → shut_down conn ≡ perform (closing_script conn) (pure tt)
unfolding shut_down
shut_down-perform conn = simp >>=_pure
