-- ===== src/Tests/Programs.antt =====
-- The theorems about whole programs at a concrete library.
use rabbitmq_work.Base.{◌≡◌, ◌≢◌, ◌⊎◌, refl, arith, [], ◌∷◌, true, pos}
use rabbitmq_work.Amqp.{log_category, log_root, log_configure}
use rabbitmq_work.Session.{ok, exited, aborted, called, logged, debug, warn, text, num, int}
use rabbitmq_work.Logging.{log_main, g_main, new_log_util, log_init, debug_log, log_at}
use rabbitmq_work.Logging.Current.{Delivered, log_after, log_after-Delivered}
use rabbitmq_work.Reader.Monitor.{violated, phase_of}
use rabbitmq_work.Server.{thread_b}
use rabbitmq_work.Server.Order.{thread_b_order, thread_b_ends}
use rabbitmq_work.Clients.Exchange.{exchange_main}
use rabbitmq_work.Clients.Exchange.Whole.{exchange_main_order}
use rabbitmq_work.Clients.Demo.{demo_main}
use rabbitmq_work.Clients.Demo.Whole.{demo_main_order, demo_main_ends}
use rabbitmq_work.Tests.{library, library-dry}

thread_b_order_example : phase_of 7 1 (thread_b 2 library []).1 ≢ violated
thread_b_order_example = thread_b_order 2 library [] refl

thread_b_ends_example : ((thread_b 4 library []).0 ≡ ok tt) ⊎ ((thread_b 4 library []).0 ≡ exited 1)
thread_b_ends_example = thread_b_ends 4 library [] 3 library-dry (omega arith) refl

exchange_main_order_example : phase_of 7 1 (exchange_main 2 library []).1 ≢ violated
exchange_main_order_example = exchange_main_order 2 library [] refl

demo_main_order_example : phase_of 7 1 (demo_main 2 library []).1 ≢ violated
demo_main_order_example = demo_main_order 2 library [] refl

demo_main_ends_example :
    let r = (demo_main 4 library []).0 in (r ≡ ok tt) ⊎ (r ≡ exited 1) ⊎ (r ≡ aborted)
demo_main_ends_example = demo_main_ends 4 library [] 3 library-dry (omega arith) refl

-- The settings are changed twice.
log_after_example :
    Delivered
      ("b.conf", "C")
      warn
      "low"
      []
      (log_after
        ("../conf/log4cpp.conf", "MAIN")
        (("a.conf", "MAIN") ∷ ("b.conf", "C") ∷ [])
        warn
        "low"
        []
        library
        [])
log_after_example =
    log_after-Delivered ("../conf/log4cpp.conf", "MAIN") (("a.conf", "MAIN") ∷ ("b.conf", "C") ∷ [])
      warn "low" [] library []

log_main_run : log_main library [] ≡ (
  ok tt,
  logged 6 debug "%s , %d, %s: This is debug:%d"
        (text "main.cpp" ∷ num 30 ∷ text "main" ∷ int (pos 5) ∷ [])
      ∷ called (log_category "MAIN") 6
      ∷ called log_root tt
      ∷ called (log_configure "../conf/log4cpp.conf") true
      ∷ [],
)
unfolding log_main g_main new_log_util log_init debug_log log_at
log_main_run = refl
