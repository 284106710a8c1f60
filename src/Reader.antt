-- ===== src/Reader.antt =====
-- The read loop that the consumers share, as `ReandMqMessage` of c/recveive/src/rabbitmq.cpp has
-- it. The copies in the other clients differ in what they do with a body fragment and in how they
-- leave on a frame that they did not expect, which a `Consumer` says. A round of either loop takes
-- one from `rounds`; a loop that is out of rounds is `running`.
pub mod Monitor
pub mod Body
pub mod Order
pub mod Ends
pub mod Results
pub mod Printing
pub mod Closed
pub mod Kept
use rabbitmq_work.Base.{
  ℕ, zero, suc, ◌+◌, ◌%◌, ◌^◌, String, List, [], ◌∷◌, Option, none, some, length, ltb, ◌==◌,
  if◌then◌else◌, is_negative,
}
use rabbitmq_work.Amqp.{
  Bytes, Deliver, Method, basic_deliver, other_method, Frame, method, header, body, other_frame,
  maybe_release_buffers, simple_wait_frame, basic_ack,
}
use rabbitmq_work.Session.{
  M, int, num, bytes, method_text, pure, ◌>>=◌, ◌>>◌, call, printf, eprintf, abort, still_running,
}

-- `break`, or `abort` (a failed `assert` too).
pub data Ending : Type 0 where
  leave crash : Ending

pub record Consumer : Type 0 where
  pub unexpected : Ending
  pub overlong : Ending
  pub consume : Bytes → M (Unit {0})

abbrev conclude : {A : Type 0} → Ending → M A → M A
conclude leave k = k
conclude crash k = abort

-- `frame.frame_type`: AMQP_FRAME_METHOD, AMQP_FRAME_HEADER and AMQP_FRAME_BODY are 1, 2 and 3.
abbrev frame_type : Frame → ℕ
frame_type (method _ _) = 1
frame_type (header _ _ _) = 2
frame_type (body _ _) = 3
frame_type (other_frame t _) = t

abbrev frame_channel : Frame → ℕ
frame_channel (method ch _) = ch
frame_channel (header ch _ _) = ch
frame_channel (body ch _) = ch
frame_channel (other_frame _ ch) = ch

-- AMQP_BASIC_DELIVER_METHOD
abbrev basic_deliver_method : ℕ
basic_deliver_method = 0x003C003C

abbrev print_content_type : Option Bytes → M (Unit {0})
print_content_type none = pure tt
print_content_type (some t) = printf "Content-type: %.*s\n" (bytes t ∷ [])

-- What the body loop does with a frame; `again` is its next round. `size_t` has 64 bits.
unfoldable pub take_fragment : Consumer → (ℕ → M ℕ) → ℕ → ℕ → Frame → M ℕ
take_fragment c again target received (body _ fragment) =
    let received' = (received + length fragment) % 2 ^ 64 in
    printf "ok!\n" []
    >> (if ltb target received'
        then conclude c.overlong (pure received')
        else (c.consume fragment >> again received'))
take_fragment c again target received _ =
    eprintf "Expected body!" [] >> conclude c.unexpected (pure received)

-- The loop over the body frames, which returns `body_received`.
unfoldable pub read_body : Consumer → ℕ → ℕ → ℕ → ℕ → M ℕ
unfolding take_fragment
read_body c conn zero target received = still_running
read_body c conn (suc rounds) target received =
    if ltb received target
    then (call (simple_wait_frame conn) >>= λ answer.
        if is_negative answer.0
        then pure received
        else take_fragment c (read_body c conn rounds target) target received answer.1)
    else pure received

-- From the header frame to the ack.
unfoldable pub take_header : Consumer → ℕ → ℕ → ℕ → M (Unit {0}) → ℕ → Frame → M (Unit {0})
take_header c conn ch rounds again tag (header _ content_type body_target) = do
  print_content_type content_type
  body_received ← read_body c conn rounds body_target 0
  if body_received == body_target then (call (basic_ack conn ch tag 0) >> again) else pure tt
take_header c conn ch rounds again tag _ =
    eprintf "Expected header!" [] >> conclude c.unexpected (pure tt)

-- From the first frame on; `again` is the next round (`continue`).
unfoldable pub take_first : Consumer → ℕ → ℕ → ℕ → M (Unit {0}) → Frame → M (Unit {0})
unfolding take_header
take_first c conn ch rounds again (method _ (basic_deliver d)) = do
  printf "Method %s\n" (method_text basic_deliver_method ∷ [])
  printf "Delivery %u, exchange %.*s routingkey %.*s\n"
      (num (d.delivery_tag % 2 ^ 32) ∷ bytes d.exchange ∷ bytes d.routing_key ∷ [])
  answer ← call (simple_wait_frame conn)
  if is_negative answer.0
      then pure tt
      else take_header c conn ch rounds again d.delivery_tag answer.1
take_first c conn ch rounds again (method _ (other_method id)) =
    printf "Method %s\n" (method_text id ∷ []) >> again
take_first c conn ch rounds again _ = again

-- `while (1)`
unfoldable pub read_loop : Consumer → ℕ → ℕ → ℕ → M (Unit {0})
unfolding take_first
read_loop c conn ch zero = still_running
read_loop c conn ch (suc rounds) = do
  call (maybe_release_buffers conn)
  answer ← call (simple_wait_frame conn)
  printf "Result %d\n" (int answer.0 ∷ [])
  if is_negative answer.0
      then pure tt
      else (printf "Frame type %d, channel %d\n"
            (num (frame_type answer.1) ∷ num (frame_channel answer.1) ∷ [])
          >> take_first c conn ch rounds (read_loop c conn ch rounds) answer.1)

abbrev pub print_each : Bytes → M (Unit {0})
print_each [] = pure tt
print_each (b ∷ bs) = printf "%c" (num b ∷ []) >> print_each bs

-- The `for` loop over a fragment, in the clients that print it.
unfoldable pub print_fragment : Bytes → M (Unit {0})
print_fragment fragment = print_each fragment >> printf "\n" []
