-- ===== src/Rabbit/Consumer.antt =====
-- consumer.cpp: the loop that takes messages from a queue, and the thread that it runs in.
use backend_common_component.Prelude.{
  ℕ, Bool, true, false, Option, List, [], ◌∷◌, ◌%◌, if◌then◌else◌, ltb,
}
use backend_common_component.Ini.Reader.{Text}
use backend_common_component.Rabbit.Channel.{Channel}
use backend_common_component.Rabbit.Wire.{
  Request, basic_ack, basic_consume, basic_qos, basic_cancel,
}
use backend_common_component.Rabbit.ChannelPool.{Pool}
use backend_common_component.Rabbit.Producer.{guarded}

pub record Consumer : Type 0 where
  pub queue : Text
  pub consumer_tag : Text
  pub no_ack : Bool
  pub prefetch_count : ℕ

-- The constructor.
unfoldable pub new_consumer : Consumer
new_consumer = record {
  queue = [];
  consumer_tag =
      b'c' ∷ b'o' ∷ b'n' ∷ b's' ∷ b'u' ∷ b'm' ∷ b'e' ∷ b'r' ∷ b'_' ∷ b't' ∷ b'a' ∷ b'g' ∷ [];
  no_ack = true;
  prefetch_count = 0;
}

-- The setters; that of the prefetch count for a count that is not negative.
unfoldable set_queue : Text → Consumer → Consumer
set_queue queue c = record c { queue = queue }

unfoldable set_consumer_tag : Text → Consumer → Consumer
set_consumer_tag tag c = record c { consumer_tag = tag }

unfoldable set_no_ack : Bool → Consumer → Consumer
set_no_ack no_ack c = record c { no_ack = no_ack }

unfoldable set_prefetch_count : ℕ → Consumer → Consumer
set_prefetch_count count c = record c { prefetch_count = count }

-- A turn of the `while`, which found `m_running` set: `consume_message` gives a message with its tag,
-- or fails; then `m_running` is read again.
pub data Turn : Type 0 where
  delivered : (delivery_tag : ℕ) → Turn
  failed : (still_running : Bool) → Turn

-- The world `S` is acted on by the server on a channel, by `m_message_handler` and by
-- `m_error_handler`. A handler that is not set leaves it as it is.
module _ {S : Type 0} (serve : ℕ → Request → S → Bool × S) (on_message : ℕ → S → S)
    (on_error : S → S) where
  unfoldable pub acknowledge : Bool → ℕ → ℕ → S → S
  unfolding basic_ack
  acknowledge true id delivery_tag s = s
  acknowledge false id delivery_tag s = (basic_ack (serve id) delivery_tag false s).1

  unfoldable pub turn : Bool → ℕ → Turn → S → S
  unfolding acknowledge
  turn no_ack id (delivered delivery_tag) s =
      acknowledge no_ack id delivery_tag (on_message delivery_tag s)
  turn no_ack id (failed true) s = on_error s
  turn no_ack id (failed false) s = s

  -- The turns until `m_running` is found reset.
  unfoldable pub turns : Bool → ℕ → List Turn → S → S
  unfolding turn
  turns no_ack id [] s = s
  turns no_ack id (x ∷ xs) s = turns no_ack id xs (turn no_ack id x s)

  -- `basic_qos` takes the count as a `uint16_t`.
  unfoldable pub set_qos : ℕ → ℕ → S → S
  unfolding basic_qos
  set_qos id prefetch_count s =
      if ltb 0 prefetch_count
      then (basic_qos (serve id) 0 (prefetch_count % 65536) false s).1
      else s

  -- After `basic_consume`: the loop and the cancellation, or the report of the refusal.
  unfoldable pub consuming : Bool → Consumer → ℕ → List Turn → S → S
  unfolding turns basic_cancel
  consuming true c id xs s = (basic_cancel (serve id) c.consumer_tag (turns c.no_ack id xs s)).1
  consuming false c id xs s = on_error s

  -- On the channel of the guard; the Boolean is whether the consumption began.
  unfoldable pub consume_on : Consumer → List Turn → S → Channel → Bool × S
  unfolding set_qos basic_consume consuming
  consume_on c xs s ch =
      let (ok, t) =
        basic_consume (serve ch.id) c.queue c.consumer_tag false c.no_ack false
          (set_qos ch.id c.prefetch_count s) in
      (ok, consuming ok c ch.id xs t)

  unfoldable pub consume_loop : Consumer → List Turn → Pool → S → Option (Bool × Pool × S)
  unfolding guarded consume_on
  consume_loop c xs p s = guarded (false, on_error s) (consume_on c xs s) p

-- The life of the object: `m_running`, and whether `m_thread` is joinable.
pub record Life : Type 0 where
  pub running : Bool
  pub joinable : Bool

pub data Started : Type 0 where
  -- `std::terminate`, from the assignment to a `std::thread` that is joinable.
  terminated : Started
  alive : Life → Started

-- `start` on a queue name that is set or not.
unfoldable pub start : Bool → Life → Started
start named l =
    if l.running
    then alive l
    else if named
    then if l.joinable then terminated else alive (record { running = true; joinable = true })
    else alive l

unfoldable pub stop : Life → Life
stop l = record l { running = false }

-- `join` returns when the loop has ended, and each end of the loop leaves `m_running` reset.
unfoldable pub join : Life → Life
join l = if l.joinable then record { running = false; joinable = false } else l

-- The loop ends: by an error, or after `stop`.
unfoldable pub loop_ends : Life → Life
loop_ends l = if l.joinable then record l { running = false } else l

-- `~Consumer`.
unfoldable pub destroy : Life → Life
unfolding stop join
destroy l = join (stop l)

pub data Call : Type 0 where
  starts : (named : Bool) → Call
  stops joins ends : Call

unfoldable pub call : Call → Life → Started
unfolding start stop join loop_ends
call (starts named) l = start named l
call stops l = alive (stop l)
call joins l = alive (join l)
call ends l = alive (loop_ends l)

unfoldable pub run : List Call → Life → Started
unfolding call
run [] l = alive l
run (x ∷ xs) l = elim (call x l) [ terminated ↦ terminated | alive m ↦ run xs m ]
