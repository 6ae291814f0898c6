-- ===== src/Tests/Rabbit.antt =====
-- Connections, channels, producer and consumer of the RabbitMQ library.
use backend_common_component.Prelude.{
  ℕ, ◌≤◌, ◌≡◌, refl, Bool, true, false, none, some, List, [], ◌∷◌, ◌++◌, ◌==◌, sum_by,
}
use backend_common_component.Objects.{Heap}
use backend_common_component.Rabbit.Connection.{
  Connection, no_login, logged_in, init, reconnect, connection,
}
use backend_common_component.Rabbit.Channel.{Channel, channel_close}
use backend_common_component.Rabbit.Message.{Message, new_message}
use backend_common_component.Rabbit.ChannelPool.{
  Pool, make_pool, Action, acquires, tries, releases, moves, assigns, run, destroy_pool,
}
use backend_common_component.Rabbit.Custody.{run-custody, weight, is_channel, one, answered}
use backend_common_component.Rabbit.Handles.{
  Handles, Call, call, inits, reconnects, calls, all_lost,
}
use backend_common_component.Rabbit.Wire.{Request}
use backend_common_component.Rabbit.Producer.{send_all}
use backend_common_component.Rabbit.Rotation.{on_each, rotated, send_all-rotates}
use backend_common_component.Rabbit.Consumer.{Consumer, Turn, delivered, failed, consume_loop}
use backend_common_component.Rabbit.Consumed.{
  Event, recording, handling, reporting, acks, handlings, cancels, deliveries, consume_loop-acked,
}

-- A connection that a server let in, with a pool of two channels of which the second is refused.
abbrev fresh_heap : Heap
fresh_heap = record { live = []; tries = 0; bad_free = 0 }

abbrev fresh_connection : Connection
fresh_connection = record { conn = none; is_init = false; heap = fresh_heap }

abbrev answers : ℕ → Bool
answers i = i == 1

abbrev guard_program : List Action
guard_program = acquires ∷ tries ∷ moves 0 ∷ assigns 1 2 ∷ releases 0 ∷ []

abbrev logged : Connection
logged = record {
  conn = some 0;
  is_init = true;
  heap = record { live = 0 ∷ []; tries = 1; bad_free = 0 };
}

init_logs_in : init logged_in fresh_connection ≡ (true, logged)
unfolding init
init_logs_in = refl

logged_state : connection logged ≡ some 0
unfolding connection
logged_state = refl

run-custody_example :
    (weight (is_channel 1) (run guard_program (make_pool 2 answers logged)) ≡ answered 2 answers 1)
    × (weight one (run guard_program (make_pool 2 answers logged)) ≤ 2)
run-custody_example = run-custody 2 1 0 answers logged guard_program logged_state

-- Two failed logins and a third attempt by `init` leave one state without an owner.
abbrev dial_program : List Call
dial_program = inits no_login ∷ inits no_login ∷ reconnects logged_in ∷ []

dial_program_loses : all_lost dial_program fresh_connection [] ≡ 0 ∷ []
unfolding call calls init reconnect
dial_program_loses = refl

-- Two channels, and a message on each.
abbrev channel : ℕ → Channel
channel i = record { id = i; is_open = true }

abbrev two_channels : Pool
two_channels = record { channel_max = 2; channels = channel 1 ∷ channel 2 ∷ []; guards = [] }

abbrev letters : List Message
letters =
    new_message (b'a' ∷ []) (b'x' ∷ []) (b'k' ∷ [])
    ∷ new_message (b'b' ∷ []) (b'x' ∷ []) (b'k' ∷ [])
    ∷ []

abbrev noting : ℕ → Request → List ℕ → Bool × List ℕ
noting i r s = (true, i ∷ s)

send_all-rotates_example :
    (end : Pool) × (send_all noting letters two_channels []
      ≡ some (
        (on_each noting (channel 1 ∷ channel 2 ∷ []) letters []).0,
        end,
        (on_each noting (channel 1 ∷ channel 2 ∷ []) letters []).1,
      ))
    × (end.channels ≡ [] ++ channel 1 ∷ channel 2 ∷ [])
send_all-rotates_example =
    send_all-rotates noting (channel 1 ∷ channel 2 ∷ []) [] letters two_channels [] refl refl

channels_used : (on_each noting (channel 1 ∷ channel 2 ∷ []) letters []).1 ≡ 2 ∷ 1 ∷ []
channels_used = refl

-- A consumer that acknowledges by itself, two messages and a timeout.
abbrev careful : Consumer
careful = record { queue = b'q' ∷ []; consumer_tag = b't' ∷ []; no_ack = false; prefetch_count = 1 }

abbrev some_turns : List Turn
some_turns = delivered 7 ∷ failed true ∷ delivered 8 ∷ failed false ∷ []

abbrev agreeable : ℕ → Request → Bool
agreeable i r = true

consume_loop-acked_example :
    (log : List Event) × (consume_loop
        (recording agreeable)
        handling
        reporting
        careful
        some_turns
        two_channels
        []
      ≡ some (true, rotated (channel 1) (channel 2 ∷ []) two_channels, log))
    × ((n : ℕ) → sum_by (acks n) log ≡ sum_by (deliveries n) some_turns)
    × ((n : ℕ) → sum_by (handlings n) log ≡ sum_by (deliveries n) some_turns)
    × (sum_by cancels log ≡ 1)
consume_loop-acked_example =
    consume_loop-acked agreeable careful some_turns two_channels (channel 1) (channel 2 ∷ []) refl
      refl refl

consumed :
    (out : Bool × Pool × List Event) × (consume_loop
        (recording agreeable)
        handling
        reporting
        careful
        some_turns
        two_channels
        []
      ≡ some out)
    × (sum_by (acks 8) out.2 ≡ 1)
unfolding consume_loop
consumed = (_, refl, refl)

-- The destructor of the pool closes each channel once; a refusal is tried once more.
pool_closes :
    destroy_pool logged (λ i. i == 1) (λ _. true) two_channels []
    ≡ channel_close 2 ∷ channel_close 2 ∷ channel_close 1 ∷ []
unfolding destroy_pool connection
pool_closes = refl
