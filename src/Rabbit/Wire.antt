-- ===== src/Rabbit/Wire.antt =====
-- The operations of channel.cpp: each sends one request on the connection and looks at the answer. The
-- server and the AMQP library are a parameter `serve`, whose Boolean is what `check_rpc_reply`, or the
-- test of the status of a publication, makes of the answer. Tables of arguments are left out.
use backend_common_component.Prelude.{
  ℕ, ◌+◌, ◌*◌, ◌/◌, ◌%◌, ◌<◌, ◌≡◌, ℤ, pos, negsuc, some, none, arith, Bool, true, Option,
}
use backend_common_component.Ini.Reader.{Text}
use backend_common_component.Rabbit.Message.{Properties}

pub data Request : Type 0 where
  declare_exchange : (name type : Text) (passive durable auto_delete internal : Bool) → Request
  delete_exchange : (name : Text) (if_unused : Bool) → Request
  bind_exchange unbind_exchange : (destination source routing_key : Text) → Request
  declare_queue : (name : Text) (passive durable exclusive auto_delete : Bool) → Request
  delete_queue : (name : Text) (if_unused if_empty : Bool) → Request
  bind_queue unbind_queue : (queue exchange routing_key : Text) → Request
  purge_queue : (queue : Text) → Request
  publish :
      (exchange routing_key : Text) (props : Option Properties) (body : Text)
      (mandatory immediate : Bool)
      → Request
  consume : (queue consumer_tag : Text) (no_local no_ack exclusive : Bool) → Request
  ack : (delivery_tag : ℕ) (multiple : Bool) → Request
  nack : (delivery_tag : ℕ) (multiple requeue : Bool) → Request
  qos : (prefetch_size prefetch_count : ℕ) (global : Bool) → Request
  cancel : (consumer_tag : Text) → Request

-- A `timeval`, from milliseconds.
pub record Timeval : Type 0 where
  pub tv_sec : ℕ
  pub tv_usec : ℕ

unfoldable pub timeval : ℕ → Timeval
timeval timeout_ms = record { tv_sec = timeout_ms / 1000; tv_usec = timeout_ms % 1000 * 1000 }

-- The timeout of `set_rpc_timeout` and `consume_message`: none, when it is negative.
unfoldable pub timeout_of : ℤ → Option Timeval
unfolding timeval
timeout_of (pos timeout_ms) = some (timeval timeout_ms)
timeout_of (negsuc n) = none

-- The conversion is exact, with less than a second of microseconds.
timeval-exact :
    (n : ℕ)
    → ((timeval n).tv_sec * 1000000 + (timeval n).tv_usec ≡ n * 1000)
      × ((timeval n).tv_usec < 1000000)
unfolding timeval
timeval-exact n = (omega arith, omega arith)

module _ {S : Type 0} (serve : Request → S → Bool × S) where
  unfoldable pub exchange_declare : Text → Text → Bool → Bool → Bool → Bool → S → Bool × S
  exchange_declare name type passive durable auto_delete internal =
      serve (declare_exchange name type passive durable auto_delete internal)

  unfoldable pub exchange_delete : Text → Bool → S → Bool × S
  exchange_delete name if_unused = serve (delete_exchange name if_unused)

  unfoldable pub exchange_bind : Text → Text → Text → S → Bool × S
  exchange_bind destination source routing_key =
      serve (bind_exchange destination source routing_key)

  unfoldable pub exchange_unbind : Text → Text → Text → S → Bool × S
  exchange_unbind destination source routing_key =
      serve (unbind_exchange destination source routing_key)

  unfoldable pub queue_declare : Text → Bool → Bool → Bool → Bool → S → Bool × S
  queue_declare name passive durable exclusive auto_delete =
      serve (declare_queue name passive durable exclusive auto_delete)

  unfoldable pub queue_delete : Text → Bool → Bool → S → Bool × S
  queue_delete name if_unused if_empty = serve (delete_queue name if_unused if_empty)

  unfoldable pub queue_bind : Text → Text → Text → S → Bool × S
  queue_bind queue exchange routing_key = serve (bind_queue queue exchange routing_key)

  unfoldable pub queue_unbind : Text → Text → Text → S → Bool × S
  queue_unbind queue exchange routing_key = serve (unbind_queue queue exchange routing_key)

  unfoldable pub queue_purge : Text → S → Bool × S
  queue_purge queue = serve (purge_queue queue)

  unfoldable pub basic_publish : Text → Text → Option Properties → Text → Bool → Bool → S → Bool × S
  basic_publish exchange routing_key props body mandatory immediate =
      serve (publish exchange routing_key props body mandatory immediate)

  unfoldable pub basic_consume : Text → Text → Bool → Bool → Bool → S → Bool × S
  basic_consume queue consumer_tag no_local no_ack exclusive =
      serve (consume queue consumer_tag no_local no_ack exclusive)

  -- `basic_ack` and `basic_nack` do not look at the answer.
  unfoldable pub basic_ack : ℕ → Bool → S → Bool × S
  basic_ack delivery_tag multiple s = (true, (serve (ack delivery_tag multiple) s).1)

  unfoldable pub basic_nack : ℕ → Bool → Bool → S → Bool × S
  basic_nack delivery_tag multiple requeue s =
      (true, (serve (nack delivery_tag multiple requeue) s).1)

  unfoldable pub basic_qos : ℕ → ℕ → Bool → S → Bool × S
  basic_qos prefetch_size prefetch_count global = serve (qos prefetch_size prefetch_count global)

  unfoldable pub basic_cancel : Text → S → Bool × S
  basic_cancel consumer_tag = serve (cancel consumer_tag)
