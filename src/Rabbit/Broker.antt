-- ===== src/Rabbit/Broker.antt =====
-- broker.cpp, with exchange.cpp and queue.cpp: declaring a topology and taking it down.
use backend_common_component.Prelude.{Bool, true, false, ◌&&◌, List, [], ◌∷◌, ◌++◌}
use backend_common_component.Ini.Reader.{Text}
use backend_common_component.Rabbit.Wire.{
  Request, exchange_declare, exchange_delete, queue_declare, queue_delete, queue_bind, queue_unbind,
}

pub data ExchangeType : Type 0 where
  direct fanout topic headers : ExchangeType

-- `exchange_type_to_string`.
unfoldable pub type_name : ExchangeType → Text
type_name direct = b'd' ∷ b'i' ∷ b'r' ∷ b'e' ∷ b'c' ∷ b't' ∷ []
type_name fanout = b'f' ∷ b'a' ∷ b'n' ∷ b'o' ∷ b'u' ∷ b't' ∷ []
type_name topic = b't' ∷ b'o' ∷ b'p' ∷ b'i' ∷ b'c' ∷ []
type_name headers = b'h' ∷ b'e' ∷ b'a' ∷ b'd' ∷ b'e' ∷ b'r' ∷ b's' ∷ []

pub record ExchangeConfig : Type 0 where
  pub name : Text
  pub type : ExchangeType
  pub durable : Bool
  pub auto_delete : Bool
  pub internal : Bool

pub record QueueConfig : Type 0 where
  pub name : Text
  pub durable : Bool
  pub exclusive : Bool
  pub auto_delete : Bool

pub record Binding : Type 0 where
  pub exchange : Text
  pub routing_key : Text

pub record Broker : Type 0 where
  pub exchanges : List ExchangeConfig
  pub queues : List (QueueConfig × List Binding)

unfoldable pub add_exchange : ExchangeConfig → Broker → Broker
add_exchange cfg b = record b { exchanges = b.exchanges ++ (cfg ∷ []) }

unfoldable pub add_queue : QueueConfig → List Binding → Broker → Broker
add_queue cfg bindings b = record b { queues = b.queues ++ ((cfg, bindings) ∷ []) }

module _ {S : Type 0} (serve : Request → S → Bool × S) where
  -- `Exchange::declare` and `remove`, `Queue::declare` and `remove`.
  unfoldable pub declare_one : ExchangeConfig → S → Bool × S
  unfolding exchange_declare type_name
  declare_one e =
      exchange_declare serve e.name (type_name e.type) false e.durable e.auto_delete e.internal

  unfoldable pub remove_one : ExchangeConfig → S → Bool × S
  unfolding exchange_delete
  remove_one e = exchange_delete serve e.name false

  unfoldable pub declare_its : QueueConfig → S → Bool × S
  unfolding queue_declare
  declare_its q = queue_declare serve q.name false q.durable q.exclusive q.auto_delete

  unfoldable pub remove_its : QueueConfig → S → Bool × S
  unfolding queue_delete
  remove_its q = queue_delete serve q.name false false

  -- The loops of `setup`. Each goes on after a refusal, and remembers it in `all_ok`.
  unfoldable pub declare_all : List ExchangeConfig → S → Bool × S
  unfolding declare_one
  declare_all [] s = (true, s)
  declare_all (e ∷ es) s =
      let (ok, t) = declare_one e s in let (all_ok, u) = declare_all es t in (ok && all_ok, u)

  unfoldable pub bind_all : Text → List Binding → S → Bool × S
  unfolding queue_bind
  bind_all queue [] s = (true, s)
  bind_all queue (b ∷ bs) s =
      let (ok, t) = queue_bind serve queue b.exchange b.routing_key s in
      let (all_ok, u) = bind_all queue bs t in (ok && all_ok, u)

  -- A queue that is refused gets no bindings.
  unfoldable pub bind_if : Bool → Text → List Binding → S → Bool × S
  unfolding bind_all
  bind_if true queue bs s = bind_all queue bs s
  bind_if false queue bs s = (false, s)

  unfoldable pub queues_all : List (QueueConfig × List Binding) → S → Bool × S
  unfolding declare_its bind_if
  queues_all [] s = (true, s)
  queues_all ((q, bs) ∷ qs) s =
      let (ok, t) = declare_its q s in
      let (bound, u) = bind_if ok q.name bs t in
      let (all_ok, v) = queues_all qs u in (bound && all_ok, v)

  unfoldable pub setup : Broker → S → Bool × S
  unfolding declare_all queues_all
  setup b s =
      let (declared, t) = declare_all b.exchanges s in
      let (all_ok, u) = queues_all b.queues t in (declared && all_ok, u)

  -- The loops of `teardown`. The answers to the unbinding are not looked at.
  unfoldable pub unbind_all : Text → List Binding → S → S
  unfolding queue_unbind
  unbind_all queue [] s = s
  unbind_all queue (b ∷ bs) s =
      unbind_all queue bs (queue_unbind serve queue b.exchange b.routing_key s).1

  unfoldable pub unbind_queues : List (QueueConfig × List Binding) → S → S
  unfolding unbind_all
  unbind_queues [] s = s
  unbind_queues ((q, bs) ∷ qs) s = unbind_queues qs (unbind_all q.name bs s)

  unfoldable pub remove_queues : List (QueueConfig × List Binding) → S → Bool × S
  unfolding remove_its
  remove_queues [] s = (true, s)
  remove_queues ((q, _) ∷ qs) s =
      let (ok, t) = remove_its q s in let (all_ok, u) = remove_queues qs t in (ok && all_ok, u)

  unfoldable pub remove_all : List ExchangeConfig → S → Bool × S
  unfolding remove_one
  remove_all [] s = (true, s)
  remove_all (e ∷ es) s =
      let (ok, t) = remove_one e s in let (all_ok, u) = remove_all es t in (ok && all_ok, u)

  unfoldable pub teardown : Broker → S → Bool × S
  unfolding unbind_queues remove_queues remove_all
  teardown b s =
      let (removed, t) = remove_queues b.queues (unbind_queues b.queues s) in
      let (all_ok, u) = remove_all b.exchanges t in (removed && all_ok, u)
