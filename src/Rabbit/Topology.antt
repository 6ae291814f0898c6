-- ===== src/Rabbit/Topology.antt =====
-- What `setup` and `teardown` of broker.cpp leave on the server.
use backend_common_component.Prelude.{
  ◌≡◌, refl, sym, Bool, true, false, ◌&&◌, Option, none, some, List, [], ◌∷◌, ◌++◌, map, false≢true,
  and_right,
}
use backend_common_component.Ini.Reader.{Text}
use backend_common_component.Rabbit.Wire.{
  Request, declare_exchange, delete_exchange, declare_queue, delete_queue, bind_queue, unbind_queue,
  exchange_declare, queue_declare, queue_bind,
}
use backend_common_component.Rabbit.Broker.{
  type_name, ExchangeConfig, QueueConfig, Binding, Broker, declare_one, declare_its, declare_all,
  bind_all, bind_if, queues_all, setup,
}

-- What a server holds.
pub data Entity : Type 0 where
  exchange queue : (name : Text) → Entity
  binding : (queue exchange routing_key : Text) → Entity

-- A queue without a name stands, in a request, for another: the server names it, or takes the last one.
unfoldable pub is_named : Entity → Bool
is_named (queue []) = false
is_named (binding [] _ _) = false
is_named _ = true

-- The entity a request creates, and the one it deletes.
unfoldable pub creates : Request → Option Entity
creates (declare_exchange n _ _ _ _ _) = some (exchange n)
creates (declare_queue n _ _ _ _) = some (queue n)
creates (bind_queue q x k) = some (binding q x k)
creates _ = none

unfoldable pub deletes : Request → Option Entity
deletes (delete_exchange n _) = some (exchange n)
deletes (delete_queue n _ _) = some (queue n)
deletes (unbind_queue q x k) = some (binding q x k)
deletes _ = none

-- The server: a request that it accepts has its effect, one that creates takes nothing away, and one
-- that deletes brings nothing into being.
pub record Server : Type 1 where
  pub State : Type 0
  pub serve : Request → State → Bool × State
  pub Has : Entity → State → Type 0
  pub made :
      (r : Request) (e : Entity) (s : State)
      → is_named e ≡ true
      → creates r ≡ some e
      → (serve r s).0 ≡ true
      → Has e (serve r s).1
  pub kept :
      (r : Request) (d e : Entity) (s : State) → creates r ≡ some d → Has e s → Has e (serve r s).1
  pub gone :
      (r : Request) (e : Entity) (s : State)
      → is_named e ≡ true
      → deletes r ≡ some e
      → (serve r s).0 ≡ true
      → ¬ Has e (serve r s).1
  pub absent :
      (r : Request) (d e : Entity) (s : State)
      → deletes r ≡ some d
      → ¬ Has e s
      → ¬ Has e (serve r s).1

-- The requests of a topology, in the order of the file.
unfoldable pub declaring : ExchangeConfig → Request
unfolding type_name
declaring e = declare_exchange e.name (type_name e.type) false e.durable e.auto_delete e.internal

unfoldable pub binding_of : Text → Binding → Request
binding_of q b = bind_queue q b.exchange b.routing_key

unfoldable pub queue_requests : List (QueueConfig × List Binding) → List Request
unfolding binding_of
queue_requests [] = []
queue_requests ((q, bs) ∷ qs) =
    declare_queue q.name false q.durable q.exclusive q.auto_delete
    ∷ (map (binding_of q.name) bs ++ queue_requests qs)

unfoldable pub wanted : Broker → List Request
unfolding declaring queue_requests
wanted b = map declaring b.exchanges ++ queue_requests b.queues

module _ {S : Type 0} (serve : Request → S → Bool × S) where
  -- Requests one after the other, whatever the answers, and whether all were accepted.
  unfoldable pub ask_all : List Request → S → Bool × S
  ask_all [] s = (true, s)
  ask_all (r ∷ rs) s =
      let (ok, t) = serve r s in let (all_ok, u) = ask_all rs t in (ok && all_ok, u)

  -- A step after another, which is tried whatever the first one answers.
  abbrev and_then : Bool × S → (S → Bool × S) → Bool × S
  and_then r k = (r.0 && (k r.1).0, (k r.1).1)

  &&-assoc : (a b c : Bool) → (a && b) && c ≡ a && (b && c)
  &&-assoc true b c = refl
  &&-assoc false b c = refl

  pub ask_all-append :
      (q r : List Request) (s : S) → ask_all (q ++ r) s ≡ and_then (ask_all q s) (ask_all r)
  unfolding ask_all
  ask_all-append [] r s = refl
  ask_all-append (x ∷ q) r s =
      let t = (serve x s).1 in
      rw (ask_all-append q r t) rw
        (&&-assoc (serve x s).0 (ask_all q t).0 (ask_all r (ask_all q t).1).0) refl

  declare_all-asks :
      (es : List ExchangeConfig) (s : S) → declare_all serve es s ≡ ask_all (map declaring es) s
  unfolding declare_all declare_one exchange_declare declaring type_name ask_all
  declare_all-asks [] s = refl
  declare_all-asks (e ∷ es) s = rw (declare_all-asks es (serve (declaring e) s).1) refl

  bind_all-asks :
      (q : Text) (bs : List Binding) (s : S)
      → bind_all serve q bs s ≡ ask_all (map (binding_of q) bs) s
  unfolding bind_all queue_bind binding_of ask_all
  bind_all-asks q [] s = refl
  bind_all-asks q (b ∷ bs) s = rw (bind_all-asks q bs (serve (binding_of q b) s).1) refl

  then-asks :
      (q asked : List Request) (first : Bool × S) (rest : S → Bool × S) (t : S)
      → first ≡ ask_all q t
      → ((u : S) → (rest u).0 ≡ true → rest u ≡ ask_all asked u)
      → (and_then first rest).0 ≡ true
      → and_then first rest ≡ ask_all (q ++ asked) t
  then-asks q asked first rest t e same h =
      rw (ask_all-append q asked t) rw (sym e) rw
        (same first.1 (and_right first.0 (rest first.1).0 h)) refl

  -- One queue with its bindings, before `rest`.
  queue_step :
      (q : QueueConfig) (bs : List Binding) (rest : S → Bool × S) (asked : List Request) (ok : Bool)
      → ((u : S) → (rest u).0 ≡ true → rest u ≡ ask_all asked u)
      → (t : S) → (and_then (bind_if serve ok q.name bs t) rest).0 ≡ true
      → and_then (bind_if serve ok q.name bs t) rest
        ≡ and_then (ok, t) (ask_all (map (binding_of q.name) bs ++ asked))
  unfolding bind_if
  queue_step q bs rest asked true same t h =
      then-asks (map (binding_of q.name) bs) asked (bind_all serve q.name bs t) rest t
        (bind_all-asks q.name bs t) same h
  queue_step q bs rest asked false same t h = absurd (false≢true h)

  queues_all-asks :
      (qs : List (QueueConfig × List Binding)) (s : S)
      → (queues_all serve qs s).0 ≡ true
      → queues_all serve qs s ≡ ask_all (queue_requests qs) s
  unfolding queues_all declare_its queue_declare queue_requests ask_all
  queues_all-asks [] s h = refl
  queues_all-asks ((q, bs) ∷ qs) s h =
      let r = declare_queue q.name false q.durable q.exclusive q.auto_delete in
      queue_step q bs (queues_all serve qs) (queue_requests qs) (serve r s).0 (queues_all-asks qs)
        (serve r s).1 h

  -- A topology that `setup` reports as made was made by its requests, each accepted, in their order.
  pub setup-asks :
      (b : Broker) (s : S) → (setup serve b s).0 ≡ true → setup serve b s ≡ ask_all (wanted b) s
  unfolding setup wanted
  setup-asks b s h =
      then-asks (map declaring b.exchanges) (queue_requests b.queues)
        (declare_all serve b.exchanges s) (queues_all serve b.queues) s
        (declare_all-asks b.exchanges s) (queues_all-asks b.queues) h
