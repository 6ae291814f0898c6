-- ===== src/Rabbit/Effects.antt =====
-- What a server holds after `setup` and `teardown` of broker.cpp.
use mathlib.Core.List.{Memᴰ}
use backend_common_component.Prelude.{
  ◌≡◌, refl, sym, Bool, and_left, and_right, true, Option, some, List, [], ◌∷◌, ◌++◌, map,
}
use backend_common_component.Ini.Reader.{Text}
use backend_common_component.Rabbit.Wire.{Request}
use backend_common_component.Rabbit.Broker.{
  ExchangeConfig, QueueConfig, Binding, Broker, setup, teardown,
}
use backend_common_component.Rabbit.Topology.{
  Entity, exchange, queue, binding, is_named, creates, deletes, Server, declaring, binding_of,
  queue_requests, wanted, ask_all, setup-asks,
}
use backend_common_component.Rabbit.Asked.{
  unbindings, deleting_queue, deleting_exchange, deletions, teardown-asks,
}

-- The entities of a topology; those that a teardown deletes by name.
unfoldable pub bound : Text → Binding → Entity
bound q b = binding q b.exchange b.routing_key

unfoldable pub queue_entities : List (QueueConfig × List Binding) → List Entity
unfolding bound
queue_entities [] = []
queue_entities ((q, bs) ∷ qs) = queue q.name ∷ (map (bound q.name) bs ++ queue_entities qs)

unfoldable pub its_exchange : ExchangeConfig → Entity
its_exchange e = exchange e.name

unfoldable pub its_queue : QueueConfig × List Binding → Entity
its_queue (q, _) = queue q.name

unfoldable pub entities : Broker → List Entity
unfolding its_exchange queue_entities
entities b = map its_exchange b.exchanges ++ queue_entities b.queues

unfoldable pub deleted : Broker → List Entity
unfolding its_queue its_exchange
deleted b = map its_queue b.queues ++ map its_exchange b.exchanges

-- Each request of the list has its effect on the entity in the same place.
module _ (effect : Request → Option Entity) where
  data Effects : List Request → List Entity → Type 0 where
    done : Effects [] []
    next :
        {r : Request} {e : Entity} {rs : List Request} {es : List Entity}
        → effect r ≡ some e
        → Effects rs es
        → Effects (r ∷ rs) (e ∷ es)

  Effects-append :
      {q r : List Request} {d e : List Entity}
      → Effects q d
      → Effects r e
      → Effects (q ++ r) (d ++ e)
  Effects-append done k = k
  Effects-append (next h hs) k = next h (Effects-append hs k)

  Effects-map :
      {A : Type 0} (f : A → Request) (g : A → Entity)
      → ((a : A) → effect (f a) ≡ some (g a))
      → (xs : List A) → Effects (map f xs) (map g xs)
  Effects-map f g h [] = done
  Effects-map f g h (x ∷ xs) = next (h x) (Effects-map f g h xs)

  -- A property that a request of the kind brings about when accepted, and that each of them keeps,
  -- holds after a list of accepted requests of every entity they name.
  module _ {S : Type 0} (serve : Request → S → Bool × S) (P : Entity → S → Type 0)
      (kept : (r : Request) (d e : Entity) (s : S) → effect r ≡ some d → P e s → P e (serve r s).1)
      (made : (r : Request) (e : Entity) (s : S)
        → is_named e ≡ true
        → effect r ≡ some e
        → (serve r s).0 ≡ true
        → P e (serve r s).1) where
    ask_all-kept :
        {rs : List Request} {es : List Entity} (e : Entity) (s : S)
        → Effects rs es
        → P e s
        → P e (ask_all serve rs s).1
    unfolding ask_all
    ask_all-kept e s done p = p
    ask_all-kept e s (next {r = r} {e = d} h hs) p =
        ask_all-kept e (serve r s).1 hs (kept r d e s h p)

    ask_all-made :
        {rs : List Request} {es : List Entity} (e : Entity) (s : S)
        → Effects rs es
        → (ask_all serve rs s).0 ≡ true
        → is_named e ≡ true
        → Memᴰ e es
        → P e (ask_all serve rs s).1
    unfolding ask_all
    ask_all-made e s done ok named m = elim m [ ]
    ask_all-made e s (next {r = r} {rs = rs} h hs) ok named (Memᴰ.head q) =
        let t = (serve r s).1 in
        ask_all-kept e t hs
          (made r e s named (rw q h) (and_left (serve r s).0 (ask_all serve rs t).0 ok))
    ask_all-made e s (next {r = r} {rs = rs} h hs) ok named (Memᴰ.tail m) =
        let t = (serve r s).1 in
        ask_all-made e t hs (and_right (serve r s).0 (ask_all serve rs t).0 ok) named m

queue-Effects :
    (qs : List (QueueConfig × List Binding))
    → Effects creates (queue_requests qs) (queue_entities qs)
unfolding creates queue_requests queue_entities bound binding_of
queue-Effects [] = done
queue-Effects ((q, bs) ∷ qs) = next refl (
    Effects-append creates (Effects-map creates (binding_of q.name) (bound q.name) (λ b. refl) bs)
      (queue-Effects qs))

wanted-Effects : (b : Broker) → Effects creates (wanted b) (entities b)
unfolding creates wanted entities declaring its_exchange
wanted-Effects b =
    Effects-append creates (Effects-map creates declaring its_exchange (λ e. refl) b.exchanges)
      (queue-Effects b.queues)

deletions-Effects : (b : Broker) → Effects deletes (deletions b) (deleted b)
unfolding deletes deletions deleted deleting_queue deleting_exchange its_queue its_exchange
deletions-Effects b =
    Effects-append deletes (Effects-map deletes deleting_queue its_queue (λ q. refl) b.queues)
      (Effects-map deletes deleting_exchange its_exchange (λ e. refl) b.exchanges)

-- On a server that does what it accepts, a `setup` that reports success leaves every exchange, every
-- queue and every binding of the topology that has a name on the server.
pub setup-Has :
    (v : Server) (b : Broker) (s : v.State)
    → (setup v.serve b s).0 ≡ true
    → (e : Entity) → is_named e ≡ true
    → Memᴰ e (entities b)
    → v.Has e (setup v.serve b s).1
setup-Has v b s ok e named m =
    let asked = setup-asks v.serve b s ok in
    rw asked (
      ask_all-made creates v.serve v.Has v.kept v.made e s (wanted-Effects b) (rw (sym asked) ok)
        named m)

-- On a server that does what it accepts, a `teardown` that reports success leaves none of the queues
-- and exchanges of the topology that have a name.
pub teardown-gone :
    (v : Server) (b : Broker) (s : v.State)
    → (teardown v.serve b s).0 ≡ true
    → (e : Entity) → is_named e ≡ true
    → Memᴰ e (deleted b)
    → ¬ v.Has e (teardown v.serve b s).1
teardown-gone v b s ok e named m =
    let asked = teardown-asks v.serve b s in
    let t = (ask_all v.serve (unbindings b.queues) s).1 in
    rw asked (
      ask_all-made deletes v.serve (λ e s. ¬ v.Has e s) v.absent v.gone e t (deletions-Effects b)
        (rw (sym asked) ok) named m)
