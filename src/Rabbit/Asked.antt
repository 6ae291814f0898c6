-- ===== src/Rabbit/Asked.antt =====
-- How the loops of broker.cpp come down to lists of requests, for `teardown`.
use backend_common_component.Prelude.{◌≡◌, refl, Bool, false, List, [], ◌∷◌, ◌++◌, map}
use backend_common_component.Ini.Reader.{Text}
use backend_common_component.Rabbit.Wire.{
  Request, delete_exchange, unbind_queue, delete_queue, exchange_delete, queue_delete, queue_unbind,
}
use backend_common_component.Rabbit.Broker.{
  ExchangeConfig, QueueConfig, Binding, Broker, remove_one, remove_its, unbind_all, unbind_queues,
  remove_queues, remove_all, teardown,
}
use backend_common_component.Rabbit.Topology.{ask_all, ask_all-append}

-- The requests of a teardown: the unbinding, then the deletions.
unfoldable pub unbinding : Text → Binding → Request
unbinding q b = unbind_queue q b.exchange b.routing_key

unfoldable pub unbindings : List (QueueConfig × List Binding) → List Request
unfolding unbinding
unbindings [] = []
unbindings ((q, bs) ∷ qs) = map (unbinding q.name) bs ++ unbindings qs

unfoldable pub deleting_queue : QueueConfig × List Binding → Request
deleting_queue (q, _) = delete_queue q.name false false

unfoldable pub deleting_exchange : ExchangeConfig → Request
deleting_exchange e = delete_exchange e.name false

unfoldable pub deletions : Broker → List Request
unfolding deleting_queue deleting_exchange
deletions b = map deleting_queue b.queues ++ map deleting_exchange b.exchanges

module _ {S : Type 0} (serve : Request → S → Bool × S) where
  unbind_all-asks :
      (q : Text) (bs : List Binding) (s : S)
      → unbind_all serve q bs s ≡ (ask_all serve (map (unbinding q) bs) s).1
  unfolding unbind_all queue_unbind unbinding ask_all
  unbind_all-asks q [] s = refl
  unbind_all-asks q (b ∷ bs) s = unbind_all-asks q bs (serve (unbinding q b) s).1

  unbind_queues-asks :
      (qs : List (QueueConfig × List Binding)) (s : S)
      → unbind_queues serve qs s ≡ (ask_all serve (unbindings qs) s).1
  unfolding unbind_queues unbindings ask_all
  unbind_queues-asks [] s = refl
  unbind_queues-asks ((q, bs) ∷ qs) s =
      rw (unbind_queues-asks qs (unbind_all serve q.name bs s)) rw (unbind_all-asks q.name bs s) rw
        (ask_all-append serve (map (unbinding q.name) bs) (unbindings qs) s) refl

  remove_queues-asks :
      (qs : List (QueueConfig × List Binding)) (s : S)
      → remove_queues serve qs s ≡ ask_all serve (map deleting_queue qs) s
  unfolding remove_queues remove_its queue_delete deleting_queue ask_all
  remove_queues-asks [] s = refl
  remove_queues-asks ((q, bs) ∷ qs) s =
      rw (remove_queues-asks qs (serve (deleting_queue (q, bs)) s).1) refl

  remove_all-asks :
      (es : List ExchangeConfig) (s : S)
      → remove_all serve es s ≡ ask_all serve (map deleting_exchange es) s
  unfolding remove_all remove_one exchange_delete deleting_exchange ask_all
  remove_all-asks [] s = refl
  remove_all-asks (e ∷ es) s = rw (remove_all-asks es (serve (deleting_exchange e) s).1) refl

  -- A teardown unbinds, whatever the answers, and then deletes queues and exchanges in that order.
  pub teardown-asks :
      (b : Broker) (s : S)
      → teardown serve b s ≡ ask_all serve (deletions b) (ask_all serve (unbindings b.queues) s).1
  unfolding teardown deletions
  teardown-asks b s =
      let t = (ask_all serve (unbindings b.queues) s).1 in
      rw (unbind_queues-asks b.queues s) rw
        (ask_all-append serve (map deleting_queue b.queues) (map deleting_exchange b.exchanges) t)
        rw (remove_queues-asks b.queues t) rw
        (remove_all-asks b.exchanges (ask_all serve (map deleting_queue b.queues) t).1) refl
