-- ===== src/Tests/Brokers.antt =====
-- A topology of the RabbitMQ library on a small server.
use mathlib.Core.List.{Memᴰ}
use backend_common_component.Prelude.{
  ◌≡◌, refl, sym, ◌∙◌, Bool, true, false, ◌&&◌, Option, none, some, [], ◌∷◌, if◌then◌else◌, if_rule,
  false≢true,
}
use backend_common_component.Ini.Reader.{text_eq}
use backend_common_component.Ini.Texts.{text_eq_refl}
use backend_common_component.Rabbit.Wire.{
  Request, declare_exchange, delete_exchange, bind_exchange, unbind_exchange, declare_queue,
  delete_queue, bind_queue, unbind_queue, purge_queue, publish, consume, ack, nack, qos, cancel,
}
use backend_common_component.Rabbit.Broker.{Broker, direct, setup, teardown}
use backend_common_component.Rabbit.Topology.{
  Entity, exchange, queue, binding, creates, deletes, is_named, Server,
}
use backend_common_component.Rabbit.Effects.{entities, deleted, setup-Has, teardown-gone}

-- A server that accepts everything; its state tells what exists.
abbrev same : Entity → Entity → Bool
same (exchange a) (exchange b) = text_eq a b
same (queue a) (queue b) = text_eq a b
same (binding a b c) (binding d e f) = text_eq a d && (text_eq b e && text_eq c f)
same _ _ = false

same_refl : (e : Entity) → same e e ≡ true
same_refl (exchange a) = text_eq_refl a
same_refl (queue a) = text_eq_refl a
same_refl (binding a b c) = rw (text_eq_refl a) rw (text_eq_refl b) (text_eq_refl c)

abbrev after : Option Entity → Option Entity → (Entity → Bool) → Entity → Bool
after (some d) _ s e = if same d e then true else s e
after none (some d) s e = if same d e then false else s e
after none none s e = s e

abbrev accept : Request → (Entity → Bool) → Bool × (Entity → Bool)
accept r s = (true, after (creates r) (deletes r) s)

deletes-creates : (r : Request) (e : Entity) → deletes r ≡ some e → creates r ≡ none
unfolding deletes creates
deletes-creates (declare_exchange _ _ _ _ _ _) e h = cc
deletes-creates (delete_exchange _ _) e h = refl
deletes-creates (bind_exchange _ _ _) e h = refl
deletes-creates (unbind_exchange _ _ _) e h = refl
deletes-creates (declare_queue _ _ _ _ _) e h = cc
deletes-creates (delete_queue _ _ _) e h = refl
deletes-creates (bind_queue _ _ _) e h = cc
deletes-creates (unbind_queue _ _ _) e h = refl
deletes-creates (purge_queue _) e h = refl
deletes-creates (publish _ _ _ _ _ _) e h = refl
deletes-creates (consume _ _ _ _ _) e h = refl
deletes-creates (ack _ _) e h = refl
deletes-creates (nack _ _ _) e h = refl
deletes-creates (qos _ _ _) e h = refl
deletes-creates (cancel _) e h = refl

accept-gone :
    (r : Request) (e : Entity) (s : Entity → Bool) → deletes r ≡ some e → (accept r s).1 e ≡ false
accept-gone r e s h = rw (deletes-creates r e h) rw h rw (same_refl e) refl

keep-true : (b x : Bool) → (if b then false else x) ≡ true → x ≡ true
keep-true true x h = absurd (false≢true h)
keep-true false x h = h

accept-was :
    (r : Request) (d e : Entity) (s : Entity → Bool)
    → deletes r ≡ some d
    → (accept r s).1 e ≡ true
    → s e ≡ true
accept-was r d e s h p = keep-true (same d e) (s e) (rw h at (rw (deletes-creates r d h) at p))

abbrev small_server : Server
small_server = record {
  State = Entity → Bool;
  serve = accept;
  Has = λ e s. s e ≡ true;
  made = λ r e s named h ok. rw h rw (same_refl e) refl;
  kept = λ r d e s h p. rw h (if_rule (λ b. b ≡ true) (same d e) true (s e) (λ _. refl) (λ _. p));
  gone = λ r e s named h ok p. false≢true (sym (accept-gone r e s h) ∙ p);
  absent = λ r d e s h n p. n (accept-was r d e s h p);
}

abbrev stock_topology : Broker
stock_topology = record {
  exchanges =
      record {
        name = b'x' ∷ [];
        type = direct;
        durable = true;
        auto_delete = false;
        internal = false;
      }
      ∷ [];
  queues =
      (
        record { name = b'q' ∷ []; durable = true; exclusive = false; auto_delete = false },
        record { exchange = b'x' ∷ []; routing_key = b'k' ∷ [] } ∷ [],
      )
      ∷ [];
}

abbrev nothing : Entity → Bool
nothing _ = false

setup_accepted : (setup accept stock_topology nothing).0 ≡ true
unfolding setup
setup_accepted = refl

bound_member : Memᴰ (binding (b'q' ∷ []) (b'x' ∷ []) (b'k' ∷ [])) (entities stock_topology)
unfolding entities
bound_member = Memᴰ.tail (Memᴰ.tail (Memᴰ.head refl))

bound_named : is_named (binding (b'q' ∷ []) (b'x' ∷ []) (b'k' ∷ [])) ≡ true
unfolding is_named
bound_named = refl

setup-Has_example :
    (setup accept stock_topology nothing).1 (binding (b'q' ∷ []) (b'x' ∷ []) (b'k' ∷ [])) ≡ true
setup-Has_example =
    setup-Has small_server stock_topology nothing setup_accepted
      (binding (b'q' ∷ []) (b'x' ∷ []) (b'k' ∷ [])) bound_named bound_member

abbrev everything : Entity → Bool
everything _ = true

teardown_accepted : (teardown accept stock_topology everything).0 ≡ true
unfolding teardown
teardown_accepted = refl

queue_member : Memᴰ (queue (b'q' ∷ [])) (deleted stock_topology)
unfolding deleted
queue_member = Memᴰ.head refl

queue_named : is_named (queue (b'q' ∷ [])) ≡ true
unfolding is_named
queue_named = refl

teardown-gone_example : ¬ (teardown accept stock_topology everything).1 (queue (b'q' ∷ [])) ≡ true
teardown-gone_example =
    teardown-gone small_server stock_topology everything teardown_accepted (queue (b'q' ∷ []))
      queue_named queue_member
