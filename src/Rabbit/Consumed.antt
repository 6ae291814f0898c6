-- ===== src/Rabbit/Consumed.antt =====
-- What the loop of consumer.cpp does with the messages that are delivered to it.
use backend_common_component.Prelude.{
  ℕ, ◌+◌, ◌%◌, ◌≡◌, refl, ap, Bool, true, false, some, List, [], ◌∷◌, ◌++◌, arith, ◌==◌, sum_by,
  sum_by-append, if◌then◌else◌,
}
use backend_common_component.Rabbit.Channel.{Channel}
use backend_common_component.Rabbit.Wire.{
  Request, consume, ack, qos, cancel, basic_ack, basic_consume, basic_qos, basic_cancel,
}
use backend_common_component.Rabbit.ChannelPool.{Pool}
use backend_common_component.Rabbit.Rotation.{rotated, guarded-rotates}
use backend_common_component.Rabbit.Consumer.{
  Consumer, Turn, delivered, failed, acknowledge, turn, turns, set_qos, consuming, consume_on,
  consume_loop,
}

-- A world that records what is done to it.
pub data Event : Type 0 where
  handled : (delivery_tag : ℕ) → Event
  reported : Event
  asked : (id : ℕ) (r : Request) → Event

abbrev pub recording : (ℕ → Request → Bool) → ℕ → Request → List Event → Bool × List Event
recording answer id r s = (answer id r, s ++ (asked id r ∷ []))

abbrev pub handling : ℕ → List Event → List Event
handling n s = s ++ (handled n ∷ [])

abbrev pub reporting : List Event → List Event
reporting s = s ++ (reported ∷ [])

-- Acknowledgements of the message with a tag, its handlings and deliveries, and cancellations.
abbrev pub acks : ℕ → Event → ℕ
acks n (asked _ (ack k _)) = if k == n then 1 else 0
acks n _ = 0

abbrev pub handlings : ℕ → Event → ℕ
handlings n (handled k) = if k == n then 1 else 0
handlings n _ = 0

abbrev pub cancels : Event → ℕ
cancels (asked _ (cancel _)) = 1
cancels _ = 0

abbrev pub deliveries : ℕ → Turn → ℕ
deliveries n (delivered k) = if k == n then 1 else 0
deliveries n (failed _) = 0

module _ (answer : ℕ → Request → Bool) (w : Event → ℕ) where
  abbrev costs : Bool → ℕ → Turn → ℕ
  costs no_ack id (delivered k) = w (handled k) + (if no_ack then 0 else w (asked id (ack k false)))
  costs no_ack id (failed still_running) = if still_running then w reported else 0

  turn-costs :
      (no_ack : Bool) (id : ℕ) (x : Turn) (s : List Event)
      → sum_by w (turn (recording answer) handling reporting no_ack id x s)
        ≡ sum_by w s + costs no_ack id x
  unfolding turn acknowledge basic_ack
  turn-costs true id (delivered k) s = omega (arith, sum_by-append w s (handled k ∷ []))
  turn-costs false id (delivered k) s = omega (
    arith,
    sum_by-append w s (handled k ∷ []),
    sum_by-append w (s ++ (handled k ∷ [])) (asked id (ack k false) ∷ []),
  )
  turn-costs no_ack id (failed true) s = omega (arith, sum_by-append w s (reported ∷ []))
  turn-costs no_ack id (failed false) s = omega arith

  turns-costs :
      (no_ack : Bool) (id : ℕ) (xs : List Turn) (s : List Event)
      → sum_by w (turns (recording answer) handling reporting no_ack id xs s)
        ≡ sum_by w s + sum_by (costs no_ack id) xs
  unfolding turns
  turns-costs no_ack id [] s = omega arith
  turns-costs no_ack id (x ∷ xs) s =
      let t = turn (recording answer) handling reporting no_ack id x s in
      omega (arith, turns-costs no_ack id xs t, turn-costs no_ack id x s)

  set_qos-costs :
      (id count : ℕ)
      → ((k l : ℕ) (b : Bool) → w (asked id (qos k l b)) ≡ 0)
      → sum_by w (set_qos (recording answer) handling reporting id count []) ≡ 0
  unfolding set_qos basic_qos
  set_qos-costs id count h = ground (arith, h 0 (count % 65536) false)

  -- The whole use of a channel, when the consumption begins.
  consume_on-costs :
      (c : Consumer) (xs : List Turn) (ch : Channel)
      → answer ch.id (consume c.queue c.consumer_tag false c.no_ack false) ≡ true
      → ((k l : ℕ) (b : Bool) → w (asked ch.id (qos k l b)) ≡ 0)
      → w (asked ch.id (consume c.queue c.consumer_tag false c.no_ack false)) ≡ 0
      → sum_by w (consume_on (recording answer) handling reporting c xs [] ch).1
        ≡ sum_by (costs c.no_ack ch.id) xs + w (asked ch.id (cancel c.consumer_tag))
  unfolding consume_on consuming set_qos basic_qos basic_consume basic_cancel
  consume_on-costs c xs ch ok no_qos no_consume =
      let r = asked ch.id (consume c.queue c.consumer_tag false c.no_ack false) in
      let q = set_qos (recording answer) handling reporting ch.id c.prefetch_count [] in
      let t = turns (recording answer) handling reporting c.no_ack ch.id xs (q ++ (r ∷ [])) in
      rw ok (
        omega (
          arith,
          sum_by-append w t (asked ch.id (cancel c.consumer_tag) ∷ []),
          turns-costs c.no_ack ch.id xs (q ++ (r ∷ [])),
          sum_by-append w q (r ∷ []),
          set_qos-costs ch.id c.prefetch_count no_qos,
          no_consume,
        ))

-- A total by turn is the total of the turns.
sum_by-same :
    (v w : Turn → ℕ) (xs : List Turn) → ((x : Turn) → v x ≡ w x) → sum_by v xs ≡ sum_by w xs
sum_by-same v w [] h = refl
sum_by-same v w (x ∷ xs) h = omega (arith, h x, sum_by-same v w xs h)

ack-costs :
    (answer : ℕ → Request → Bool) (n id : ℕ) (x : Turn)
    → costs answer (acks n) false id x ≡ deliveries n x
ack-costs answer n id (delivered k) = omega arith
ack-costs answer n id (failed true) = refl
ack-costs answer n id (failed false) = refl

handling-costs :
    (answer : ℕ → Request → Bool) (n id : ℕ) (x : Turn)
    → costs answer (handlings n) false id x ≡ deliveries n x
handling-costs answer n id (delivered k) = omega arith
handling-costs answer n id (failed true) = refl
handling-costs answer n id (failed false) = refl

cancel-costs :
    (answer : ℕ → Request → Bool) (id : ℕ) (x : Turn) → costs answer cancels false id x ≡ 0
cancel-costs answer id (delivered k) = refl
cancel-costs answer id (failed true) = refl
cancel-costs answer id (failed false) = refl

sum_by-zero : (xs : List Turn) → sum_by (λ x. 0) xs ≡ 0
sum_by-zero [] = refl
sum_by-zero (x ∷ xs) = omega (arith, sum_by-zero xs)

-- Without automatic acknowledgement, and when a channel is free and the server lets the consumption
-- begin, the loop handles and acknowledges each message as often as it is delivered, cancels the
-- consumption once, and gives the channel back behind the others.
pub consume_loop-acked :
    (answer : ℕ → Request → Bool) (c : Consumer) (xs : List Turn) (p : Pool) (ch : Channel)
    (rest : List Channel)
    → p.channels ≡ ch ∷ rest
    → c.no_ack ≡ false
    → answer ch.id (consume c.queue c.consumer_tag false c.no_ack false) ≡ true
    → (log : List Event) × (consume_loop (recording answer) handling reporting c xs p []
        ≡ some (true, rotated ch rest p, log))
      × ((n : ℕ) → sum_by (acks n) log ≡ sum_by (deliveries n) xs)
      × ((n : ℕ) → sum_by (handlings n) log ≡ sum_by (deliveries n) xs)
      × (sum_by cancels log ≡ 1)
unfolding consume_loop consume_on basic_consume
consume_loop-acked answer c xs p ch rest e manual ok =
    let log = (consume_on (recording answer) handling reporting c xs [] ch).1 in
    (
      log,
      rw
          (guarded-rotates (false, reporting [])
            (consume_on (recording answer) handling reporting c xs []) p ch rest e)
          (ap (λ b. some (b, rotated ch rest p, log)) ok),
      λ n. omega (
        arith,
        consume_on-costs answer (acks n) c xs ch ok (λ k l b. refl) refl,
        sum_by-same (costs answer (acks n) c.no_ack ch.id) (deliveries n) xs
            (λ x. rw manual (ack-costs answer n ch.id x)),
      ),
      λ n. omega (
        arith,
        consume_on-costs answer (handlings n) c xs ch ok (λ k l b. refl) refl,
        sum_by-same (costs answer (handlings n) c.no_ack ch.id) (deliveries n) xs
            (λ x. rw manual (handling-costs answer n ch.id x)),
      ),
      omega (
        arith,
        consume_on-costs answer cancels c xs ch ok (λ k l b. refl) refl,
        sum_by-same (costs answer cancels c.no_ack ch.id) (λ x. 0) xs
            (λ x. rw manual (cancel-costs answer ch.id x)),
        sum_by-zero xs,
      ),
    )
