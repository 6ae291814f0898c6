-- ===== src/Rabbit/Producer.antt =====
-- producer.cpp: sending a message over a channel of the pool.
use backend_common_component.Prelude.{
  ◌>>=◌, ℕ, Bool, false, Option, none, some, List, [], ◌∷◌, get_elem?, length,
}
use backend_common_component.Ini.Reader.{Text}
use backend_common_component.Rabbit.Channel.{Channel}
use backend_common_component.Rabbit.Message.{Message, Properties, properties}
use backend_common_component.Rabbit.Wire.{Request, basic_publish}
use backend_common_component.Rabbit.ChannelPool.{Pool, acquire, release}

-- The channel of the guard at an address.
unfoldable pub held : ℕ → Pool → Option Channel
held i p = elim (get_elem? p.guards i) [ none ↦ none | some g ↦ g.channel ]

-- A local guard: `acquire`, the body on its channel, or `refused` for a guard without one, and the
-- destructor. There is no result while the queue is empty, since `acquire` waits.
module _ {S A : Type 0} where
  unfoldable pub on_channel : Option Channel → A × S → (Channel → A × S) → A × S
  on_channel none refused body = refused
  on_channel (some ch) refused body = body ch

  abbrev pub guarded_on : List Channel → A × S → (Channel → A × S) → Pool → Option (A × Pool × S)
  guarded_on [] refused body p = none
  guarded_on (_ ∷ _) refused body p =
      let i = length p.guards in
      let (a, t) = on_channel (held i (acquire p)) refused body in
      some (a, release i (acquire p), t)

  unfoldable pub guarded : A × S → (Channel → A × S) → Pool → Option (A × Pool × S)
  unfolding held acquire release on_channel
  guarded refused body p = guarded_on p.channels refused body p

-- The server answers a request on the channel with a number.
module _ {S : Type 0} (serve : ℕ → Request → S → Bool × S) where
  -- The second overload of `send`, and the first.
  unfoldable pub send_body :
      (exchange routing_key body : Text) (props : Option Properties)
      → Pool
      → S
      → Option (Bool × Pool × S)
  unfolding guarded basic_publish
  send_body exchange routing_key body props p s =
      guarded (false, s)
        (λ ch. basic_publish (serve ch.id) exchange routing_key props body false false s) p

  unfoldable pub send : Message → Pool → S → Option (Bool × Pool × S)
  unfolding guarded basic_publish properties
  send m p s =
      guarded (false, s)
        (λ ch.
          basic_publish (serve ch.id) m.exchange m.routing_key (some (properties m)) m.body false
            false s)
        p

  -- A producer's messages one after the other, with the answers.
  unfoldable pub send_all : List Message → Pool → S → Option (List Bool × Pool × S)
  unfolding send
  send_all [] p s = some ([], p, s)
  send_all (m ∷ ms) p s = do
    (ok, q, t) ← send m p s
    (answers, r, u) ← send_all ms q t
    some (ok ∷ answers, r, u)
