-- ===== src/Rabbit/Rotation.antt =====
-- A producer's messages go round the channels of the pool.
use mathlib.Core.List.{append-nil, append_assoc}
use backend_common_component.Prelude.{
  ℕ, ◌≡◌, refl, sym, ap, ◌∙◌, Bool, true, false, none, some, List, [], ◌∷◌, ◌++◌, arith, get_elem?,
  set, length,
}
use backend_common_component.Rabbit.Channel.{Channel}
use backend_common_component.Rabbit.Message.{Message, properties}
use backend_common_component.Rabbit.Wire.{Request, publish, basic_publish}
use backend_common_component.Rabbit.ChannelPool.{
  Pool, guard_on, take_channel, acquire, give, emptied, release,
}
use backend_common_component.Rabbit.Producer.{held, on_channel, guarded_on, guarded, send, send_all}

-- The request that a message becomes.
abbrev pub published : Message → Request
published m = publish m.exchange m.routing_key (some (properties m)) m.body false false

get-last : {A : Type 0} (xs : List A) (a : A) → get_elem? (xs ++ (a ∷ [])) (length xs) ≡ some a
get-last [] a = refl
get-last (x ∷ xs) a = get-last xs a

set-last :
    {A : Type 0} (xs : List A) (a b : A) → set (xs ++ (a ∷ [])) (length xs) b ≡ xs ++ (b ∷ [])
set-last [] a b = refl
set-last (x ∷ xs) a b = rw (set-last xs a b) refl

-- What the scope of a guard does with the pool: the first channel goes to the end, and the released
-- guard stays at its address.
abbrev pub rotated : Channel → List Channel → Pool → Pool
rotated ch rest p = record p {
  channels = rest ++ (ch ∷ []);
  guards = p.guards ++ (record { pool = true; channel = none; released = true } ∷ []);
}

held-take :
    (p : Pool) (q : List Channel) (ch : Channel) (rest : List Channel)
    → q ≡ ch ∷ rest
    → held (length p.guards) (take_channel q p) ≡ some ch
unfolding held take_channel guard_on
held-take p q ch rest e = rw e rw (get-last p.guards (guard_on ch), held, get_elem?) refl

release-take :
    (p : Pool) (q : List Channel) (ch : Channel) (rest : List Channel)
    → q ≡ ch ∷ rest
    → release (length p.guards) (take_channel q p) ≡ rotated ch rest p
unfolding release take_channel guard_on give emptied
release-take p q ch rest e =
    rw e rw (get-last p.guards (guard_on ch), release, get_elem?) rw
      (set-last p.guards (guard_on ch)) refl

guarded_on-rotates :
    {S A : Type 0} (refused : A × S) (body : Channel → A × S) (p : Pool) (q : List Channel)
    (ch : Channel) (rest : List Channel)
    → q ≡ ch ∷ rest
    → p.channels ≡ q
    → guarded_on q refused body p ≡ some ((body ch).0, rotated ch rest p, (body ch).1)
unfolding on_channel acquire
guarded_on-rotates refused body p [] ch rest e h = absurd (omega (arith, ap length e))
guarded_on-rotates refused body p (x ∷ q) ch rest e h =
    rw (held-take p p.channels ch rest (h ∙ e)) rw (release-take p p.channels ch rest (h ∙ e)) refl

pub guarded-rotates :
    {S A : Type 0} (refused : A × S) (body : Channel → A × S) (p : Pool) (ch : Channel)
    (rest : List Channel)
    → p.channels ≡ ch ∷ rest
    → guarded refused body p ≡ some ((body ch).0, rotated ch rest p, (body ch).1)
unfolding guarded
guarded-rotates refused body p ch rest e =
    guarded_on-rotates refused body p p.channels ch rest e refl

-- The messages, each on its own channel, in their order.
abbrev pub on_each :
    {S : Type 0} → (ℕ → Request → S → Bool × S) → List Channel → List Message → S → List Bool × S
on_each serve (ch ∷ q) (m ∷ ms) s =
    let (ok, t) = serve ch.id (published m) s in
    let (answers, u) = on_each serve q ms t in (ok ∷ answers, u)
on_each serve _ _ s = ([], s)

sent :
    {S : Type 0} (serve : ℕ → Request → S → Bool × S) (m : Message) (p : Pool) (ch : Channel)
    (rest : List Channel) (s : S)
    → p.channels ≡ ch ∷ rest
    → send serve m p s
      ≡ some ((serve ch.id (published m) s).0, rotated ch rest p, (serve ch.id (published m) s).1)
unfolding send basic_publish
sent serve m p ch rest s e =
    guarded-rotates (false, s)
      (λ ch.
        basic_publish (serve ch.id) m.exchange m.routing_key (some (properties m)) m.body false
          false s)
      p ch rest e

-- As many messages as the first channels of the queue go out over those channels, one on each in the
-- order of the queue, with its own properties, and the channels then stand at the end in that order.
pub send_all-rotates :
    {S : Type 0} (serve : ℕ → Request → S → Bool × S) (q r : List Channel) (ms : List Message)
    (p : Pool) (s : S)
    → p.channels ≡ q ++ r
    → length q ≡ length ms
    → (end : Pool) × (send_all serve ms p s
        ≡ some ((on_each serve q ms s).0, end, (on_each serve q ms s).1))
      × (end.channels ≡ r ++ q)
unfolding send_all
send_all-rotates serve [] r [] p s e l = (p, refl, e ∙ sym (append-nil r))
send_all-rotates serve (ch ∷ q) r (m ∷ ms) p s e l =
    let t = (serve ch.id (published m) s).1 in
    let next =
      send_all-rotates serve q (r ++ (ch ∷ [])) ms (rotated ch (q ++ r) p) t
        (append_assoc q r (ch ∷ [])) (omega (arith, l)) in
    (
      next.0,
      rw (sent serve m p ch (q ++ r) s e) rw (next.1) refl,
      next.2 ∙ append_assoc r (ch ∷ []) q,
    )
send_all-rotates serve [] r (m ∷ ms) p s e l = absurd (omega (arith, l))
send_all-rotates serve (ch ∷ q) r [] p s e l = absurd (omega (arith, l))
