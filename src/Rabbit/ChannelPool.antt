-- ===== src/Rabbit/ChannelPool.antt =====
-- channelPool.cpp and channelGuard.cpp: the queue of open channels, and the guards that hold the
-- channels taken from it. `unique_ptr`s are moved, so that a channel stands in one place.
use backend_common_component.Prelude.{
  ℕ, zero, suc, ◌+◌, Bool, true, false, not, ◌&&◌, Option, none, some, List, [], ◌∷◌, ◌++◌, ◌==◌,
  get_elem?, set, length, if◌then◌else◌,
}
use backend_common_component.Rabbit.Connection.{Connection}
use backend_common_component.Rabbit.Channel.{
  Channel, Command, construct, open_channel, close, destroy,
}

-- `m_pool` is null or the one pool.
pub record Guard : Type 0 where
  pub pool : Bool
  pub channel : Option Channel
  pub released : Bool

-- The pool, and the guards by their addresses.
pub record Pool : Type 0 where
  pub channel_max : ℕ
  pub channels : List Channel
  pub guards : List Guard

-- The loop of the constructor from the number `i` on, with the rounds that are left; `reply i` is the
-- server's answer to the opening of channel i. A channel that does not open is destroyed.
unfoldable pub open_all : ℕ → ℕ → (ℕ → Bool) → Connection → List Channel
unfolding construct open_channel
open_all zero i reply c = []
open_all (suc k) i reply c =
    let (opened, channel, _) = open_channel c (reply i) (construct i) [] in
    let rest = open_all k (i + 1) reply c in if opened then channel ∷ rest else rest

unfoldable pub make_pool : ℕ → (ℕ → Bool) → Connection → Pool
unfolding open_all
make_pool channel_max reply c = record {
  channel_max = channel_max;
  channels = open_all channel_max 1 reply c;
  guards = [];
}

abbrev pub null_guard : Guard
null_guard = record { pool = false; channel = none; released = false }

unfoldable pub guard_on : Channel → Guard
guard_on ch = record { pool = true; channel = some ch; released = false }

-- The end of `acquire` and of `try_acquire`, when the queue is not empty: a guard at a new address.
unfoldable pub take_channel : List Channel → Pool → Pool
unfolding guard_on
take_channel [] p = p
take_channel (ch ∷ rest) p = record p { channels = rest; guards = p.guards ++ (guard_on ch ∷ []) }

-- `acquire` when it holds the lock: on an empty queue it waits.
unfoldable pub acquire : Pool → Pool
unfolding take_channel
acquire p = take_channel p.channels p

-- `try_acquire` at its end: if the queue is still empty, the guard is null.
abbrev pub or_null : List Channel → Pool → Pool
or_null [] p = record p { guards = p.guards ++ (null_guard ∷ []) }
or_null (ch ∷ rest) p = take_channel (ch ∷ rest) p

unfoldable pub try_acquire : Pool → Pool
unfolding take_channel
try_acquire p = or_null p.channels p

-- `ChannelPool::release`, called by `ChannelGuard::release` where the guard has pool and channel.
unfoldable pub give : Bool → Option Channel → List Channel → List Channel
give true (some ch) channels = channels ++ (ch ∷ [])
give true none channels = channels
give false _ channels = channels

unfoldable pub emptied : Bool → Option Channel → Guard → Guard
emptied true (some ch) g = record g { channel = none; released = true }
emptied true none g = g
emptied false _ g = g

-- `ChannelGuard::release` on the guard at an address; the destructor calls it too.
unfoldable pub release : ℕ → Pool → Pool
unfolding give emptied
release i p = elim (get_elem? p.guards i) [
  | none ↦ p
  | some g ↦
      let holds = not g.released && g.pool in
      record p {
        channels = give holds g.channel p.channels;
        guards = set p.guards i (emptied holds g.channel g);
      }
]

unfoldable pub moved_from : Guard → Guard
moved_from g = record { pool = false; channel = none; released = true }

unfoldable pub move_guard : ℕ → Pool → Pool
unfolding moved_from
move_guard j p = elim (get_elem? p.guards j) [
  | none ↦ p
  | some g ↦ record p { guards = set p.guards j (moved_from g) ++ (g ∷ []) }
]

-- The move assignment behind its call of `release`.
unfoldable pub take_over : ℕ → ℕ → Pool → Pool
unfolding moved_from
take_over i j p = elim (get_elem? p.guards j) [
  | none ↦ p
  | some g ↦ record p { guards = set (set p.guards i g) j (moved_from g) }
]

unfoldable pub assign_guard : ℕ → ℕ → Pool → Pool
unfolding release take_over
assign_guard i j p = elim (get_elem? p.guards i) [
  | none ↦ p
  | some _ ↦ if i == j then p else take_over i j (release i p)
]

-- What threads do with the pool, one critical section at a time.
pub data Action : Type 0 where
  acquires tries : Action
  releases moves : ℕ → Action
  assigns : ℕ → ℕ → Action

unfoldable pub act : Action → Pool → Pool
act acquires p = acquire p
act tries p = try_acquire p
act (releases i) p = release i p
act (moves j) p = move_guard j p
act (assigns i j) p = assign_guard i j p

unfoldable pub run : List Action → Pool → Pool
run [] p = p
run (x ∷ xs) p = run xs (act x p)

unfoldable pub available : Pool → ℕ
available p = length p.channels

unfoldable pub size : Pool → ℕ
size p = p.channel_max

-- The loop of the destructor: each queued channel is closed, and then destroyed, which closes it once
-- more if the server refused. `first` and `second` are the server's answers.
unfoldable pub close_all :
    Connection → (first second : ℕ → Bool) → List Channel → List Command → List Command
unfolding close destroy
close_all c first second [] sent = sent
close_all c first second (ch ∷ rest) sent =
    let (_, closed, log) = close c (first ch.id) ch sent in
    close_all c first second rest (destroy c (second ch.id) closed log)

unfoldable pub destroy_pool :
    Connection → (first second : ℕ → Bool) → Pool → List Command → List Command
unfolding close_all
destroy_pool c first second p sent = close_all c first second p.channels sent
