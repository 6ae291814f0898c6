-- ===== src/Rabbit/Channel.antt =====
-- channel.cpp: the life of a channel. `reply` is what `check_rpc_reply` makes of the server's answer.
-- The commands that are sent are logged, the latest first.
use backend_common_component.Prelude.{
  ℕ, Bool, true, false, Option, none, some, List, ◌∷◌, if◌then◌else◌,
}
use backend_common_component.Rabbit.Connection.{Connection, connection}

pub record Channel : Type 0 where
  pub id : ℕ
  pub is_open : Bool

pub data Command : Type 0 where
  channel_open channel_close : ℕ → Command

unfoldable pub construct : ℕ → Channel
construct id = record { id = id; is_open = false }

-- The answer, the channel, and the commands.
abbrev pub Sent : Type 0
Sent = Bool × Channel × List Command

abbrev pub opened_by : Option ℕ → Bool → Channel → List Command → Sent
opened_by none reply ch log = (false, ch, log)
opened_by (some _) reply ch log =
    (reply, (if reply then record ch { is_open = true } else ch), channel_open ch.id ∷ log)

unfoldable pub open_channel : Connection → Bool → Channel → List Command → Sent
unfolding connection
open_channel c reply ch log = opened_by (connection c) reply ch log

abbrev pub closed_by : Option ℕ → Bool → Channel → List Command → Sent
closed_by none reply ch log = (false, ch, log)
closed_by (some _) reply ch log =
    (reply, (if reply then record ch { is_open = false } else ch), channel_close ch.id ∷ log)

unfoldable pub close : Connection → Bool → Channel → List Command → Sent
unfolding connection
close c reply ch log = if ch.is_open then closed_by (connection c) reply ch log else (true, ch, log)

-- The move constructor: the new channel, and the old one.
unfoldable pub move_construct : Channel → Channel × Channel
move_construct other = (other, record { id = 0; is_open = false })

-- The move assignment closes the channel that `this` has, and does not look at the answer.
unfoldable pub move_assign :
    Connection → Bool → Channel → Channel → List Command → Channel × Channel × List Command
unfolding close
move_assign c reply this other log =
    let (_, _, sent) = close c reply this log in (other, record { id = 0; is_open = false }, sent)

-- The destructor, but for the timeouts that it sets around.
unfoldable pub destroy : Connection → Bool → Channel → List Command → List Command
unfolding close
destroy c reply ch log = let (_, _, sent) = close c reply ch log in sent
