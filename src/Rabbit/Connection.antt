-- ===== src/Rabbit/Connection.antt =====
-- connection.cpp. The AMQP library's connection states are objects of the heap; `amqp_new_connection`
-- makes one, `amqp_destroy_connection` deletes it. What the other calls answer is a `Dial`.
use backend_common_component.Prelude.{
  ℕ, suc, Bool, true, false, Option, none, some, ◌∷◌, if◌then◌else◌,
}
use backend_common_component.Objects.{Heap, delete}

-- How far an attempt to connect gets: no state, no socket, no TCP connection, no login, or all of it.
pub data Dial : Type 0 where
  no_state no_socket no_tcp no_login logged_in : Dial

pub record Connection : Type 0 where
  pub conn : Option ℕ
  pub is_init : Bool
  pub heap : Heap

unfoldable pub new_connection : Heap → Heap
new_connection h = record h { tries = suc h.tries; live = h.tries ∷ h.live }

-- What `init` and `reconnect` have in common, from `amqp_new_connection` on.
unfoldable pub dial : Dial → Connection → Bool × Connection
unfolding new_connection
dial no_state c = (false, record c { conn = none })
dial no_socket c = (false, record c { conn = some c.heap.tries; heap = new_connection c.heap })
dial no_tcp c = (false, record c { conn = some c.heap.tries; heap = new_connection c.heap })
dial no_login c = (false, record c { conn = some c.heap.tries; heap = new_connection c.heap })
dial logged_in c =
    (true, record c { conn = some c.heap.tries; heap = new_connection c.heap; is_init = true })

unfoldable pub init : Dial → Connection → Bool × Connection
unfolding dial
init d c = if c.is_init then (true, c) else dial d c

abbrev pub dropped : Option ℕ → Heap → Heap
dropped none h = h
dropped (some n) h = delete n h

unfoldable pub reconnect : Dial → Connection → Bool × Connection
unfolding dial
reconnect d c = dial d (record c { conn = none; is_init = false; heap = dropped c.conn c.heap })

-- The destructor.
unfoldable pub destroy : Connection → Connection
destroy c = if c.is_init then record c { heap = dropped c.conn c.heap } else c

unfoldable pub is_connected : Connection → Bool
is_connected c = if c.is_init then (elim c.conn [ none ↦ false | some _ ↦ true ]) else false

-- `connection()`: the state, or null.
unfoldable pub connection : Connection → Option ℕ
connection c = if c.is_init then c.conn else none

-- Two objects over one heap. The move assignment takes the state of `other`, and does not destroy the
-- one that `this` has.
unfoldable pub move_assign : Connection → Connection → Connection × Connection
move_assign this other = (
  record other { heap = this.heap },
  record other { conn = none; is_init = false; heap = this.heap },
)
