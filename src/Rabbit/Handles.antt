-- ===== src/Rabbit/Handles.antt =====
-- Which AMQP connection states exist while a connection is initialised and reconnected.
use backend_common_component.Prelude.{ℕ, List, [], ◌∷◌, if◌then◌else◌}
use backend_common_component.Objects.{Owns, keep}
use backend_common_component.Rabbit.Connection.{Dial, Connection, init, reconnect}

-- The states that exist are the one in `m_conn` and those of a list that nothing points to.
abbrev pub Handles : List ℕ → Connection → Type 0
Handles lost c = Owns lost ((c.conn, 0) ∷ []) c.heap

pub data Call : Type 0 where
  inits reconnects : Dial → Call

unfoldable pub call : Call → Connection → Connection
unfolding init reconnect
call (inits d) c = (init d c).1
call (reconnects d) c = (reconnect d c).1

unfoldable pub calls : List Call → Connection → Connection
calls [] c = c
calls (x ∷ xs) c = calls xs (call x c)

-- An `init` that follows a failed one overwrites `m_conn`.
abbrev pub loses : Call → Connection → List ℕ → List ℕ
loses (inits d) c lost = if c.is_init then lost else keep c.conn lost
loses (reconnects d) c lost = lost

abbrev pub all_lost : List Call → Connection → List ℕ → List ℕ
all_lost [] c lost = lost
all_lost (x ∷ xs) c lost = all_lost xs (call x c) (loses x c lost)
