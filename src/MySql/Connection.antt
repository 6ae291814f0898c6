-- ===== src/MySql/Connection.antt =====
-- MySQLConnection.cpp. The driver's connections, statements and prepared statements are objects of one
-- heap; what the driver answers, or that it throws, is chosen from outside.
use backend_common_component.Prelude.{
  ℕ, suc, Bool, true, false, Option, none, some, List, [], ◌∷◌, ◌++◌, ◌==◌, get_elem?, set,
  if◌then◌else◌, ◌>>=◌,
}
use backend_common_component.Objects.{Heap, delete}

pub record Connection : Type 0 where
  pub conn : Option ℕ
  pub stmt : Option ℕ
  pub pstmt : Option ℕ
  pub pre : Bool
  pub transaction : Bool

pub record World : Type 0 where
  pub heap : Heap
  pub connections : List Connection

unfoldable pub allocate : Heap → Heap
allocate h = record h { tries = suc h.tries; live = h.tries ∷ h.live }

-- What throws in the constructor, if anything.
pub data Opening : Type 0 where
  no_connect no_statement no_schema opened : Opening

-- What the constructor makes of the objects n and n + 1.
unfoldable pub opened_on : ℕ → Connection
opened_on n = record {
  conn = some n;
  stmt = some (suc n);
  pstmt = none;
  pre = false;
  transaction = false;
}

-- The constructor. The destructor of an object whose constructor throws does not run.
unfoldable pub construct : Opening → World → World
unfolding allocate opened_on
construct no_connect w = w
construct no_statement w = record w { heap = allocate w.heap }
construct no_schema w = record w { heap = allocate (allocate w.heap) }
construct opened w = record w {
  heap = allocate (allocate w.heap);
  connections = w.connections ++ (opened_on w.heap.tries ∷ []);
}

unfoldable pub drop : Option ℕ → Heap → Heap
drop none h = h
drop (some n) h = delete n h

unfoldable pub closed : Connection
closed = record { conn = none; stmt = none; pstmt = none; pre = false; transaction = false }

-- `close`, and so the destructor, on the connection at an address.
unfoldable pub close : ℕ → World → World
unfolding drop closed
close i w = elim (get_elem? w.connections i) [
  | none ↦ w
  | some c ↦ record w {
    heap = drop c.conn (drop c.stmt (drop c.pstmt w.heap));
    connections = set w.connections i closed;
  }
]

-- The move constructor leaves `other` as `close` does.
unfoldable pub move_construct : ℕ → World → World
unfolding closed
move_construct j w = elim (get_elem? w.connections j) [
  | none ↦ w
  | some c ↦ record w { connections = set w.connections j closed ++ (c ∷ []) }
]

-- The move assignment behind its call of `close`.
unfoldable pub take_over : ℕ → ℕ → World → World
unfolding closed
take_over i j w = elim (get_elem? w.connections j) [
  | none ↦ w
  | some c ↦ record w { connections = set (set w.connections i c) j closed }
]

unfoldable pub move_assign : ℕ → ℕ → World → World
unfolding close take_over
move_assign i j w = elim (get_elem? w.connections i) [
  | none ↦ w
  | some _ ↦ if i == j then w else take_over i j (close i w)
]

unfoldable pub is_valid : Connection → Bool
is_valid c = elim c.conn [ none ↦ false | some _ ↦ elim c.stmt [ none ↦ false | some _ ↦ true ] ]

-- `prepare_statement` where `m_conn` is set: the old statement is deleted first, and stays in
-- `m_pstmt` when `prepareStatement` throws.
unfoldable pub prepared : Bool → Connection → Heap → Connection × Heap
unfolding allocate drop
prepared true c h =
    let dropped = drop c.pstmt h in
    (record c { pstmt = some dropped.tries; pre = true }, allocate dropped)
prepared false c h = (c, drop c.pstmt h)

-- The same for the connection at an address.
unfoldable pub prepare_on : ℕ → Bool → Connection → World → World
unfolding prepared
prepare_on i ok c w =
    let (d, h) = prepared ok c w.heap in record w { heap = h; connections = set w.connections i d }

-- A use of the pointer `m_conn`.
unfoldable pub when_set : Option ℕ → World → Option World
when_set none w = none
when_set (some _) w = some w

-- `prepare_statement`: `none` is the use of a null `m_conn`, which a connection has that was closed or
-- moved from.
unfoldable pub prepare_statement : ℕ → Bool → World → Option World
unfolding prepare_on when_set
prepare_statement i ok w = elim (get_elem? w.connections i) [
  | none ↦ some w
  | some c ↦ when_set c.conn (prepare_on i ok c w)
]

-- The session on the server: whether it commits by itself, and what is pending in it.
pub record Session : Type 0 where
  pub auto_commit : Bool
  pub pending : List ℕ
  pub stored : List ℕ

-- How `commit` and `rollback` end: their first call throws, their call of `setAutoCommit` does, or none.
pub data Ending : Type 0 where
  throws half_done done : Ending

-- `begin`, on the flag `m_transaction` and the session; the Boolean is whether `setAutoCommit` returns.
unfoldable pub begin : Bool → Connection × Session → Connection × Session
begin ok (c, s) =
    if c.transaction
    then (c, s)
    else if ok
    then (record c { transaction = true }, record s { auto_commit = false })
    else (c, s)

-- After the call of the server, which leaves a session with nothing pending.
abbrev pub ended : Ending → List ℕ → Connection × Session → Connection × Session
ended throws stored (c, s) = (c, s)
ended half_done stored (c, s) = (c, record s { pending = []; stored = stored })
ended done stored (c, s) =
    (record c { transaction = false }, record { auto_commit = true; pending = []; stored = stored })

-- The server's `commit` stores what is pending, and its `rollback` forgets it.
unfoldable pub commit : Ending → Connection × Session → Connection × Session
commit e (c, s) = if c.transaction then ended e (s.stored ++ s.pending) (c, s) else (c, s)

unfoldable pub rollback : Ending → Connection × Session → Connection × Session
rollback e (c, s) = if c.transaction then ended e s.stored (c, s) else (c, s)

pub data Call : Type 0 where
  constructs : Opening → Call
  closes moves : ℕ → Call
  assigns : ℕ → ℕ → Call
  prepares : ℕ → Bool → Call

unfoldable pub call : Call → World → Option World
unfolding construct close move_construct move_assign prepare_statement
call (constructs o) w = some (construct o w)
call (closes i) w = some (close i w)
call (moves j) w = some (move_construct j w)
call (assigns i j) w = some (move_assign i j w)
call (prepares i ok) w = prepare_statement i ok w

unfoldable pub calls : List Call → World → Option World
unfolding call
calls [] w = some w
calls (x ∷ xs) w = call x w >>= λ v. calls xs v
