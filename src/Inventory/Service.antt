-- ===== src/Inventory/Service.antt =====
-- inventory_service.cpp and consistency_checker.cpp, for one item; the keys and rows of different
-- items do not meet. `rebuilds` holds the stocks that the detached threads of `async_rebuild_redis`
-- are still to write.
use backend_common_component.Prelude.{
  ℕ, zero, suc, Bool, true, false, ◌&&◌, ◌||◌, Option, none, some, List, [], ◌∷◌, ◌++◌, ℤ, pos,
  negsuc, ◌+ℤ◌, leb_ℤ, rounds, if◌then◌else◌,
}
use backend_common_component.Inventory.Store.{
  Error, invalid_arg, stock_insufficient, mysql_update_failed, redis_unavailable,
  redis_key_not_found, compensation_failed, Reply, ok, err, threw, Db, deduct_stock, get_stock,
  init_stock, Eval, insufficient, deducted, key_not_found, DeductResult, execute_deduct,
}

pub record Item : Type 0 where
  pub redis : Option ℤ
  pub mysql : Option ℤ
  pub rebuilds : List ℤ

pub record DeductRequest : Type 0 where
  pub item_id : ℤ
  pub quantity : ℤ

-- What becomes of one attempt of `rollback_redis`: the pool gives no connection, `incrby` throws,
-- after it took effect or not, or it succeeds.
pub data Incr : Type 0 where
  no_guard : Incr
  incr_throws : (applied : Bool) → Incr
  incr_done : Incr

-- What the servers do during one call of `deduct`.
pub record Outside : Type 0 where
  pub has_guard : Bool
  pub eval : Eval
  pub db : Db
  pub incr_at : ℕ → Incr

-- `incrby`, which takes a missing key for 0.
abbrev pub incrby : ℤ → Option ℤ → Option ℤ
incrby qty none = some qty
incrby qty (some stock) = some (stock +ℤ qty)

-- One attempt: the key after it, and whether another follows.
abbrev pub attempt : Incr → ℤ → Option ℤ → Option ℤ
attempt no_guard qty key = key
attempt (incr_throws applied) qty key = if applied then incrby qty key else key
attempt incr_done qty key = incrby qty key

abbrev pub unless_done : Incr → Option ℤ → Option Error × Option ℤ → Option Error × Option ℤ
unless_done no_guard key rest = rest
unless_done (incr_throws _) key rest = rest
unless_done incr_done key rest = (none, key)

-- `rollback_redis` with the attempts that are left: its error if it fails, and the key.
unfoldable pub rollback_redis : ℕ → (ℕ → Incr) → ℤ → Option ℤ → Option Error × Option ℤ
rollback_redis zero incr_at qty key = (some compensation_failed, key)
rollback_redis (suc k) incr_at qty key =
    let tried = attempt (incr_at 0) qty key in
    unless_done (incr_at 0) tried (rollback_redis k (λ i. incr_at (suc i)) qty tried)

abbrev pub after_fallback : Item → Reply ℤ × Option ℤ → Reply ℤ × Item
after_fallback s (ok new_stock, row) =
    (ok new_stock, record s { mysql = row; rebuilds = s.rebuilds ++ (new_stock ∷ []) })
after_fallback s (err _, row) = (err mysql_update_failed, record s { mysql = row })
after_fallback s (threw, row) = (threw, record s { mysql = row })

unfoldable pub fallback_to_mysql : Db → DeductRequest → Item → Reply ℤ × Item
unfolding deduct_stock
fallback_to_mysql db req s = after_fallback s (deduct_stock db req.quantity s.mysql)

-- After the script has taken the quantity: the row, and the rollback if that fails. An exception
-- leaves the call without one.
unfoldable pub after_row : ℤ → Outside → ℤ → ℤ → Item → Reply ℤ × Option ℤ → Reply ℤ × Item
unfolding rollback_redis
after_row retry_times o qty remaining s (ok _, row) = (ok remaining, record s { mysql = row })
after_row retry_times o qty remaining s (err _, row) = (
  err mysql_update_failed,
  record s { redis = (rollback_redis (rounds retry_times) o.incr_at qty s.redis).1; mysql = row },
)
after_row retry_times o qty remaining s (threw, row) = (threw, record s { mysql = row })

-- The `switch` of `deduct`, on the state that the script leaves.
unfoldable pub after_script : ℤ → Outside → DeductRequest → Item → DeductResult → Reply ℤ × Item
unfolding fallback_to_mysql deduct_stock after_row
after_script retry_times o req s lua = elim lua.result [
  | key_not_found ↦ fallback_to_mysql o.db req s
  | insufficient ↦ (err stock_insufficient, s)
  | deducted ↦
      after_row retry_times o req.quantity lua.remaining_stock s
        (deduct_stock o.db req.quantity s.mysql)
]

-- `deduct` behind its guard clause, with or without a connection to Redis.
unfoldable pub serve : Bool → ℤ → Outside → DeductRequest → Item → Reply ℤ × Item
unfolding fallback_to_mysql execute_deduct after_script
serve false retry_times o req s = fallback_to_mysql o.db req s
serve true retry_times o req s =
    let (lua, key) = execute_deduct o.eval req.quantity s.redis in
    after_script retry_times o req (record s { redis = key }) lua

-- `deduct`.
unfoldable pub deduct : ℤ → Outside → DeductRequest → Item → Reply ℤ × Item
unfolding serve
deduct retry_times o req s =
    if leb_ℤ req.item_id (pos 0) || leb_ℤ req.quantity (pos 0)
    then (err invalid_arg, s)
    else serve o.has_guard retry_times o req s

-- The stock that the k-th of the detached threads is to write, and the others.
unfoldable pub taken : ℕ → List ℤ → Option (ℤ × List ℤ)
taken k [] = none
taken zero (stock ∷ stocks) = some (stock, stocks)
taken (suc k) (stock ∷ stocks) = elim (taken k stocks) [
  | none ↦ none
  | some (x, rest) ↦ some (x, stock ∷ rest)
]

-- One of the threads that rebuild the key runs, whichever the scheduler chooses, and reaches Redis or
-- does not.
unfoldable pub rebuild : Option (ℤ × List ℤ) → Bool → Item → Item
rebuild none reached s = s
rebuild (some (stock, rest)) reached s = record s {
  redis = if reached then some stock else s.redis;
  rebuilds = rest;
}

-- What becomes of `set`: it throws, after it took effect or not, or it succeeds.
pub data Set : Type 0 where
  set_throws : (applied : Bool) → Set
  set_done : Set

abbrev pub set_key : Set → ℤ → Option ℤ → Reply (Unit {0}) × Option ℤ
set_key (set_throws applied) stock key =
    (err redis_unavailable, if applied then some stock else key)
set_key set_done stock key = (ok tt, some stock)

abbrev pub after_init : Set → ℤ → Item → Reply (Unit {0}) × Option ℤ → Reply (Unit {0}) × Item
after_init set stock s (err e, row) = (err e, record s { mysql = row })
after_init set stock s (threw, row) = (threw, record s { mysql = row })
after_init set stock s (ok _, row) =
    ((set_key set stock s.redis).0, record s { redis = (set_key set stock s.redis).1; mysql = row })

-- One round of the loop of `initialize`.
unfoldable pub init_item : Db → Set → ℤ → Item → Reply (Unit {0}) × Item
unfolding init_stock
init_item db set stock s = after_init set stock s (init_stock db stock s.mysql)

-- What becomes of `get`: no connection, an exception, or an answer.
pub data Get : Type 0 where
  no_connection get_throws get_answers : Get

-- A value is the decimal form of an `int`, so that `std::stoi` does not throw.
unfoldable pub get_redis_stock : Get → Item → Reply ℤ
get_redis_stock no_connection s = err redis_unavailable
get_redis_stock get_throws s = err redis_unavailable
get_redis_stock get_answers s = elim s.redis [ none ↦ err redis_key_not_found | some n ↦ ok n ]

pub record ConsistencyReport : Type 0 where
  pub redis_stock : ℤ
  pub mysql_stock : ℤ
  pub redis_available : Bool
  pub consistent : Bool

abbrev pub or_minus_one : Reply ℤ → ℤ
or_minus_one (ok n) = n
or_minus_one (err _) = negsuc 0
or_minus_one threw = negsuc 0

abbrev pub is_ok : Reply ℤ → Bool
is_ok (ok _) = true
is_ok (err _) = false
is_ok threw = false

-- The report on the two replies.
unfoldable pub report : Reply ℤ → Reply ℤ → ConsistencyReport
report r m = record {
  redis_stock = or_minus_one r;
  mysql_stock = or_minus_one m;
  redis_available = is_ok r;
  consistent =
      is_ok r
      && (leb_ℤ (or_minus_one r) (or_minus_one m) && leb_ℤ (or_minus_one m) (or_minus_one r));
}

abbrev pub unless_threw {ℓ κ} : {A : Type ℓ} {B : Type κ} → Reply A → B → Option B
unless_threw (ok _) b = some b
unless_threw (err _) b = some b
unless_threw threw b = none

-- `check`: none is an exception of the database pool.
unfoldable pub check : Get → Db → Item → Option ConsistencyReport
unfolding get_redis_stock get_stock report
check get db s = let m = get_stock db s.mysql in unless_threw m (report (get_redis_stock get s) m)
