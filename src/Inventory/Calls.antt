-- ===== src/Inventory/Calls.antt =====
-- One call of `deduct` of inventory_service.cpp in the steps that other threads can come between: each
-- makes one call of a server, or takes a connection. What the servers do at a step is chosen anew.
use backend_common_component.Prelude.{
  ℕ, zero, suc, ◌+◌, Bool, ◌||◌, ℤ, pos, leb_ℤ, rounds, if◌then◌else◌,
}
use backend_common_component.Inventory.Store.{
  invalid_arg, stock_insufficient, mysql_update_failed, Reply, ok, err, threw, insufficient,
  deducted, key_not_found, DeductResult, deduct_stock, execute_deduct,
}
use backend_common_component.Inventory.Service.{
  Item, DeductRequest, Incr, no_guard, incr_throws, incr_done, Outside, attempt, fallback_to_mysql,
}

-- Where a call is: at its guard clause, with a connection to Redis before the script, before the
-- transaction of `fallback_to_mysql` or of `deduct`, in the loop of `rollback_redis` with the number
-- of the attempt and of those that are left, or at its end.
pub data Stage : Type 0 where
  begins scripts falls_back : Stage
  commits : (remaining : ℤ) → Stage
  rolls_back : (tried left : ℕ) → Stage
  replied : Reply ℤ → Stage

-- The guard clause, and `get_connection`.
unfoldable pub enter : Bool → DeductRequest → Stage
enter has_guard req =
    if leb_ℤ req.item_id (pos 0) || leb_ℤ req.quantity (pos 0)
    then replied (err invalid_arg)
    else if has_guard
    then scripts
    else falls_back

-- The `switch` of `deduct`.
unfoldable pub switch : DeductResult → Stage
switch lua = elim lua.result [
  | key_not_found ↦ falls_back
  | insufficient ↦ replied (err stock_insufficient)
  | deducted ↦ commits lua.remaining_stock
]

-- Behind the transaction of `deduct`.
unfoldable pub after_commit : ℤ → ℤ → Reply ℤ → Stage
after_commit retry_times remaining (ok _) = replied (ok remaining)
after_commit retry_times remaining (err _) = rolls_back 0 (rounds retry_times)
after_commit retry_times remaining threw = replied threw

-- Behind one attempt of `rollback_redis`.
unfoldable pub after_attempt : Incr → ℕ → ℕ → Stage
after_attempt incr_done tried left = replied (err mysql_update_failed)
after_attempt no_guard tried left = rolls_back (tried + 1) left
after_attempt (incr_throws _) tried left = rolls_back (tried + 1) left

-- One step of a call.
unfoldable pub step : ℤ → Outside → DeductRequest → Stage → Item → Stage × Item
unfolding enter switch after_commit after_attempt fallback_to_mysql
step retry_times o req begins s = (enter o.has_guard req, s)
step retry_times o req scripts s =
    let (lua, key) = execute_deduct o.eval req.quantity s.redis in
    (switch lua, record s { redis = key })
step retry_times o req falls_back s =
    let (reply, s') = fallback_to_mysql o.db req s in (replied reply, s')
step retry_times o req (commits remaining) s =
    let (reply, row) = deduct_stock o.db req.quantity s.mysql in
    (after_commit retry_times remaining reply, record s { mysql = row })
step retry_times o req (rolls_back tried zero) s = (replied (err mysql_update_failed), s)
step retry_times o req (rolls_back tried (suc left)) s = (
  after_attempt (o.incr_at tried) tried left,
  record s { redis = attempt (o.incr_at tried) req.quantity s.redis },
)
step retry_times o req (replied reply) s = (replied reply, s)

-- A call by itself, for a number of steps.
unfoldable pub alone : ℕ → ℤ → Outside → DeductRequest → Stage × Item → Stage × Item
unfolding step
alone zero retry_times o req x = x
alone (suc n) retry_times o req (stage, s) =
    alone n retry_times o req (step retry_times o req stage s)
