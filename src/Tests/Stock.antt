-- ===== src/Tests/Stock.antt =====
-- The inventory demo on short days.
use backend_common_component.Prelude.{
  ℕ, arith, zero, suc, ◌≡◌, refl, true, false, Option, some, List, [], ◌∷◌, pos, negsuc, ◌>>=◌,
}
use backend_common_component.Inventory.Store.{
  Db, pool_throws, threw, execute_deduct, deduct_script, answers, unavailable, mysql_update_failed,
  deduct_stock, deduct_row, eval_returns, get_stock,
}
use backend_common_component.Inventory.Service.{
  serve, after_script, after_row, fallback_to_mysql, Item, DeductRequest, Outside, no_guard,
  incr_done, Incr, deduct, check, report, get_answers, get_redis_stock,
}
use backend_common_component.Inventory.Sales.{Event, calls, rebuilds}
use backend_common_component.Inventory.Answers.{Honest, asked, deduct_handler-Honest}
use backend_common_component.Inventory.Controller.{
  DeductBody, deduct_handler, deduct_valid, answer_deduct, make_error, error_text,
}

abbrev ten : Item
ten = record { redis = some (pos 10); mysql = some (pos 10); rebuilds = [] }

-- The second attempt to roll back succeeds.
abbrev second_time : ℕ → Incr
second_time zero = no_guard
second_time (suc _) = incr_done

abbrev served_by : Db → Outside
served_by db = record { has_guard = true; eval = eval_returns; db = db; incr_at = second_time }

abbrev degraded : Outside
degraded = record (served_by answers) { has_guard = false }

abbrev wants : ℕ → DeductRequest
wants n = record { item_id = pos 7; quantity = pos n }

-- Three are sold, four more without Redis, then the key is rebuilt; five are no longer there.
abbrev short_day : List Event
short_day =
    calls (served_by answers) (wants 3)
    ∷ calls degraded (wants 4)
    ∷ rebuilds 0 true
    ∷ calls (served_by answers) (wants 5)
    ∷ []

-- If MySQL cannot be read, and the key holds -1, the report says consistent.
both_minus_one :
    (check get_answers unavailable
        (record { redis = some (negsuc 0); mysql = some (pos 3); rebuilds = [] })
      >>= λ r. some r.consistent)
    ≡ some true
unfolding check get_redis_stock get_stock report
both_minus_one = refl

abbrev body : Option DeductBody
body = some (record { item_id = some (pos 7); quantity = some (pos 3) })

deduct_handler-Honest_example :
    let (a, s') = deduct_handler (pos 3) (served_by answers) body ten in
    Honest answers (asked body) a ten.mysql s'.mysql
deduct_handler-Honest_example =
    deduct_handler-Honest (pos 3) (served_by answers) body ten (omega arith)

-- The database pool throws after the script: the key has lost three units, the row none.
thrown_past :
    deduct (pos 3) (served_by pool_throws) (wants 3) ten
    ≡ (threw, record { redis = some (pos 7); mysql = some (pos 10); rebuilds = [] })
unfolding deduct serve after_script after_row deduct_stock execute_deduct deduct_script
thrown_past = refl

-- Without Redis a stock that is too small is answered as a failed update.
degraded_answer :
    (deduct_handler
      (pos 3)
      degraded
      (some (record { item_id = some (pos 7); quantity = some (pos 30) }))
      ten).0
    ≡ some (make_error (negsuc 499) (error_text mysql_update_failed))
unfolding deduct_handler deduct_valid answer_deduct deduct serve fallback_to_mysql deduct_stock
    deduct_row
degraded_answer = refl
