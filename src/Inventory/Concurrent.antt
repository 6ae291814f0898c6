-- ===== src/Inventory/Concurrent.antt =====
-- concurrent_test.cpp, and the interleavings of calls of `deduct` that it makes: threads that each make
-- the same call, in steps of any order, between rebuilds of the Redis key. Its text `summary` is left
-- out.
use backend_common_component.Prelude.{
  ℕ, zero, suc, Bool, ◌&&◌, none, some, List, [], ◌∷◌, ℤ, pos, ◌-ℤ◌, ltb_ℤ, eq_ℤ, rounds, get_elem?,
  set, sum_by, ◌*ℤ◌, if◌then◌else◌,
}
use backend_common_component.Inventory.Store.{
  concurrency_test_failed, Reply, ok, err, threw, Db, get_stock,
}
use backend_common_component.Inventory.Service.{
  Item, DeductRequest, Outside, rebuild, taken, Get, get_redis_stock, or_minus_one,
}
use backend_common_component.Inventory.Calls.{Stage, begins, replied, step}

pub record Test : Type 0 where
  pub item : Item
  pub calls : List Stage

-- The thread of call i makes a step, or a detached thread rebuilds the key.
pub data Move : Type 0 where
  works : (i : ℕ) (o : Outside) → Move
  rebuilds : (k : ℕ) (reached : Bool) → Move

abbrev pub advance : ℕ → Test → Stage × Item → Test
advance i t (stage, s) = record { item = s; calls = set t.calls i stage }

unfoldable pub act : ℤ → DeductRequest → Move → Test → Test
unfolding step rebuild taken
act retry_times req (works i o) t = elim (get_elem? t.calls i) [
  | none ↦ t
  | some stage ↦ advance i t (step retry_times o req stage t.item)
]
act retry_times req (rebuilds k reached) t = record t {
  item = rebuild (taken k t.item.rebuilds) reached t.item;
}

unfoldable pub run : ℤ → DeductRequest → List Move → Test → Test
unfolding act
run retry_times req [] t = t
run retry_times req (x ∷ xs) t = run retry_times req xs (act retry_times req x t)

pub record ConcurrentTestRequest : Type 0 where
  pub item_id : ℤ
  pub quantity : ℤ
  pub concurrency : ℤ

pub record ConcurrentTestResponse : Type 0 where
  pub total_requests : ℤ
  pub success_count : ℤ
  pub fail_count : ℤ
  pub theoretical_remain : ℤ
  pub actual_redis_stock : ℤ
  pub actual_mysql_stock : ℤ
  pub data_consistent : Bool

-- The calls of the threads that are made.
unfoldable pub threads : ℕ → List Stage
threads zero = []
threads (suc n) = begins ∷ threads n

abbrev pub succeeded : Stage → ℕ
succeeded (replied (ok _)) = 1
succeeded _ = 0

abbrev pub failed : Stage → ℕ
failed (replied (err _)) = 1
failed _ = 0

-- The stock before the test: that of Redis, or else that of MySQL.
unfoldable pub initial_stock : Get → Db → Item → Reply ℤ
unfolding get_redis_stock get_stock
initial_stock get db s = elim (get_redis_stock get s) [
  | ok n ↦ ok n
  | err _ ↦ elim (get_stock db s.mysql) [
    | ok n ↦ ok n
    | err _ ↦ err concurrency_test_failed
    | threw ↦ threw
  ]
  | threw ↦ threw
]

-- The response, when all threads are joined.
unfoldable pub response : ConcurrentTestRequest → ℤ → Get → Db → Test → ConcurrentTestResponse
unfolding get_redis_stock get_stock
response req stock get db t =
    let redis_stock = or_minus_one (get_redis_stock get t.item) in
    let mysql_stock = or_minus_one (get_stock db t.item.mysql) in
    let success_count = pos (sum_by succeeded t.calls) in
    let theoretical_remain = stock -ℤ (success_count *ℤ req.quantity) in
    record {
      total_requests = req.concurrency;
      success_count = success_count;
      fail_count = pos (sum_by failed t.calls);
      theoretical_remain = theoretical_remain;
      actual_redis_stock = redis_stock;
      actual_mysql_stock = mysql_stock;
      data_consistent = eq_ℤ redis_stock mysql_stock && eq_ℤ redis_stock theoretical_remain;
    }

abbrev pub unless_threw : Reply ℤ → ConcurrentTestResponse → Reply ConcurrentTestResponse
unless_threw (ok _) r = ok r
unless_threw (err _) r = ok r
unless_threw threw r = threw

-- `ConcurrentTestService::run` with the interleaving xs up to the last join. It throws with `reserve`
-- for a negative number of threads, and with the database pool. The end of the program by an exception
-- that leaves a thread is not modelled.
unfoldable pub test_run :
    ℤ
    → (first last : Get × Db) → List Move
    → ConcurrentTestRequest
    → Item
    → Reply ConcurrentTestResponse × Item
unfolding initial_stock run threads response
test_run retry_times (get, db) (get', db') xs req s = elim (initial_stock get db s) [
  | err e ↦ (err e, s)
  | threw ↦ (threw, s)
  | ok stock ↦
      if ltb_ℤ req.concurrency (pos 0)
      then (threw, s)
      else (let call : DeductRequest = record { item_id = req.item_id; quantity = req.quantity } in
          let t =
            run retry_times call xs
              (record { item = s; calls = threads (rounds req.concurrency) }) in
          (unless_threw (get_stock db' t.item.mysql) (response req stock get' db' t), t.item))
]
