-- ===== src/Inventory/Controller.antt =====
-- inventory_controller.cpp: what the handlers answer. Of a JSON body a handler sees the numbers that
-- `asInt64` and `asInt` give, where none is the exception that they throw; the HTTP and JSON libraries
-- are not part of the model.
use backend_common_component.Prelude.{
  ℕ, Bool, true, false, ◌||◌, Option, none, some, ◌>>=◌, List, ℤ, pos, negsuc, leb_ℤ, ltb_ℤ,
  if◌then◌else◌,
}
use backend_common_component.Inventory.Store.{Error, stock_insufficient, Reply, ok, err, threw, Db}
use backend_common_component.Inventory.Service.{Item, DeductRequest, Outside, deduct, Get, check}
use backend_common_component.Inventory.Concurrent.{
  Move, ConcurrentTestRequest, ConcurrentTestResponse, test_run,
}

-- The texts of the answers: the fixed ones, and that of an error.
pub data Message : Type 0 where
  success invalid_json invalid_parameters insufficient_stock : Message
  error_text : Error → Message

-- `payload` is the entry "data".
pub record Answer {ℓ} (A : Type ℓ) : Type ℓ where
  pub status : ℕ
  pub code : ℤ
  pub msg : Message
  pub payload : Option A

unfoldable pub make_error {ℓ} : {A : Type ℓ} → ℤ → Message → Answer A
make_error code msg = record {
  status = if ltb_ℤ code (pos 0) then 400 else 200;
  code = code;
  msg = msg;
  payload = none;
}

abbrev pub make_ok {ℓ} : {A : Type ℓ} → A → Answer A
make_ok a = record { status = 200; code = pos 0; msg = success; payload = some a }

-- The body of a request for a deduction.
pub record DeductBody : Type 0 where
  pub item_id : Option ℤ
  pub quantity : Option ℤ

abbrev pub is_insufficient : Error → Bool
is_insufficient stock_insufficient = true
is_insufficient _ = false

-- The answer to what the service replies; none is an exception that leaves the handler.
unfoldable pub answer_deduct : Reply ℤ → Option (Answer ℤ)
unfolding make_error
answer_deduct (ok remaining_stock) = some (make_ok remaining_stock)
answer_deduct (err e) = some (
    if is_insufficient e
    then make_error (negsuc 0) insufficient_stock
    else make_error (negsuc 499) (error_text e))
answer_deduct threw = none

unfoldable pub deduct_valid : ℤ → Outside → DeductRequest → Item → Option (Answer ℤ) × Item
unfolding make_error answer_deduct
deduct_valid retry_times o req s =
    if leb_ℤ req.item_id (pos 0) || leb_ℤ req.quantity (pos 0)
    then (some (make_error (negsuc 0) invalid_parameters), s)
    else let (reply, s') = deduct retry_times o req s in (answer_deduct reply, s')

-- The two numbers of a body; none is an exception.
abbrev pub numbers : DeductBody → Option DeductRequest
numbers b = b.item_id >>= λ i. b.quantity >>= λ q. some (record { item_id = i; quantity = q })

-- `deduct`: none is an exception that leaves the handler.
unfoldable pub deduct_handler : ℤ → Outside → Option DeductBody → Item → Option (Answer ℤ) × Item
unfolding make_error deduct_valid
deduct_handler retry_times o none s = (some (make_error (negsuc 0) invalid_json), s)
deduct_handler retry_times o (some body) s = elim (numbers body) [
  | none ↦ (none, s)
  | some req ↦ deduct_valid retry_times o req s
]

-- `concurrent_test`: without a body the defaults are taken; its entries have the defaults too.
pub record TestBody : Type 0 where
  pub item_id : Option ℤ
  pub quantity : Option ℤ
  pub concurrency : Option ℤ

abbrev pub test_numbers : Option TestBody → Option ConcurrentTestRequest
test_numbers none = some (record { item_id = pos 1; quantity = pos 1; concurrency = pos 100 })
test_numbers (some b) = b.item_id >>= λ i. b.quantity >>= λ q.
    b.concurrency >>= λ n. some (record { item_id = i; quantity = q; concurrency = n })

abbrev answer_test : Reply ConcurrentTestResponse → Option (Answer ConcurrentTestResponse)
answer_test (ok r) = some (make_ok r)
answer_test (err e) = some (make_error (negsuc 499) (error_text e))
answer_test threw = none

unfoldable pub test_handler :
    ℤ
    → (first last : Get × Db) → List Move
    → Option TestBody
    → Item
    → Option (Answer ConcurrentTestResponse) × Item
unfolding make_error test_run
test_handler retry_times first last xs body s = elim (test_numbers body) [
  | none ↦ (none, s)
  | some req ↦
      let (outcome, s') = test_run retry_times first last xs req s in (answer_test outcome, s')
]

-- The data of the answer of `check`: `redis_stock` is null if Redis is not available.
pub record CheckData : Type 0 where
  pub mysql_stock : ℤ
  pub consistent : Bool
  pub redis_stock : Option ℤ

unfoldable pub check_handler : Get → Db → Item → Option (Answer CheckData)
unfolding check
check_handler get db s = check get db s >>= λ r. some (
    make_ok (record {
      mysql_stock = r.mysql_stock;
      consistent = r.consistent;
      redis_stock = if r.redis_available then some r.redis_stock else none;
    }))
