-- ===== src/Inventory/Store.antt =====
-- redis_lua.cpp and `deduct_stock`, `get_stock` and `init_stock` of inventory_repository.cpp, for one
-- item: the value of its Redis key and the stock in its MySQL row, where `none` says that there is
-- none. A call of a server may throw, before it took effect or after.
use backend_common_component.Prelude.{
  ℕ, zero, suc, ◌-◌, ◌%◌, Bool, Option, none, some, List, [], ◌∷◌, ℤ, pos, negsuc, ◌-ℤ◌, ltb_ℤ, ltb,
  if◌then◌else◌,
}

-- The error codes of error_codes.h, and of the error library, that these files use.
pub data Error : Type 0 where
  invalid_arg not_found : Error
  stock_insufficient redis_key_not_found mysql_update_failed redis_unavailable : Error
  mysql_unavailable compensation_failed concurrency_test_failed : Error

-- What a function replies, or that an exception leaves it.
pub data Reply {ℓ} (A : Type ℓ) : Type ℓ where
  ok : A → Reply A
  err : Error → Reply A
  threw : Reply A

-- What becomes of a transaction: `get_connection` throws, which stands before the `try`, or gives no
-- connection; a statement throws (and the commit took effect or did not); or all statements are
-- answered. The connection has no transaction left open by an exception before.
pub data Db : Type 0 where
  pool_throws : Db
  unavailable : Db
  throws : (committed : Bool) → Db
  answers : Db

-- The transaction of `deduct_stock`: what it replies, and the row that it commits.
unfoldable pub deduct_row : ℤ → Option ℤ → Reply ℤ
deduct_row qty none = err mysql_update_failed
deduct_row qty (some current) =
    if ltb_ℤ current qty then err stock_insufficient else ok (current -ℤ qty)

abbrev pub written : Reply ℤ → Option ℤ → Option ℤ
written (ok new_stock) row = some new_stock
written (err e) row = row
written threw row = row

unfoldable pub deduct_stock : Db → ℤ → Option ℤ → Reply ℤ × Option ℤ
unfolding deduct_row
deduct_stock pool_throws qty row = (threw, row)
deduct_stock unavailable qty row = (err mysql_unavailable, row)
deduct_stock (throws committed) qty row =
    (err mysql_update_failed, if committed then written (deduct_row qty row) row else row)
deduct_stock answers qty row = (deduct_row qty row, written (deduct_row qty row) row)

-- `get_stock`.
unfoldable pub get_stock : Db → Option ℤ → Reply ℤ
get_stock pool_throws row = threw
get_stock unavailable row = err mysql_unavailable
get_stock (throws _) row = err mysql_update_failed
get_stock answers none = err not_found
get_stock answers (some stock) = ok stock

-- `init_stock`: `INSERT ... ON DUPLICATE KEY UPDATE stock=stock` keeps a row that exists.
abbrev pub inserted : ℤ → Option ℤ → Option ℤ
inserted stock none = some stock
inserted stock (some old) = some old

unfoldable pub init_stock : Db → ℤ → Option ℤ → Reply (Unit {0}) × Option ℤ
init_stock pool_throws stock row = (threw, row)
init_stock unavailable stock row = (err mysql_unavailable, row)
init_stock (throws committed) stock row =
    (err mysql_update_failed, if committed then inserted stock row else row)
init_stock answers stock row = (ok tt, inserted stock row)

-- The script of `deduct_script`: its reply, and the key afterwards.
unfoldable pub deduct_script : ℤ → Option ℤ → List (Option ℤ) × Option ℤ
deduct_script deduct_qty none = (some (negsuc 0) ∷ some (pos 0) ∷ [], none)
deduct_script deduct_qty (some current) =
    if ltb_ℤ current deduct_qty
    then (some (pos 0) ∷ some current ∷ [], some current)
    else (some (pos 1) ∷ some (current -ℤ deduct_qty) ∷ [], some (current -ℤ deduct_qty))

-- `static_cast<int>` of a 64-bit number: the lower 32 bits, as a signed number.
abbrev pub signed : ℕ → ℤ
signed bits = if ltb bits 2147483648 then pos bits else negsuc (4294967295 - bits)

unfoldable pub to_int : ℤ → ℤ
to_int (pos n) = signed (n % 4294967296)
to_int (negsuc n) = signed (4294967295 - n % 4294967296)

pub data LuaResult : Type 0 where
  insufficient deducted key_not_found : LuaResult

pub record DeductResult : Type 0 where
  pub result : LuaResult
  pub remaining_stock : ℤ

-- The `switch` of `parse_result`, with `KeyNotFound` for an unknown code.
unfoldable pub lua_result : ℤ → LuaResult
lua_result (pos zero) = insufficient
lua_result (pos (suc zero)) = deducted
lua_result (pos (suc (suc _))) = key_not_found
lua_result (negsuc _) = key_not_found

abbrev pub no_result : DeductResult
no_result = record { result = key_not_found; remaining_stock = pos 0 }

unfoldable pub parse_result : List (Option ℤ) → DeductResult
unfolding lua_result to_int
parse_result [] = no_result
parse_result (_ ∷ []) = no_result
parse_result (none ∷ _ ∷ _) = no_result
parse_result (some _ ∷ none ∷ _) = no_result
parse_result (some code ∷ some stock ∷ _) = record {
  result = lua_result (to_int code);
  remaining_stock = to_int stock;
}

-- What becomes of `eval`: it throws, after the script ran or not, or it returns the reply.
pub data Eval : Type 0 where
  eval_throws : (ran : Bool) → Eval
  eval_returns : Eval

unfoldable pub execute_deduct : Eval → ℤ → Option ℤ → DeductResult × Option ℤ
unfolding deduct_script parse_result
execute_deduct (eval_throws ran) qty key =
    (no_result, if ran then (deduct_script qty key).1 else key)
execute_deduct eval_returns qty key =
    (parse_result (deduct_script qty key).0, (deduct_script qty key).1)
