-- ===== src/Inventory/Ledger.antt =====
-- What calls of `deduct` take out of the MySQL row, and what they report as sold.
use backend_common_component.Prelude.{
  ℕ, ◌+◌, ◌≤◌, ◌≡◌, refl, Bool, true, false, not, ◌||◌, if_rule, Option, none, some, arith, ℤ, pos,
  negsuc, ◌≤ℤ◌, leb_ℤ, pos_part,
}
use backend_common_component.Inventory.Store.{
  Error, invalid_arg, LuaResult, Reply, ok, err, threw, Db, pool_throws, unavailable, throws,
  answers, deduct_row, deduct_stock, written, insufficient, deducted, key_not_found, execute_deduct,
}
use backend_common_component.Inventory.Service.{
  Item, DeductRequest, Outside, after_fallback, fallback_to_mysql, after_row, after_script, serve,
  deduct,
}

-- The stock of a row, and whether it is not negative.
abbrev pub units : Option ℤ → ℕ
units none = 0
units (some n) = pos_part n

abbrev pub IsStocked : Option ℤ → Type 0
IsStocked none = Unit {0}
IsStocked (some n) = pos 0 ≤ℤ n

-- What a reply sells.
abbrev pub sold : ℤ → Reply ℤ → ℕ
sold qty (ok _) = pos_part qty
sold qty (err _) = 0
sold qty threw = 0

-- What a transaction has done to the row if it reports what it did.
abbrev pub reported : Db → Bool
reported (throws committed) = not committed
reported pool_throws = true
reported unavailable = true
reported answers = true

-- From row to row', with the reply r, for a quantity that is not negative.
pub record Booked (db : Db) (qty : ℤ) (row row' : Option ℤ) (r : Reply ℤ) : Type 0 where
  pub stocked : IsStocked row'
  pub covered : sold qty r + units row' ≤ units row
  pub exact : reported db ≡ true → sold qty r + units row' ≡ units row

row-Booked :
    (qty : ℤ) (row : Option ℤ)
    → pos 0 ≤ℤ qty
    → IsStocked row
    → Booked answers qty row (written (deduct_row qty row) row) (deduct_row qty row)
unfolding deduct_row
row-Booked qty none h v = record { stocked = tt; covered = omega arith; exact = λ _. refl }
row-Booked (pos n) (some (pos c)) h v = record {
  stocked = ground arith;
  covered = ground arith;
  exact = λ _. ground arith;
}
row-Booked (negsuc n) (some c) h v = absurd (omega arith)
row-Booked (pos n) (some (negsuc c)) h v = absurd (omega arith)

same-Booked :
    (db : Db) (qty : ℤ) (row : Option ℤ) (e : Error) → IsStocked row → Booked db qty row row (err e)
same-Booked db qty row e v = record { stocked = v; covered = omega arith; exact = λ _. omega arith }

threw-Booked : (db : Db) (qty : ℤ) (row : Option ℤ) → IsStocked row → Booked db qty row row threw
threw-Booked db qty row v = record { stocked = v; covered = omega arith; exact = λ _. omega arith }

-- A committed transaction whose reply is lost sells nothing and still takes the quantity.
lost-Booked :
    {qty : ℤ} {row row' : Option ℤ} {r : Reply ℤ} (e : Error)
    → Booked answers qty row row' r
    → Booked (throws true) qty row row' (err e)
lost-Booked e b = record {
  stocked = b.stocked;
  covered = omega (arith, b.covered);
  exact = λ h. absurd (ground (arith, h));
}

pub deduct_stock-Booked :
    (db : Db) (qty : ℤ) (row : Option ℤ)
    → pos 0 ≤ℤ qty
    → IsStocked row
    → Booked db qty row (deduct_stock db qty row).1 (deduct_stock db qty row).0
unfolding deduct_stock
deduct_stock-Booked pool_throws qty row h v = threw-Booked pool_throws qty row v
deduct_stock-Booked unavailable qty row h v = same-Booked unavailable qty row _ v
deduct_stock-Booked (throws true) qty row h v = lost-Booked _ (row-Booked qty row h v)
deduct_stock-Booked (throws false) qty row h v = same-Booked (throws false) qty row _ v
deduct_stock-Booked answers qty row h v = row-Booked qty row h v

-- A reply that is exchanged for another of the same kind sells as much.
pub after_fallback-Booked :
    (db : Db) (qty : ℤ) (s : Item) (x : Reply ℤ × Option ℤ)
    → Booked db qty s.mysql x.1 x.0
    → Booked db qty s.mysql (after_fallback s x).1.mysql (after_fallback s x).0
after_fallback-Booked db qty s (ok _, row) b = b
after_fallback-Booked db qty s (err _, row) b = record {
  stocked = b.stocked;
  covered = b.covered;
  exact = b.exact;
}
after_fallback-Booked db qty s (threw, row) b = b

after_row-Booked :
    (retry_times : ℤ) (o : Outside) (qty remaining : ℤ) (s : Item) (x : Reply ℤ × Option ℤ)
    → Booked o.db qty s.mysql x.1 x.0
    → Booked o.db qty s.mysql
        (after_row retry_times o qty remaining s x).1.mysql
        (after_row retry_times o qty remaining s x).0
unfolding after_row
after_row-Booked retry_times o qty remaining s (ok _, row) b = record {
  stocked = b.stocked;
  covered = b.covered;
  exact = b.exact;
}
after_row-Booked retry_times o qty remaining s (err _, row) b = record {
  stocked = b.stocked;
  covered = b.covered;
  exact = b.exact;
}
after_row-Booked retry_times o qty remaining s (threw, row) b = b

module _ (retry_times : ℤ) (o : Outside) (req : DeductRequest) where
  after_script-Booked :
      (s : Item) (r : LuaResult) (n : ℤ)
      → pos 0 ≤ℤ req.quantity
      → IsStocked s.mysql
      → let x = after_script retry_times o req s (record { result = r; remaining_stock = n }) in
        Booked o.db req.quantity s.mysql x.1.mysql x.0
  unfolding after_script fallback_to_mysql
  after_script-Booked s insufficient n h v = same-Booked o.db req.quantity s.mysql _ v
  after_script-Booked s deducted n h v =
      after_row-Booked retry_times o req.quantity n s _
        (deduct_stock-Booked o.db req.quantity s.mysql h v)
  after_script-Booked s key_not_found n h v =
      after_fallback-Booked o.db req.quantity s _
        (deduct_stock-Booked o.db req.quantity s.mysql h v)

  serve-Booked :
      (b : Bool) (s : Item)
      → pos 0 ≤ℤ req.quantity
      → IsStocked s.mysql
      → let x = serve b retry_times o req s in Booked o.db req.quantity s.mysql x.1.mysql x.0
  unfolding serve fallback_to_mysql
  serve-Booked false s h v =
      after_fallback-Booked o.db req.quantity s _
        (deduct_stock-Booked o.db req.quantity s.mysql h v)
  serve-Booked true s h v =
      after_script-Booked (record s { redis = (execute_deduct o.eval req.quantity s.redis).1 }) _ _
        h v

  pub deduct-Booked :
      (s : Item)
      → IsStocked s.mysql
      → let x = deduct retry_times o req s in Booked o.db req.quantity s.mysql x.1.mysql x.0
  unfolding deduct
  deduct-Booked s v =
      if_rule (λ (x : Reply ℤ × Item). Booked o.db req.quantity s.mysql x.1.mysql x.0)
        (leb_ℤ req.item_id (pos 0) || leb_ℤ req.quantity (pos 0)) (err invalid_arg, s)
        (serve o.has_guard retry_times o req s)
        (λ _. same-Booked o.db req.quantity s.mysql invalid_arg v)
        (λ e. serve-Booked o.has_guard s (ground arith) v)
