-- ===== src/Inventory/Steps.antt =====
-- One step of a call of `deduct`: what it does to the row, and to what is sold.
use backend_common_component.Prelude.{
  ℕ, zero, suc, ◌+◌, ◌≤◌, ◌≡◌, refl, Bool, true, Option, arith, ℤ, pos, leb_ℤ, if◌then◌else◌,
}
use backend_common_component.Inventory.Store.{
  Reply, ok, err, threw, Db, LuaResult, deduct_stock, execute_deduct,
}
use backend_common_component.Inventory.Service.{
  Item, DeductRequest, Incr, Outside, fallback_to_mysql,
}
use backend_common_component.Inventory.Ledger.{
  units, IsStocked, sold, reported, Booked, after_fallback-Booked, deduct_stock-Booked,
}
use backend_common_component.Inventory.Calls.{
  Stage, begins, scripts, falls_back, commits, rolls_back, replied, enter, switch, after_commit,
  after_attempt, step,
}

-- What a call has sold, and whether it is past its guard clause with a negative quantity.
abbrev pub sale : ℤ → Stage → ℕ
sale qty (replied r) = sold qty r
sale qty begins = 0
sale qty scripts = 0
sale qty falls_back = 0
sale qty (commits _) = 0
sale qty (rolls_back _ _) = 0

abbrev pub odd : ℤ → Stage → ℕ
odd qty (replied r) = 0
odd qty begins = 0
odd qty _ = if leb_ℤ (pos 0) qty then 0 else 1

-- What a step does to the row.
pub record StepSold (exactly : Bool) (qty : ℤ) (stage stage' : Stage) (row row' : Option ℤ)
    : Type 0 where
  pub stocked : IsStocked row'
  pub covered : sale qty stage' + units row' ≤ sale qty stage + units row
  pub exact : exactly ≡ true → sale qty stage' + units row' ≡ sale qty stage + units row
  pub guarded : odd qty stage' ≡ 0

idle-StepSold :
    (exactly : Bool) (qty : ℤ) (stage stage' : Stage) (row : Option ℤ)
    → IsStocked row
    → sale qty stage' ≡ sale qty stage
    → odd qty stage' ≡ 0
    → StepSold exactly qty stage stage' row row
idle-StepSold exactly qty stage stage' row v n g = record {
  stocked = v;
  covered = omega arith;
  exact = λ _. omega arith;
  guarded = g;
}

-- The stages that follow one that sells nothing, without a sale.
Quiet : ℤ → Stage → Type 0
Quiet qty stage = (sale qty stage ≡ 0) × (odd qty stage ≡ 0)

enter-Quiet : (has_guard : Bool) (req : DeductRequest) → Quiet req.quantity (enter has_guard req)
unfolding enter Quiet
enter-Quiet has_guard req = ground arith

switch-Quiet :
    (qty : ℤ) (result : LuaResult) (remaining : ℤ)
    → odd qty scripts ≡ 0
    → Quiet qty (switch (record { result = result; remaining_stock = remaining }))
unfolding switch Quiet
switch-Quiet qty result remaining g = ground arith

after_attempt-Quiet :
    (qty : ℤ) (x : Incr) (tried left : ℕ)
    → odd qty (rolls_back tried left) ≡ 0
    → Quiet qty (after_attempt x tried left)
unfolding after_attempt Quiet
after_attempt-Quiet qty x tried left g = ground arith

sold-StepSold :
    (db : Db) (qty : ℤ) (stage stage' : Stage) (row row' : Option ℤ) (r : Reply ℤ)
    → Booked db qty row row' r
    → sale qty stage ≡ 0
    → sale qty stage' ≡ sold qty r
    → odd qty stage' ≡ 0
    → StepSold (reported db) qty stage stage' row row'
sold-StepSold db qty stage stage' row row' r b z n g = record {
  stocked = b.stocked;
  covered = omega (arith, b.covered);
  exact = λ h. omega (arith, b.exact h);
  guarded = g;
}

module _ (retry_times : ℤ) (o : Outside) (req : DeductRequest) where
  commit-StepSold :
      (n : ℤ) (row : Option ℤ) (x : Reply ℤ × Option ℤ)
      → odd req.quantity (commits n) ≡ 0
      → Booked o.db req.quantity row x.1 x.0
      → StepSold (reported o.db) req.quantity (commits n) (after_commit retry_times n x.0) row x.1
  unfolding after_commit
  commit-StepSold n row (ok m, row') g b =
      sold-StepSold o.db req.quantity _ _ row row' (ok m) b refl refl refl
  commit-StepSold n row (err e, row') g b =
      sold-StepSold o.db req.quantity _ _ row row' (err e) b refl refl g
  commit-StepSold n row (threw, row') g b =
      sold-StepSold o.db req.quantity _ _ row row' threw b refl refl refl

  pub step-Sold :
      (stage : Stage) (s : Item)
      → IsStocked s.mysql
      → odd req.quantity stage ≡ 0
      → let (stage', s') = step retry_times o req stage s in
        StepSold (reported o.db) req.quantity stage stage' s.mysql s'.mysql
  unfolding step Quiet fallback_to_mysql
  step-Sold begins s v g =
      let (n, h) = enter-Quiet o.has_guard req in idle-StepSold _ _ _ _ s.mysql v n h
  step-Sold scripts s v g =
      let (lua, key) = execute_deduct o.eval req.quantity s.redis in
      let (n, h) = switch-Quiet req.quantity lua.result lua.remaining_stock g in
      idle-StepSold _ _ _ _ s.mysql v n h
  step-Sold falls_back s v g =
      sold-StepSold o.db req.quantity _ _ s.mysql _ _
        (after_fallback-Booked o.db req.quantity s (deduct_stock o.db req.quantity s.mysql)
          (deduct_stock-Booked o.db req.quantity s.mysql (ground arith) v))
        refl refl refl
  step-Sold (commits n) s v g =
      commit-StepSold n s.mysql (deduct_stock o.db req.quantity s.mysql) g
        (deduct_stock-Booked o.db req.quantity s.mysql (ground arith) v)
  step-Sold (rolls_back tried zero) s v g = idle-StepSold _ _ _ _ s.mysql v refl refl
  step-Sold (rolls_back tried (suc left)) s v g =
      let (n, h) = after_attempt-Quiet req.quantity (o.incr_at tried) tried left g in
      idle-StepSold _ _ _ _ s.mysql v n h
  step-Sold (replied r) s v g = idle-StepSold _ _ _ _ s.mysql v refl refl
