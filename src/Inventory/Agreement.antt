-- ===== src/Inventory/Agreement.antt =====
-- When Redis and MySQL agree on a stock, and when they do not.
use backend_common_component.Prelude.{
  ◌≡◌, refl, sym, ap, ◌∙◌, Bool, true, false, not, ◌↔◌, Option, some, List, [], ◌∷◌, ℤ, pos, ◌-ℤ◌,
  if◌then◌else◌,
}
use backend_common_component.Inventory.Store.{
  Db, pool_throws, unavailable, throws, answers, DeductResult, parse_result, init_stock, inserted,
}
use backend_common_component.Inventory.Service.{
  Item, DeductRequest, Outside, after_script, set_done, init_item,
}

unfoldable parsed : ℤ → ℤ → Bool → DeductResult × Option ℤ
parsed c q short =
    let y : List (Option ℤ) × Option ℤ =
      (if short
        then (some (pos 0) ∷ some c ∷ [], some c)
        else (some (pos 1) ∷ some (c -ℤ q) ∷ [], some (c -ℤ q))) in
    (parse_result y.0, y.1)

-- The database pool does not throw, and no commit throws after it took effect.
abbrev pub is_settled : Db → Bool
is_settled pool_throws = false
is_settled unavailable = true
is_settled (throws committed) = not committed
is_settled answers = true

abbrev pub Agree : Item → Type 0
Agree s = s.redis ≡ s.mysql

module _ (retry_times : ℤ) (o : Outside) (req : DeductRequest) where
  -- What the rest of the call makes of the script's outcome.
  abbrev Lands : Item → DeductResult × Option ℤ → Type 0
  Lands s y = Agree (after_script retry_times o req (record s { redis = y.1 }) y.0).1

some_injective : {a b : ℤ} → some a ≡ some b → a ≡ b
some_injective e = cc

-- `initialize` sets the key of an item back to the initial stock, and leaves a row that exists as it
-- is: after a restart the two agree only if the row has the initial stock.
reset_key :
    (stock left : ℤ) (s : Item)
    → s.mysql ≡ some left
    → let t = (init_item answers set_done stock s).1 in
      (t.redis ≡ some stock) × (t.mysql ≡ some left) × (Agree t ↔ (stock ≡ left))
unfolding init_item init_stock
reset_key stock left s e =
    let m = ap (inserted stock) e in
    (refl, m, (λ h. some_injective (h ∙ m), λ h. ap some h ∙ sym m))
