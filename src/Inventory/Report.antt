-- ===== src/Inventory/Report.antt =====
-- The verdict of consistency_checker.cpp.
use backend_common_component.Prelude.{
  ℕ, ◌≡◌, sym, ap, ◌↔◌, true, ◌&&◌, arith, ℤ, pos, negsuc, leb_ℤ,
}
use mathlib.Core.Path.{subst}
use backend_common_component.Inventory.Store.{Reply, ok, err, threw}
use backend_common_component.Inventory.Service.{or_minus_one, report}

same_stock : (n k : ℕ) → (leb_ℤ (pos n) (pos k) && leb_ℤ (pos k) (pos n)) ≡ true → n ≡ k
same_stock n k h = ground arith

same_stock_refl : (n : ℕ) → (leb_ℤ (pos n) (pos n) && leb_ℤ (pos n) (pos n)) ≡ true
same_stock_refl n = ground arith

abbrev Equal : ℕ → Reply ℤ → Type 0
Equal n m = (leb_ℤ (pos n) (or_minus_one m) && leb_ℤ (or_minus_one m) (pos n)) ≡ true

read-Equal : (n : ℕ) (m : Reply ℤ) → Equal n m → m ≡ ok (pos n)
read-Equal n (ok (pos k)) h = ap (λ (i : ℕ). ok (pos i)) (sym (same_stock n k h))
read-Equal n (ok (negsuc k)) h = absurd (ground arith)
read-Equal n (err e) h = absurd (ground arith)
read-Equal n threw h = absurd (ground arith)

verdict : (n : ℕ) (m : Reply ℤ) → Equal n m ↔ (m ≡ ok (pos n))
verdict n m = (read-Equal n m, λ h. subst (Equal n) (sym h) (same_stock_refl n))

-- With a stock of Redis that is not negative, the report says consistent exactly if MySQL has replied
-- the same stock.
report-consistent :
    (n : ℕ) (m : Reply ℤ) → ((report (ok (pos n)) m).consistent ≡ true) ↔ (m ≡ ok (pos n))
unfolding report
report-consistent n m = verdict n m
