-- ===== src/Inventory/Sales.antt =====
-- Days of sale: any sequence of calls of `deduct` and of rebuilds of the Redis key.
use backend_common_component.Prelude.{
  ℕ, ◌+◌, ◌≤◌, ◌≡◌, refl, Bool, true, false, ◌&&◌, Option, none, some, List, [], ◌∷◌, arith, ℤ,
}
use backend_common_component.Inventory.Service.{
  Item, DeductRequest, Outside, deduct, rebuild, taken,
}
use backend_common_component.Inventory.Ledger.{units, IsStocked, sold, reported, deduct-Booked}

pub data Event : Type 0 where
  calls : Outside → DeductRequest → Event
  rebuilds : (k : ℕ) (reached : Bool) → Event

-- One event, and what it reports as sold.
unfoldable pub happen : ℤ → Event → Item → ℕ × Item
unfolding deduct rebuild taken
happen retry_times (calls o req) s =
    let (r, t) = deduct retry_times o req s in (sold req.quantity r, t)
happen retry_times (rebuilds k reached) s = (0, rebuild (taken k s.rebuilds) reached s)

unfoldable pub day : ℤ → List Event → Item → ℕ × Item
unfolding happen
day retry_times [] s = (0, s)
day retry_times (x ∷ xs) s =
    let (n, t) = happen retry_times x s in let (m, u) = day retry_times xs t in (n + m, u)

-- No transaction of the day throws after its commit took effect.
abbrev pub event_reported : Event → Bool
event_reported (calls o _) = reported o.db
event_reported (rebuilds _ _) = true

abbrev pub all_reported : List Event → Bool
all_reported [] = true
all_reported (x ∷ xs) = event_reported x && all_reported xs

-- What happens to the row between two states, while n units are reported as sold.
pub record Sold (exactly : Bool) (n : ℕ) (s t : Item) : Type 0 where
  pub stocked : IsStocked t.mysql
  pub covered : n + units t.mysql ≤ units s.mysql
  pub exact : exactly ≡ true → n + units t.mysql ≡ units s.mysql

rebuild-Sold :
    (chosen : Option (ℤ × List ℤ)) (reached : Bool) (s : Item)
    → IsStocked s.mysql
    → Sold true 0 s (rebuild chosen reached s)
unfolding rebuild
rebuild-Sold none reached s v = record {
  stocked = v;
  covered = omega arith;
  exact = λ _. omega arith;
}
rebuild-Sold (some _) reached s v = record {
  stocked = v;
  covered = omega arith;
  exact = λ _. omega arith;
}

both_true : (a b : Bool) → (a && b) ≡ true → (a ≡ true) × (b ≡ true)
both_true true b h = (refl, h)
both_true false b h = absurd (ground (arith, h))

happen-Sold :
    (retry_times : ℤ) (x : Event) (s : Item)
    → IsStocked s.mysql
    → Sold (event_reported x) (happen retry_times x s).0 s (happen retry_times x s).1
unfolding happen
happen-Sold retry_times (calls o req) s v =
    let b = deduct-Booked retry_times o req s v in
    record { stocked = b.stocked; covered = b.covered; exact = b.exact }
happen-Sold retry_times (rebuilds k reached) s v = rebuild-Sold (taken k s.rebuilds) reached s v

-- On any day that begins with a stock that is not negative, the row stays so, and what is reported as
-- sold never exceeds what the row has lost; if no commit throws after it took effect, it is exactly
-- that.
day-Sold :
    (retry_times : ℤ) (xs : List Event) (s : Item)
    → IsStocked s.mysql
    → Sold (all_reported xs) (day retry_times xs s).0 s (day retry_times xs s).1
unfolding day
day-Sold retry_times [] s v = record {
  stocked = v;
  covered = omega arith;
  exact = λ _. omega arith;
}
day-Sold retry_times (x ∷ xs) s v =
    let a = happen-Sold retry_times x s v in
    let b = day-Sold retry_times xs (happen retry_times x s).1 a.stocked in
    record {
      stocked = b.stocked;
      covered = omega (arith, a.covered, b.covered);
      exact = λ h.
          let (f, g) = both_true (event_reported x) (all_reported xs) h in
          omega (arith, a.exact f, b.exact g);
    }
