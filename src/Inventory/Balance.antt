-- ===== src/Inventory/Balance.antt =====
-- Calls of `deduct` in any interleaving, while all servers answer: the two stores and what is under
-- way between them.
use backend_common_component.Prelude.{
  ℕ, zero, suc, ◌+◌, ◌-◌, ◌<◌, ◌≤◌, ◌≡◌, refl, ◌∙◌, Bool, true, false, Option, some, List, [], ◌∷◌,
  arith, ℤ, pos, leb_ℤ, get_elem?, sum_by, sum_by-set, Option-cases, inl, inr,
}
use native.Mathlib.Decide.{dec_lt}
use backend_common_component.Inventory.Store.{
  stock_insufficient, DeductResult, Reply, ok, err, threw, answers, eval_returns, deduct_stock,
  deduct_row, execute_deduct, deduct_script, parse_result, lua_result, to_int,
}
use backend_common_component.Inventory.Service.{Item, DeductRequest, Outside, rebuild, taken}
use backend_common_component.Inventory.Calls.{
  Stage, begins, scripts, falls_back, commits, rolls_back, replied, enter, switch, after_commit,
  step,
}
use backend_common_component.Inventory.Concurrent.{
  Test, Move, works, rebuilds, advance, act, run, failed,
}
use backend_common_component.Inventory.Steps.{sale}

sum_by-get {ℓ} :
    {A : Type ℓ} (w : A → ℕ) (i : ℕ) (xs : List A) (x : A)
    → get_elem? xs i ≡ some x
    → w x ≤ sum_by w xs
sum_by-get w i [] x e = cc
sum_by-get w zero (y ∷ ys) x e = ground arith
sum_by-get w (suc i) (y ∷ ys) x e = omega (arith, sum_by-get w i ys x e)

-- Both servers answer.
pub record IsUp (o : Outside) : Type 0 where
  pub connects : o.has_guard ≡ true
  pub evals : o.eval ≡ eval_returns
  pub transacts : o.db ≡ answers

abbrev pub AllUp : List Move → Type 0
AllUp [] = Unit {0}
AllUp (works _ o ∷ xs) = IsUp o × AllUp xs
AllUp (rebuilds _ _ ∷ xs) = AllUp xs

-- What a call has taken out of Redis and not yet out of MySQL, and whether it is on a branch for
-- servers that fail.
abbrev pub held : ℕ → Stage → ℕ
held q (commits _) = q
held q begins = 0
held q scripts = 0
held q falls_back = 0
held q (rolls_back _ _) = 0
held q (replied _) = 0

abbrev pub stray : Stage → ℕ
stray falls_back = 1
stray (rolls_back _ _) = 1
stray begins = 0
stray scripts = 0
stray (commits _) = 0
stray (replied (ok _)) = 0
stray (replied (err _)) = 0
stray (replied threw) = 1

-- What a step does to the two stocks.
record StepBalanced (q : ℕ) (stage stage' : Stage) (key row : ℕ) (s s' : Item) : Type 0 where
  key' : ℕ
  row' : ℕ
  key_is : s'.redis ≡ some (pos key')
  row_is : s'.mysql ≡ some (pos row')
  queue_is : s'.rebuilds ≡ s.rebuilds
  moved : row' + key + held q stage ≡ row + key' + held q stage'
  sold : row' + sale (pos q) stage' ≡ row + sale (pos q) stage
  straight : stray stage' ≡ 0
  falls : key' ≤ key
  refused : failed stage < failed stage' → key' < q

same-StepBalanced :
    (q : ℕ) (stage stage' : Stage) (key row : ℕ) (s : Item)
    → s.redis ≡ some (pos key)
    → s.mysql ≡ some (pos row)
    → held q stage' ≡ held q stage
    → sale (pos q) stage' ≡ sale (pos q) stage
    → stray stage' ≡ 0
    → (failed stage < failed stage' → key < q)
    → StepBalanced q stage stage' key row s s
same-StepBalanced q stage stage' key row s r m h n z f = record {
  key' = key;
  row' = row;
  key_is = r;
  row_is = m;
  queue_is = refl;
  moved = omega (arith, h);
  sold = omega (arith, n);
  straight = z;
  falls = omega arith;
  refused = f;
}

-- What the script does to a key with enough stock, and to one with less.
script_sells :
    (q key : ℕ)
    → q ≤ key
    → let (lua, left) = execute_deduct eval_returns (pos q) (some (pos key)) in
      (switch lua ≡ commits (to_int (pos (key - q)))) × (left ≡ some (pos (key - q)))
unfolding execute_deduct deduct_script parse_result lua_result to_int switch
script_sells q key l = ground arith

script_refuses :
    (q key : ℕ)
    → key < q
    → let (lua, left) = execute_deduct eval_returns (pos q) (some (pos key)) in
      (switch lua ≡ replied (err stock_insufficient)) × (left ≡ some (pos key))
unfolding execute_deduct deduct_script parse_result lua_result to_int switch
script_refuses q key l = ground arith

-- What the transaction does to a row with enough stock.
row_sells :
    (retry_times remaining : ℤ) (q row : ℕ)
    → q ≤ row
    → let (reply, left) = deduct_stock answers (pos q) (some (pos row)) in
      (after_commit retry_times remaining reply ≡ replied (ok remaining))
      × (left ≡ some (pos (row - q)))
unfolding deduct_stock deduct_row after_commit
row_sells retry_times remaining q row l = ground arith

script-StepBalanced :
    (q : ℕ) (x : DeductResult × Option ℤ) (key row : ℕ) (s : Item)
    → 0 < q
    → s.mysql ≡ some (pos row)
    → x ≡ execute_deduct eval_returns (pos q) (some (pos key))
    → StepBalanced q scripts (switch x.0) key row s (record s { redis = x.1 })
script-StepBalanced q x key row s z m e = elim (dec_lt key q) [
  | yes less ↦
      let (stage, left) = script_refuses q key less in
      record {
        key' = key;
        row' = row;
        key_is = ground (arith, e, left);
        row_is = m;
        queue_is = refl;
        moved = ground (arith, e, stage);
        sold = ground (arith, e, stage);
        straight = ground (arith, e, stage);
        falls = omega arith;
        refused = λ _. less;
      }
  | no more ↦
      let (stage, left) = script_sells q key (omega arith) in
      record {
        key' = key - q;
        row' = row;
        key_is = ground (arith, e, left);
        row_is = m;
        queue_is = refl;
        moved = ground (arith, e, stage);
        sold = ground (arith, e, stage);
        straight = ground (arith, e, stage);
        falls = omega arith;
        refused = λ f. absurd (ground (arith, e, stage, f));
      }
]

row-StepBalanced :
    (retry_times remaining : ℤ) (q : ℕ) (x : Reply ℤ × Option ℤ) (key row : ℕ) (s : Item)
    → q ≤ row
    → s.redis ≡ some (pos key)
    → x ≡ deduct_stock answers (pos q) (some (pos row))
    → StepBalanced q
        (commits remaining)
        (after_commit retry_times remaining x.0)
        key
        row
        s
        (record s { mysql = x.1 })
row-StepBalanced retry_times remaining q x key row s l r e =
    let (stage, left) = row_sells retry_times remaining q row l in
    record {
      key' = key;
      row' = row - q;
      key_is = r;
      row_is = ground (arith, e, left);
      queue_is = refl;
      moved = ground (arith, e, stage);
      sold = ground (arith, e, stage);
      straight = ground (arith, e, stage);
      falls = omega arith;
      refused = λ f. absurd (ground (arith, e, stage, f));
    }

module _ (retry_times item_id : ℤ) (q : ℕ) (positive : 0 < q)
    (named : leb_ℤ item_id (pos 0) ≡ false) where
  abbrev pub request : DeductRequest
  request = record { item_id = item_id; quantity = pos q }

  enter_scripts : (has_guard : Bool) → has_guard ≡ true → enter has_guard request ≡ scripts
  unfolding enter
  enter_scripts has_guard e = ground (arith, positive, named)

  step-Balanced :
      (o : Outside) (stage : Stage) (s : Item) (key row : ℕ)
      → IsUp o
      → s.redis ≡ some (pos key)
      → s.mysql ≡ some (pos row)
      → held q stage ≤ row
      → stray stage ≡ 0
      → let (stage', s') = step retry_times o request stage s in
        StepBalanced q stage stage' key row s s'
  unfolding step
  step-Balanced o begins s key row up r m h n =
      let e = enter_scripts o.has_guard up.connects in
      same-StepBalanced q begins (enter o.has_guard request) key row s r m (ground (arith, e))
        (ground (arith, e)) (ground (arith, e)) (λ f. absurd (ground (arith, e, f)))
  step-Balanced o scripts s key row up r m h n =
      script-StepBalanced q (execute_deduct o.eval (pos q) s.redis) key row s positive m
        (cc (up.evals, r))
  step-Balanced o falls_back s key row up r m h n = absurd (omega (arith, n))
  step-Balanced o (commits remaining) s key row up r m h n =
      row-StepBalanced retry_times remaining q (deduct_stock o.db (pos q) s.mysql) key row s h r
        (cc (up.transacts, m))
  step-Balanced o (rolls_back tried left) s key row up r m h n = absurd (omega (arith, n))
  step-Balanced o (replied reply) s key row up r m h n =
      same-StepBalanced q (replied reply) (replied reply) key row s r m refl refl n
        (λ f. absurd (omega (arith, f)))

  -- The row has what the key has and what is under way; with the sales it has what there was at the
  -- start; and a call was refused only when the key had less than the quantity.
  pub record IsBalanced (start : ℕ) (t : Test) : Type 0 where
    pub key : ℕ
    pub row : ℕ
    pub key_is : t.item.redis ≡ some (pos key)
    pub row_is : t.item.mysql ≡ some (pos row)
    pub no_rebuilds : t.item.rebuilds ≡ []
    pub under_way : row ≡ key + sum_by (held q) t.calls
    pub accounted : row + sum_by (sale (pos q)) t.calls ≡ start
    pub straight : sum_by stray t.calls ≡ 0
    pub refused : 0 < sum_by failed t.calls → key < q

  work-IsBalanced :
      (start i : ℕ) (o : Outside) (t : Test) (stage : Stage)
      → get_elem? t.calls i ≡ some stage
      → IsUp o
      → IsBalanced start t
      → IsBalanced start (advance i t (step retry_times o request stage t.item))
  work-IsBalanced start i o t stage e up v =
      let b =
        step-Balanced o stage t.item v.key v.row up v.key_is v.row_is
          (omega (arith, v.under_way, sum_by-get (held q) i t.calls stage e))
          (omega (arith, v.straight, sum_by-get stray i t.calls stage e)) in
      let stage' = (step retry_times o request stage t.item).0 in
      let failures = sum_by-set failed i t.calls stage stage' e in
      record {
        key = b.key';
        row = b.row';
        key_is = b.key_is;
        row_is = b.row_is;
        no_rebuilds = b.queue_is ∙ v.no_rebuilds;
        under_way =
            omega (arith, b.moved, v.under_way, sum_by-set (held q) i t.calls stage stage' e);
        accounted =
            omega (arith, b.sold, v.accounted, sum_by-set (sale (pos q)) i t.calls stage stage' e);
        straight = omega (arith, b.straight, v.straight, sum_by-set stray i t.calls stage stage' e);
        refused = λ f. ground (arith, f, failures, b.refused, b.falls, v.refused);
      }

  rebuild-IsBalanced :
      (start k : ℕ) (reached : Bool) (queue : List ℤ) (t : Test)
      → queue ≡ []
      → IsBalanced start t
      → IsBalanced start (record t { item = rebuild (taken k queue) reached t.item })
  unfolding rebuild taken
  rebuild-IsBalanced start k reached [] t e v = v
  rebuild-IsBalanced start k reached (x ∷ queue) t e v = absurd (cc e)

  act-IsBalanced :
      (start : ℕ) (x : Move) (xs : List Move) (t : Test)
      → AllUp (x ∷ xs)
      → IsBalanced start t
      → IsBalanced start (act retry_times request x t) × AllUp xs
  unfolding act
  act-IsBalanced start (rebuilds k reached) xs t up v =
      (rebuild-IsBalanced start k reached t.item.rebuilds t v.no_rebuilds v, up)
  act-IsBalanced start (works i o) xs t (up, rest) v = (
    elim (Option-cases (get_elem? t.calls i)) [
      | inl out ↦ rw (out, act) v
      | inr (stage, e) ↦ rw (e, act) (work-IsBalanced start i o t stage e up v)
    ],
    rest,
  )

  pub run-IsBalanced :
      (start : ℕ) (xs : List Move) (t : Test)
      → AllUp xs
      → IsBalanced start t
      → IsBalanced start (run retry_times request xs t)
  unfolding run
  run-IsBalanced start [] t up v = v
  run-IsBalanced start (x ∷ xs) t up v =
      let (w, rest) = act-IsBalanced start x xs t up v in
      run-IsBalanced start xs (act retry_times request x t) rest w
