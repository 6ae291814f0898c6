-- ===== src/Inventory/Finishing.antt =====
-- Calls of `deduct` end: the steps that a call has left, in any interleaving.
use backend_common_component.Prelude.{
  ℕ, zero, suc, ◌+◌, ◌-◌, ◌≤◌, ◌≡◌, Option, none, some, List, [], ◌∷◌, arith, ℤ, rounds, get_elem?,
  Option-cases, inl, inr, ◌==◌, if◌then◌else◌, set-get_self, set-get_ne, Bool-cases, Bool,
}
use backend_common_component.Inventory.Store.{Reply, LuaResult, deduct_stock, execute_deduct}
use backend_common_component.Inventory.Service.{Item, DeductRequest, Incr, Outside}
use backend_common_component.Inventory.Calls.{
  Stage, begins, scripts, falls_back, commits, rolls_back, replied, enter, switch, after_commit,
  after_attempt, step,
}
use backend_common_component.Inventory.Concurrent.{Test, Move, works, rebuilds, advance, act, run}

-- The turns of call i in an interleaving.
abbrev turns_by : ℕ → Move → ℕ
turns_by i (works j _) = if j == i then 1 else 0
turns_by i (rebuilds _ _) = 0

abbrev pub turns : ℕ → List Move → ℕ
turns i [] = 0
turns i (x ∷ xs) = turns_by i x + turns i xs

module _ (retry_times : ℤ) where
  -- The steps that a call has left, when all servers are at their worst.
  abbrev pub steps_left : Stage → ℕ
  steps_left begins = rounds retry_times + 4
  steps_left scripts = rounds retry_times + 3
  steps_left (commits _) = rounds retry_times + 2
  steps_left (rolls_back _ left) = left + 1
  steps_left falls_back = 1
  steps_left (replied _) = 0

  abbrev pub left_at : Option Stage → ℕ
  left_at none = 0
  left_at (some stage) = steps_left stage

  module _ (req : DeductRequest) where
    enter_left : (has_guard : Bool) → steps_left (enter has_guard req) ≤ rounds retry_times + 3
    unfolding enter
    enter_left has_guard = ground arith

    switch_left :
        (result : LuaResult) (remaining : ℤ)
        → steps_left (switch (record { result = result; remaining_stock = remaining }))
          ≤ rounds retry_times + 2
    unfolding switch
    switch_left result remaining = ground arith

    commit_left :
        (remaining : ℤ) (reply : Reply ℤ)
        → steps_left (after_commit retry_times remaining reply) ≤ rounds retry_times + 1
    unfolding after_commit
    commit_left remaining reply = ground arith

    attempt_left : (x : Incr) (tried left : ℕ) → steps_left (after_attempt x tried left) ≤ left + 1
    unfolding after_attempt
    attempt_left x tried left = ground arith

    step_left :
        (o : Outside) (stage : Stage) (s : Item)
        → steps_left (step retry_times o req stage s).0 ≤ steps_left stage - 1
    unfolding step
    step_left o begins s = omega (arith, enter_left o.has_guard)
    step_left o scripts s =
        let (lua, key) = execute_deduct o.eval req.quantity s.redis in
        omega (arith, switch_left lua.result lua.remaining_stock)
    step_left o falls_back s = omega arith
    step_left o (commits remaining) s =
        omega (arith, commit_left remaining (deduct_stock o.db req.quantity s.mysql).0)
    step_left o (rolls_back tried zero) s = omega arith
    step_left o (rolls_back tried (suc left)) s =
        omega (arith, attempt_left (o.incr_at tried) tried left)
    step_left o (replied reply) s = omega arith

    work_left :
        (i j : ℕ) (o : Outside) (t : Test) (stage : Stage)
        → get_elem? t.calls i ≡ some stage
        → left_at (get_elem? (advance i t (step retry_times o req stage t.item)).calls j)
          ≤ left_at (get_elem? t.calls j) - (if i == j then 1 else 0)
    work_left i j o t stage e =
        let (stage', s') = step retry_times o req stage t.item in
        elim (Bool-cases (i == j)) [
          | inl same ↦
              ground
                (arith, same, e, step_left o stage t.item, set-get_self i t.calls stage stage' e)
          | inr other ↦ ground (arith, other, set-get_ne i j t.calls stage' other)
        ]

    act_left :
        (j : ℕ) (x : Move) (t : Test)
        → left_at (get_elem? (act retry_times req x t).calls j)
          ≤ left_at (get_elem? t.calls j) - turns_by j x
    unfolding act
    act_left j (rebuilds k reached) t = omega arith
    act_left j (works i o) t = elim (Option-cases (get_elem? t.calls i)) [
      | inl out ↦ ground (arith, out)
      | inr (stage, e) ↦ rw (e, act) (work_left i j o t stage e)
    ]

    pub run_left :
        (j : ℕ) (xs : List Move) (t : Test)
        → left_at (get_elem? (run retry_times req xs t).calls j)
          ≤ left_at (get_elem? t.calls j) - turns j xs
    unfolding run
    run_left j [] t = omega arith
    run_left j (x ∷ xs) t = omega (arith, act_left j x t, run_left j xs (act retry_times req x t))
