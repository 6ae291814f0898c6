-- ===== src/Tests/Parallel.antt =====
-- The concurrent test of the demo: two threads that ask for three of four.
use backend_common_component.Prelude.{
  ℕ, zero, suc, ◌+◌, ◌<◌, ◌≤◌, refl, true, List, [], ◌∷◌, arith, pos, rounds,
}
use backend_common_component.Inventory.Store.{answers, throws, eval_returns}
use backend_common_component.Inventory.Service.{DeductRequest, Outside, get_answers, incr_done}
use backend_common_component.Inventory.Calls.{begins}
use backend_common_component.Inventory.Concurrent.{Test, Move, works, rebuilds, test_run}
use backend_common_component.Inventory.Balance.{AllUp, IsUp}
use backend_common_component.Inventory.Finishing.{turns}
use backend_common_component.Inventory.TestRun.{Passes, test_request, agreed, test_run-Passes}

abbrev served : Outside
served = record { has_guard = true; eval = eval_returns; db = answers; incr_at = λ i. incr_done }

-- The transaction throws, and its commit took effect.
abbrev lost : Outside
lost = record served { db = throws true }

abbrev wants : DeductRequest
wants = record { item_id = pos 7; quantity = pos 3 }

abbrev two_calls : Test
two_calls = record { item = agreed 4; calls = begins ∷ begins ∷ [] }

abbrev lost_day : List Move
lost_day =
    works 0 lost
    ∷ works 1 served
    ∷ works 0 lost
    ∷ works 1 served
    ∷ works 0 lost
    ∷ rebuilds 0 true
    ∷ works 0 lost
    ∷ works 0 lost
    ∷ []

-- The two threads by turns.
abbrev race : ℕ → List Move
race zero = []
race (suc n) = works 0 served ∷ works 1 served ∷ race n

served-IsUp : IsUp served
served-IsUp = record { connects = refl; evals = refl; transacts = refl }

turns_enough : (i : ℕ) → i < 2 → rounds (pos 1) + 4 ≤ turns i (race 5)
turns_enough zero h = omega arith
turns_enough (suc zero) h = omega arith
turns_enough (suc (suc i)) h = absurd (omega arith)

race-AllUp : (n : ℕ) → AllUp (race n)
race-AllUp zero = tt
race-AllUp (suc n) = (served-IsUp, (served-IsUp, race-AllUp n))

test_run-Passes_example :
    Passes 2 3 4
      (test_request (pos 7) 2 3)
      (test_run
        (pos 1)
        (get_answers, answers)
        (get_answers, answers)
        (race 5)
        (test_request (pos 7) 2 3)
        (agreed 4)).0
test_run-Passes_example =
    test_run-Passes (pos 1) (pos 7) 2 3 4 (omega arith) refl (race 5) (race-AllUp 5) turns_enough
