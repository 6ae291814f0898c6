-- ===== src/Tests/Guarding.antt =====
-- The guards and the result type at small inputs.
use backend_common_component.Prelude.{
  ◌/◌, ◌%◌, ◌==◌, if◌then◌else◌, ℕ, ◌+◌, ◌≡◌, ◌⊎◌, refl, true, false, ◌≢◌, some, List, [], ◌∷◌, inl,
  inr,
}
use backend_common_component.Guards.Store.{Store, borrowed, owes}
use backend_common_component.Guards.RedisConnGuard as Redis
use backend_common_component.Guards.RedisConnGuard.{Action, constructs, moves, assigns, releases}
use backend_common_component.Guards.PooledConnGuard as Pooled
use backend_common_component.Result.Storage.{
  Result, returns, undefined, from_value, from_error, move_assign, is_ok,
}
use backend_common_component.Result.Propagation.{in_turn, outcome, made, all_made, in_turn-outcome}
use backend_common_component.Result.Laws.{Moves, move_assign-kinds}

abbrev nothing : Store
nothing = record { guards = []; calls = [] }

-- Two connections, one guard moved over the other, then both destroyed.
abbrev actions : List Action
actions = constructs (some 7) ∷ constructs (some 8) ∷ assigns 0 1 ∷ releases 1 ∷ releases 0 ∷ []

all_given_back : (Redis.run actions nothing).calls ≡ 8 ∷ 7 ∷ []
unfolding Redis.run Redis.act Redis.construct Redis.move_assign
all_given_back = refl

run-settled_example :
    Redis.settled 7 (Redis.run actions nothing) ≡ Redis.settled 7 nothing + Redis.lent 7 actions
run-settled_example = Redis.run-settled 7 actions nothing

abbrev two_guards : Store
two_guards = record { guards = borrowed (some 7) ∷ borrowed (some 8) ∷ []; calls = [] }

move_assign-loses_example :
    Pooled.settled 7 (Pooled.move_assign 0 1 two_guards) + owes 7 (borrowed (some 7))
    ≡ Pooled.settled 7 two_guards
move_assign-loses_example =
    Pooled.move_assign-loses 7 0 1 two_guards (borrowed (some 7)) (borrowed (some 8)) refl refl refl

abbrev first_released : Store
first_released = record {
  guards = record { pool = true; conn = some 7; released = true } ∷ borrowed (some 8) ∷ [];
  calls = 7 ∷ [];
}

release_first : Pooled.release 0 two_guards ≡ some first_released
unfolding Pooled.release borrowed
release_first = refl

abbrev five : Result ℕ ℕ
five = from_value 5

abbrev bad : Result ℕ ℕ
bad = from_error 404

abbrev emptied : ℕ → ℕ
emptied n = 0

-- Of the two kinds only the first has a destructor that does nothing.
move_assign-kinds_example :
    let done = move_assign emptied emptied true false bad five in
    let harmless = if is_ok five then true else false in
    (is_ok bad ≡ is_ok five → Moves emptied emptied five done)
    × (harmless ≡ true → Moves emptied emptied five done)
    × (is_ok bad ≢ is_ok five → harmless ≡ false → done ≡ undefined)
move_assign-kinds_example =
    move_assign-kinds emptied emptied true false bad five (inr (404, refl)) (inl (5, refl))

-- Halving three times, with the steps counted: 10 fails at the second step.
abbrev halve : ℕ → ℕ → (ℕ ⊎ ℕ) × ℕ
halve n made_steps = (if n % 2 == 0 then inl (n / 2) else inr 400, made_steps + 1)

in_turn-outcome_example :
    in_turn emptied emptied (all_made (halve ∷ halve ∷ halve ∷ [])) 10 0
    ≡ returns (
      made (outcome (halve ∷ halve ∷ halve ∷ []) 10 0).0,
      (outcome (halve ∷ halve ∷ halve ∷ []) 10 0).1,
    )
in_turn-outcome_example = in_turn-outcome emptied emptied (halve ∷ halve ∷ halve ∷ []) 10 0

second_fails :
    in_turn emptied emptied (all_made (halve ∷ halve ∷ halve ∷ [])) 10 0
    ≡ returns (from_error 400, 2)
unfolding in_turn
second_fails = refl
