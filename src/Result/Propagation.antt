-- ===== src/Result/Propagation.antt =====
-- Functions whose steps stand under the macro `EF_TRY` of error/include/macros.h.
use backend_common_component.Prelude.{◌≡◌, refl, List, [], ◌∷◌, ◌⊎◌, inl, inr}
use backend_common_component.Result.Storage.{
  Result, Run, returns, from_value, from_error, to_bool, unwrap_err, unwrap_move, ef_try,
}

-- Steps that may fail and change a state, each under `EF_TRY`.
unfoldable pub in_turn {ℓ κ ν} :
    {T : Type ℓ} {E : Type κ} {S : Type ν}
    → (T → T)
    → (E → E)
    → List (T → S → Result T E × S)
    → T
    → S
    → Run (Result T E × S)
unfolding ef_try from_value
in_turn left_value left_error [] t s = returns (from_value t, s)
in_turn left_value left_error (f ∷ fs) t s =
    ef_try left_value left_error (returns (f t s)) (in_turn left_value left_error fs)

-- The next steps, unless there is an error.
abbrev pub after {ℓ κ ν} :
    {T : Type ℓ} {E : Type κ} {S : Type ν} → (T → S → (T ⊎ E) × S) → (T ⊎ E) × S → (T ⊎ E) × S
after next (inl u, s) = next u s
after next (inr e, s) = (inr e, s)

-- What the steps do by themselves, up to the first that fails: the value after the last or the error of
-- that one, and the state then.
abbrev pub outcome {ℓ κ ν} :
    {T : Type ℓ} {E : Type κ} {S : Type ν} → List (T → S → (T ⊎ E) × S) → T → S → (T ⊎ E) × S
outcome [] t s = (inl t, s)
outcome (f ∷ fs) t s = after (outcome fs) (f t s)

abbrev pub made {ℓ κ} : {T : Type ℓ} {E : Type κ} → T ⊎ E → Result T E
made (inl t) = from_value t
made (inr e) = from_error e

abbrev pub all_made {ℓ κ ν} :
    {T : Type ℓ} {E : Type κ} {S : Type ν}
    → List (T → S → (T ⊎ E) × S)
    → List (T → S → Result T E × S)
all_made [] = []
all_made (f ∷ fs) = (λ t s. (made (f t s).0, (f t s).1)) ∷ all_made fs

abbrev finished {ℓ κ ν} :
    {T : Type ℓ} {E : Type κ} {S : Type ν} → (T ⊎ E) × S → Run (Result T E × S)
finished (o, s) = returns (made o, s)

-- One step before steps that do as they should.
ef_try-after {ℓ κ ν} :
    {T : Type ℓ} {E : Type κ} {S : Type ν} (left_value : T → T) (left_error : E → E)
    (next : T → S → (T ⊎ E) × S) (rest : T → S → Run (Result T E × S)) (x : (T ⊎ E) × S)
    → ((u : T) (s : S) → rest u s ≡ finished (next u s))
    → ef_try left_value left_error (finished x) rest ≡ finished (after next x)
unfolding ef_try from_value from_error to_bool unwrap_err unwrap_move
ef_try-after left_value left_error next rest (inl u, s) h = h u s
ef_try-after left_value left_error next rest (inr e, s) h = refl

-- Steps under `EF_TRY` have a defined result, the value after the last, or the error of the first that
-- fails, and leave the state as that step did: none is made after it.
pub in_turn-outcome {ℓ κ ν} :
    {T : Type ℓ} {E : Type κ} {S : Type ν} (left_value : T → T) (left_error : E → E)
    (fs : List (T → S → (T ⊎ E) × S)) (t : T) (s : S)
    → in_turn left_value left_error (all_made fs) t s
      ≡ returns (made (outcome fs t s).0, (outcome fs t s).1)
unfolding in_turn from_value
in_turn-outcome left_value left_error [] t s = refl
in_turn-outcome left_value left_error (f ∷ fs) t s =
    ef_try-after left_value left_error (outcome fs) (in_turn left_value left_error (all_made fs))
      (f t s) (in_turn-outcome left_value left_error fs)
