-- ===== src/Result/Laws.antt =====
-- When the operations of a result are defined, and what they give.
use backend_common_component.Prelude.{
  ◌≡◌, ◌≢◌, refl, sym, false≢true, ◌⊎◌, inl, inr, Bool, true, false, if◌then◌else◌,
}
use backend_common_component.Result.Storage.{
  Slot, raw, value, error, Run, destroy_value, destroy_error, Result, returns, aborts, undefined,
  from_value, from_error, is_ok, unwrap, unwrap_err, value_or, destroy, move_construct, move_assign,
  void_ok, void_error, void_move_construct, void_move_assign,
}

-- A result as the constructors make it: its tag tells what stands in the storage.
abbrev pub IsSound {ℓ κ} : {T : Type ℓ} {E : Type κ} → Result T E → Type (ℓ ⊔ κ)
IsSound {T} {E} r = ((t : T) × (r ≡ from_value t)) ⊎ ((e : E) × (r ≡ from_error e))

module _ {ℓ κ} {T : Type ℓ} {E : Type κ} (left_value : T → T) (left_error : E → E) where
  -- An operation gives a copy, and a source that is sound.
  abbrev pub Moves : Result T E → Run (Result T E × Result T E) → Type (ℓ ⊔ κ)
  Moves other done = (source : Result T E) × (done ≡ returns (other, source)) × IsSound source

  -- A move construction of a sound result is defined: it gives a copy, and a source that is sound.
  move_construct-IsSound :
      (other : Result T E)
      → IsSound other
      → Moves other (move_construct left_value left_error other)
  unfolding move_construct from_value from_error
  move_construct-IsSound other (inl (t, f)) =
      (from_value (left_value t), rw f refl, inl (left_value t, refl))
  move_construct-IsSound other (inr (e, f)) =
      (from_error (left_error e), rw f refl, inr (left_error e, refl))

  -- A move assignment between sound results destroys the old content as an object of the new kind: it
  -- gives a copy and a source that is sound if the two are of the same kind, or the destructor of the
  -- new kind does nothing, and has no defined result otherwise.
  pub move_assign-kinds :
      (value_trivial error_trivial : Bool) (this other : Result T E)
      → IsSound this
      → IsSound other
      → let done = move_assign left_value left_error value_trivial error_trivial this other in
        let harmless = if is_ok other then value_trivial else error_trivial in
        (is_ok this ≡ is_ok other → Moves other done)
        × (harmless ≡ true → Moves other done)
        × (is_ok this ≢ is_ok other → harmless ≡ false → done ≡ undefined)
  unfolding move_assign destroy_value destroy_error from_value from_error is_ok
  move_assign-kinds true w this other (inl (s, f)) (inl (t, g)) =
      rw (f, g)
        (
          λ _. (from_value (left_value t), refl, inl (left_value t, refl)),
          λ _. (from_value (left_value t), refl, inl (left_value t, refl)),
          λ n h. absurd (n refl),
        )
  move_assign-kinds true w this other (inr (d, f)) (inl (t, g)) =
      rw (f, g)
        (
          λ _. (from_value (left_value t), refl, inl (left_value t, refl)),
          λ _. (from_value (left_value t), refl, inl (left_value t, refl)),
          λ n h. absurd (false≢true (sym h)),
        )
  move_assign-kinds false w this other (inl (s, f)) (inl (t, g)) =
      rw (f, g)
        (
          λ _. (from_value (left_value t), refl, inl (left_value t, refl)),
          λ _. (from_value (left_value t), refl, inl (left_value t, refl)),
          λ n h. absurd (n refl),
        )
  move_assign-kinds false w this other (inr (d, f)) (inl (t, g)) =
      rw (f, g) (λ k. absurd (false≢true k), λ h. absurd (false≢true h), λ n h. refl)
  move_assign-kinds v true this other (inr (d, f)) (inr (e, g)) =
      rw (f, g)
        (
          λ _. (from_error (left_error e), refl, inr (left_error e, refl)),
          λ _. (from_error (left_error e), refl, inr (left_error e, refl)),
          λ n h. absurd (n refl),
        )
  move_assign-kinds v true this other (inl (s, f)) (inr (e, g)) =
      rw (f, g)
        (
          λ _. (from_error (left_error e), refl, inr (left_error e, refl)),
          λ _. (from_error (left_error e), refl, inr (left_error e, refl)),
          λ n h. absurd (false≢true (sym h)),
        )
  move_assign-kinds v false this other (inr (d, f)) (inr (e, g)) =
      rw (f, g)
        (
          λ _. (from_error (left_error e), refl, inr (left_error e, refl)),
          λ _. (from_error (left_error e), refl, inr (left_error e, refl)),
          λ n h. absurd (n refl),
        )
  move_assign-kinds v false this other (inl (s, f)) (inr (e, g)) =
      rw (f, g) (λ k. absurd (false≢true (sym k)), λ h. absurd (false≢true h), λ n h. refl)

destroyed_value {ℓ κ} :
    {T : Type ℓ} {E : Type κ} (v : Bool) (t : T)
    → let d : Run (Slot T E) = destroy_value v (value t) in d ≡ returns raw
unfolding destroy_value
destroyed_value true t = refl
destroyed_value false t = refl

destroyed_error {ℓ κ} :
    {T : Type ℓ} {E : Type κ} (w : Bool) (e : E)
    → let d : Run (Slot T E) = destroy_error w (error e) in d ≡ returns raw
unfolding destroy_error
destroyed_error true e = refl
destroyed_error false e = refl

module _ {ℓ κ} {T : Type ℓ} {E : Type κ} where
  -- On a sound result `unwrap` gives the value or aborts, `value_or` gives the value or the default,
  -- and the destructor is defined.
  access_defined :
      (v w : Bool) (r : Result T E) (d : T)
      → IsSound r
      → ((t : T) × (r ≡ from_value t)
          × (unwrap r ≡ returns t)
          × (value_or d r ≡ returns t)
          × (destroy v w r ≡ returns raw))
        ⊎ ((e : E) × (r ≡ from_error e)
            × (unwrap r ≡ aborts)
            × (unwrap_err r ≡ returns e)
            × (value_or d r ≡ returns d)
            × (destroy v w r ≡ returns raw))
  unfolding unwrap unwrap_err value_or destroy destroy_value destroy_error from_value from_error
  access_defined v w r d (inl (t, f)) = inl (t, f, rw f refl, rw f refl, rw f (destroyed_value v t))
  access_defined v w r d (inr (e, f)) =
      inr (e, f, rw f refl, rw f refl, rw f refl, rw f (destroyed_error w e))

-- A `Result<void, E>` can be moved exactly if it is an error: the move construction of a success
-- reads an E that was never made.
void_move_construct-defined {κ} :
    {E : Type κ} (left_error : E → E) (e : E)
    → (void_move_construct left_error (void_error e)
        ≡ returns (void_error e, void_error (left_error e)))
      × (void_move_construct left_error void_ok ≡ undefined)
unfolding void_move_construct void_error void_ok
void_move_construct-defined left_error e = (refl, refl)

-- The move assignment of a `Result<void, E>` is defined for an error, whatever is assigned to, and is
-- not for a success.
void_move_assign-defined {κ} :
    {E : Type κ} (left_error : E → E) (e : E) (this : Result (Unit {0}) E)
    → (void_move_assign left_error this (void_error e)
        ≡ returns (void_error e, void_error (left_error e)))
      × (void_move_assign left_error this void_ok ≡ undefined)
unfolding void_move_assign void_ok void_error
void_move_assign-defined left_error e this = (refl, refl)
