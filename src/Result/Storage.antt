-- ===== src/Result/Storage.antt =====
-- result.h: `Result<T, E>` and `Result<void, E>` over their raw storage. An object of another kind
-- than the code assumes in `m_buf`, or none, is undefined behaviour.
use backend_common_component.Prelude.{Bool, true, false, not, if◌then◌else◌}

-- What stands in `m_buf`: nothing, a T or an E.
pub data Slot {ℓ κ} (T : Type ℓ) (E : Type κ) : Type (ℓ ⊔ κ) where
  raw : Slot T E
  value : T → Slot T E
  error : E → Slot T E

pub record Result {ℓ κ} (T : Type ℓ) (E : Type κ) : Type (ℓ ⊔ κ) where
  pub m_ok : Bool
  pub m_buf : Slot T E

-- How an operation ends: with a value, by `std::abort`, or with no defined result.
pub data Run {ℓ} (A : Type ℓ) : Type ℓ where
  returns : A → Run A
  aborts : Run A
  undefined : Run A

infixl 5 ◌>>=◌
abbrev pub ◌>>=◌ {ℓ κ} : {A : Type ℓ} {B : Type κ} → Run A → (A → Run B) → Run B
returns a >>= f = f a
aborts >>= f = aborts
undefined >>= f = undefined

module _ {ℓ κ} {T : Type ℓ} {E : Type κ} where
  -- `*reinterpret_cast<T*>(&m_buf)`, and the same for E.
  abbrev pub as_value : Slot T E → Run T
  as_value raw = undefined
  as_value (value t) = returns t
  as_value (error e) = undefined

  abbrev pub as_error : Slot T E → Run E
  as_error raw = undefined
  as_error (value t) = undefined
  as_error (error e) = returns e

  -- The constructors from a value and from an error.
  unfoldable pub from_value : T → Result T E
  from_value t = record { m_ok = true; m_buf = value t }

  unfoldable pub from_error : E → Result T E
  from_error e = record { m_ok = false; m_buf = error e }

  unfoldable pub is_ok : Result T E → Bool
  is_ok r = r.m_ok

  unfoldable pub is_err : Result T E → Bool
  unfolding is_ok
  is_err r = not (is_ok r)

  -- `operator bool`.
  unfoldable pub to_bool : Result T E → Bool
  unfolding is_ok
  to_bool r = is_ok r

  unfoldable pub unwrap : Result T E → Run T
  unwrap r = if not r.m_ok then aborts else as_value r.m_buf

  -- `operator*` calls `unwrap`, and `operator->` reads in the same way.
  unfoldable pub dereference : Result T E → Run T
  unfolding unwrap
  dereference r = unwrap r

  unfoldable pub arrow : Result T E → Run T
  arrow r = if not r.m_ok then aborts else as_value r.m_buf

  unfoldable pub unwrap_err : Result T E → Run E
  unwrap_err r = as_error r.m_buf

  unfoldable pub value_or : T → Result T E → Run T
  value_or t r = if r.m_ok then as_value r.m_buf else returns t

  -- The destructors of a T and an E in the storage. One that does nothing, as that of a number, is
  -- defined on any content.
  unfoldable pub destroy_value : Bool → Slot T E → Run (Slot T E)
  destroy_value trivial s = if trivial then returns raw else (as_value s >>= λ _. returns raw)

  unfoldable pub destroy_error : Bool → Slot T E → Run (Slot T E)
  destroy_error trivial s = if trivial then returns raw else (as_error s >>= λ _. returns raw)

  -- The destructor leaves raw storage; `value_trivial` and `error_trivial` say which of the two
  -- destructors do nothing.
  unfoldable pub destroy : Bool → Bool → Result T E → Run (Slot T E)
  unfolding destroy_value destroy_error
  destroy value_trivial error_trivial r =
      if r.m_ok then destroy_value value_trivial r.m_buf else destroy_error error_trivial r.m_buf

  -- What a move leaves in its source is a value of the same kind.
  module _ (left_value : T → T) (left_error : E → E) where
    -- `unwrap_move`, with what it leaves.
    unfoldable pub unwrap_move : Result T E → Run (T × Result T E)
    unwrap_move r =
        if not r.m_ok
        then aborts
        else (as_value r.m_buf >>= λ t. returns (t, record r { m_buf = value (left_value t) }))

    -- The move constructor: the new object and its source.
    unfoldable pub move_construct : Result T E → Run (Result T E × Result T E)
    move_construct other =
        if other.m_ok
        then (as_value other.m_buf >>= λ t. returns (
          record { m_ok = true; m_buf = value t },
          record other { m_buf = value (left_value t) },
        ))
        else (as_error other.m_buf >>= λ e. returns (
          record { m_ok = false; m_buf = error e },
          record other { m_buf = error (left_error e) },
        ))

    -- The move assignment between different objects: `m_ok` is set first, and then says as what the
    -- old content is destroyed.
    unfoldable pub move_assign :
        Bool → Bool → Result T E → Result T E → Run (Result T E × Result T E)
    unfolding destroy_value destroy_error
    move_assign value_trivial error_trivial this other =
        if other.m_ok
        then (destroy_value value_trivial this.m_buf >>= λ _. as_value other.m_buf >>= λ t.
            returns (
              record { m_ok = true; m_buf = value t },
              record other { m_buf = value (left_value t) },
            ))
        else (destroy_error error_trivial this.m_buf >>= λ _. as_error other.m_buf >>= λ e.
            returns (
              record { m_ok = false; m_buf = error e },
              record other { m_buf = error (left_error e) },
            ))

-- `Result<void, E>`: storage for an E alone.
module _ {κ} {E : Type κ} where
  unfoldable pub void_ok : Result (Unit {0}) E
  void_ok = record { m_ok = true; m_buf = raw }

  unfoldable pub void_error : E → Result (Unit {0}) E
  void_error e = record { m_ok = false; m_buf = error e }

  module _ (left_error : E → E) where
    -- The move constructor moves an E out of the source, whether there is one or not.
    unfoldable pub void_move_construct :
        Result (Unit {0}) E → Run (Result (Unit {0}) E × Result (Unit {0}) E)
    void_move_construct other = as_error other.m_buf >>= λ e. returns (
      record { m_ok = other.m_ok; m_buf = error e },
      record other { m_buf = error (left_error e) },
    )

    -- The move assignment between different objects makes the new error over the old content, which
    -- it does not destroy.
    unfoldable pub void_move_assign :
        Result (Unit {0}) E → Result (Unit {0}) E → Run (Result (Unit {0}) E × Result (Unit {0}) E)
    void_move_assign this other = as_error other.m_buf >>= λ e. returns (
      record this { m_ok = other.m_ok; m_buf = error e },
      record other { m_buf = error (left_error e) },
    )

  -- The destructor.
  unfoldable pub void_destroy : Result (Unit {0}) E → Run (Slot (Unit {0}) E)
  void_destroy r = if not r.m_ok then (as_error r.m_buf >>= λ _. returns raw) else returns r.m_buf

-- The macro `EF_TRY` in a function over a state `S`, before the code `rest` that uses its value. The
-- destructor of its `result` is left out.
unfoldable pub ef_try {ℓ κ μ ν} :
    {T : Type ℓ} {U : Type μ} {E : Type κ} {S : Type ν}
    → (T → T)
    → (E → E)
    → Run (Result T E × S)
    → (T → S → Run (Result U E × S))
    → Run (Result U E × S)
unfolding to_bool unwrap_err from_error unwrap_move
ef_try left_value left_error expr rest = expr >>= λ (result, s).
    if not (to_bool result)
    then (unwrap_err result >>= λ e. returns (from_error e, s))
    else (unwrap_move left_value left_error result >>= λ moved. rest moved.0 s)
