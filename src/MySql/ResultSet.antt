-- ===== src/MySql/ResultSet.antt =====
-- MySQLResultSet.cpp: who deletes the driver's result sets. The reading of columns is the driver's.
use backend_common_component.Prelude.{Option, none, some, ◌≡◌, refl, ℕ}
use backend_common_component.Objects.{Heap, delete}

pub record ResultSet : Type 0 where
  pub res : Option ℕ

unfoldable pub construct : Option ℕ → ResultSet
construct res = record { res = res }

unfoldable pub destroy : ResultSet → Heap → Heap
destroy r h = elim r.res [ none ↦ h | some n ↦ delete n h ]

-- The move constructor: the new object, and `other`.
unfoldable pub move_construct : ResultSet → ResultSet × ResultSet
move_construct other = (other, record { res = none })

-- The move assignment between different objects; the result set that `this` has is not deleted.
unfoldable pub move_assign : ResultSet → ResultSet → ResultSet × ResultSet
move_assign this other = (other, record { res = none })

-- A result set that is moved is deleted once, by the destructors of both objects.
move_construct-destroy :
    (r : ResultSet) (h : Heap)
    → destroy (move_construct r).0 (destroy (move_construct r).1 h) ≡ destroy r h
unfolding move_construct destroy
move_construct-destroy r h = refl

-- After a move assignment the result set that was assigned over is never deleted.
move_assign-destroy :
    (this other : ResultSet) (h : Heap)
    → destroy (move_assign this other).0 (destroy (move_assign this other).1 h) ≡ destroy other h
unfolding move_assign destroy
move_assign-destroy this other h = refl
