-- ===== src/DbPool/Registry.antt =====
-- The instances by database type: `instance` and `destroy_instance` of
-- database-connection-pool/src/ConnectionPool.cpp, and DatabaseType.h.
use backend_common_component.Prelude.{
  ℕ, ◌≡◌, refl, ap, Bool, true, false, Option, some, none, List, [], ◌∷◌, ◌==◌, if◌then◌else◌,
  arith,
}
use backend_common_component.DbPool.Pool.{Pool, shutdown}
use backend_common_component.DbPool.System.{constructed}

pub data DatabaseType : Type 0 where
  mysql sqlite postgre_sql oracle sql_server : DatabaseType

abbrev ordinal : DatabaseType → ℕ
ordinal mysql = 0
ordinal sqlite = 1
ordinal postgre_sql = 2
ordinal oracle = 3
ordinal sql_server = 4

-- `s_instances`. A key that stands in it once is removed wherever it stands.
abbrev Instances : Type 0
Instances = List (DatabaseType × Pool)

unfoldable find : DatabaseType → Instances → Option Pool
find type [] = none
find type ((key, pool) ∷ rest) = if ordinal key == ordinal type then some pool else find type rest

unfoldable erase : DatabaseType → Instances → Instances
erase type [] = []
erase type ((key, pool) ∷ rest) =
    let others = erase type rest in
    if ordinal key == ordinal type then others else (key, pool) ∷ others

unfoldable or_new : ℕ → DatabaseType → Instances → Option Pool → Pool × Instances
or_new hardware_threads type pools (some pool) = (pool, pools)
or_new hardware_threads type pools none =
    (constructed hardware_threads, (type, constructed hardware_threads) ∷ pools)

-- `instance`. A pool is constructed for each type; only that of MySQL has a factory.
unfoldable instance_of : ℕ → DatabaseType → Instances → Pool × Instances
unfolding or_new
instance_of hardware_threads type pools = or_new hardware_threads type pools (find type pools)

unfoldable after_shutdown : DatabaseType → Instances → Option Pool → Option Pool × Instances
unfolding erase shutdown
after_shutdown type pools (some pool) = (some (shutdown pool), erase type pools)
after_shutdown type pools none = (none, pools)

-- `destroy_instance`, with the pool as it is when it is deleted.
unfoldable destroy_instance : DatabaseType → Instances → Option Pool × Instances
unfolding after_shutdown
destroy_instance type pools = after_shutdown type pools (find type pools)

-- A type that was erased is not found.
find-erase_keep :
    (type key : DatabaseType) (pool : Pool) (others : Instances) (b : Bool)
    → (ordinal key == ordinal type) ≡ b
    → find type others ≡ none
    → find type (if b then others else ((key, pool) ∷ others)) ≡ none
unfolding find
find-erase_keep type key pool others true e absent = absent
find-erase_keep type key pool others false e absent = rw e absent

find-erase : (type : DatabaseType) (pools : Instances) → find type (erase type pools) ≡ none
unfolding find erase
find-erase type [] = refl
find-erase type ((key, pool) ∷ rest) =
    find-erase_keep type key pool (erase type rest) (ordinal key == ordinal type) refl
      (find-erase type rest)

-- A second call for a type finds what the first one gave, and constructs nothing.
or_new-again :
    (n : ℕ) (type : DatabaseType) (pools : Instances) (found : Option Pool)
    → find type pools ≡ found
    → instance_of n type ((or_new n type pools found).1) ≡ or_new n type pools found
unfolding instance_of or_new find
or_new-again n type pools (some pool) e = ap (or_new n type pools) e
or_new-again n type pools none e = ground arith

instance_of-again :
    (n : ℕ) (type : DatabaseType) (pools : Instances)
    → instance_of n type ((instance_of n type pools).1) ≡ instance_of n type pools
unfolding instance_of
instance_of-again n type pools = or_new-again n type pools (find type pools) refl

-- After `destroy_instance` the next call constructs a pool, whether or not there was one.
after_shutdown-fresh :
    (n : ℕ) (type : DatabaseType) (pools : Instances) (found : Option Pool)
    → find type pools ≡ found
    → (instance_of n type ((after_shutdown type pools found).1)).0 ≡ constructed n
unfolding instance_of or_new after_shutdown
after_shutdown-fresh n type pools (some pool) e = rw (find-erase type pools) refl
after_shutdown-fresh n type pools none e = rw e refl

destroy_instance-fresh :
    (n : ℕ) (type : DatabaseType) (pools : Instances)
    → (instance_of n type ((destroy_instance type pools).1)).0 ≡ constructed n
unfolding destroy_instance
destroy_instance-fresh n type pools = after_shutdown-fresh n type pools (find type pools) refl
