-- ===== src/RedisPool/Factory.antt =====
-- RedisHealthChecker.cpp, RedisConnectionFactory.cpp, and `delete` on the model's heap.
use backend_common_component.Prelude.{suc, none, some, ◌∷◌}
use backend_common_component.Objects.{Heap, Ptr, delete}
use backend_common_component.RedisPool.Types.{
  HealthStatus, healthy, unhealthy, unknown, Ping, pong, other_reply, throws, Attempt, refused,
  connected,
}

-- `RedisHealthChecker::check`, given what `ping` does.
unfoldable pub check : Ptr → Ping → HealthStatus
check none _ = unhealthy
check (some c) pong = healthy
check (some c) throws = unhealthy
check (some c) other_reply = unknown

-- `RedisConnectionFactory::create_connection`: an object that fails its first check is deleted, and
-- an exception of redis-plus-plus becomes null.
unfoldable pub factory_create : Attempt → Heap → Ptr × Heap
unfolding check delete
factory_create refused h = (none, record h { tries = suc h.tries })
factory_create (connected ping) h =
    let conn = h.tries in
    let made : Heap = record h { tries = suc conn; live = conn ∷ h.live } in
    elim (check (some conn) ping) [ healthy ↦ (some conn, made) | _ ↦ (none, delete conn made) ]
