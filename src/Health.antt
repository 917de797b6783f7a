-- ===== src/Health.antt =====
-- routers/health.py. `SELECT 1` and PING are commands of the database and of Redis that only answer.
pub mod Readiness
use fastapi_task_api.Base.{
  Result, ok, err, Error, http_exception, database_error, redis_error, Exec, [],
}
use fastapi_task_api.Database.{Database, execute}
use fastapi_task_api.Redis.{Redis, call}

-- Its `status` is always "ok".
pub data HealthResponse : Type 0 where
  healthy : HealthResponse

unfoldable pub check_liveness : Result HealthResponse
check_liveness = ok healthy

-- `except SQLAlchemyError`
abbrev pub or_database_unavailable {ℓ} :
    {S : Type ℓ} → Result (Unit {0}) × S → Result HealthResponse × S
or_database_unavailable (ok _, s) = (ok healthy, s)
or_database_unavailable (err database_error, s) =
    (err (http_exception 503 "Database unavailable" []), s)
or_database_unavailable (err e, s) = (err e, s)

-- `except RedisError`
abbrev pub or_redis_unavailable {ℓ} :
    {S : Type ℓ} → Result (Unit {0}) × S → Result HealthResponse × S
or_redis_unavailable (ok _, s) = (ok healthy, s)
or_redis_unavailable (err redis_error, s) = (err (http_exception 503 "Redis unavailable" []), s)
or_redis_unavailable (err e, s) = (err e, s)

unfoldable pub check_readiness : (database : Database) → Exec database.State HealthResponse
check_readiness database db = or_database_unavailable (execute database (λ db. (tt, db)) db)

unfoldable pub check_redis_health : (redis : Redis) → Exec redis.State HealthResponse
check_redis_health redis s = or_redis_unavailable (call redis (λ s. (tt, s)) s)
