-- ===== src/Health/Readiness.antt =====
-- routers/health.py: when the checks answer with 503.
use fastapi_task_api.Base.{
  ◌≡◌, refl, Bool, true, false, ok, err, http_exception, [], arith, if◌then◌else◌,
}
use fastapi_task_api.Database.{Database, execute}
use fastapi_task_api.Redis.{Redis, Fault, delivered, call}
use fastapi_task_api.Health.{healthy, check_liveness, check_readiness, check_redis_health}

abbrev pub is_delivered : Fault → Bool
is_delivered delivered = true
is_delivered _ = false

-- The liveness check always answers with success. The readiness check does while the database works,
-- and the check of Redis if its call is delivered; otherwise each answers with 503 and names what is
-- unavailable. The database is left as it was, and Redis as the call of the check found it.
pub checks_answer :
    (redis : Redis) (database : Database) (s : redis.State) (db : database.State)
    → (check_liveness ≡ ok healthy)
      × (check_readiness database db ≡ (
        if database.fails db
            then err (http_exception 503 "Database unavailable" [])
            else ok healthy,
        db,
      ))
      × (check_redis_health redis s ≡ (
        if is_delivered (redis.fault s)
            then ok healthy
            else err (http_exception 503 "Redis unavailable" []),
        redis.arrive s,
      ))
unfolding check_liveness check_readiness check_redis_health execute call
checks_answer redis database s db = (refl, ground arith, ground arith)
