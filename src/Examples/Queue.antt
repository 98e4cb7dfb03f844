-- ===== src/Examples/Queue.antt =====
-- The job queue of internal/jobs/queue on a server that answers every command, at concrete jobs.
use arcana_cloud_go.Base.{◌≡◌, refl, none, some, [], ◌∷◌}
use arcana_cloud_go.Base.Int.{pos, negsuc, ◌+ℤ◌}
use arcana_cloud_go.Jobs.Exec.{ok, err, duplicate_job}
use arcana_cloud_go.Jobs.Job.{
  JobPayload, Scale, low, normal, high, critical, pending, default_retry_policy,
}
use arcana_cloud_go.Jobs.Redis.{Db, blob, queue, job, stats, put, read, push}
use arcana_cloud_go.Jobs.RedisQueue.{Codec, started, enqueue, dequeue}
use arcana_cloud_go.Jobs.RedisQueue.Enqueue.{enqueue_twice}
use arcana_cloud_go.Jobs.RedisQueue.Dequeue.{dequeue_oldest}
use arcana_cloud_go.Examples.Server.{ideal, ideal-IsUp, same, empty}

abbrev pub verbatim : Codec JobPayload
verbatim = record { marshal = λ j. some j; unmarshal = λ j. some j }

-- Due, of high priority, with a unique key.
abbrev pub mail : JobPayload
mail = record {
  id = "a";
  job_type = "mail";
  payload = "{}";
  priority = high;
  status = pending;
  attempts = 0;
  max_retries = 3;
  retry_policy = default_retry_policy;
  timeout = 300;
  scheduled_at = none;
  created_at = 100;
  started_at = none;
  completed_at = none;
  last_error = "";
  correlation_id = "";
  unique_key = "k";
  tags = [];
}

abbrev other : JobPayload
other = record mail { id = "b" }

-- On its last attempt.
abbrev last_try : JobPayload
last_try = record mail { attempts = 3 }

abbrev pub doubling : Scale
doubling initial multiplier attempt = initial

-- The server with a job in the queue of high priority, and with its record alone.
abbrev queued : Db JobPayload
queued = push (queue high) "a" (put (job "a") (blob mail) 1 empty)

abbrev stored : JobPayload → Db JobPayload
stored j = put (job "a") (blob j) 1 empty

enqueue_twice_example :
    let s' = (enqueue ideal verbatim 100 mail empty).1 in
    ((enqueue ideal verbatim 200 other s').0 ≡ err duplicate_job)
    × ((enqueue ideal verbatim 200 other s').1 ≡ s')
enqueue_twice_example =
    enqueue_twice ideal same ideal-IsUp verbatim 100 200 mail other mail empty refl refl refl refl

dequeue_oldest_example :
    let out = dequeue ideal verbatim 150 [] queued in
    (out.0 ≡ ok (started 150 mail))
    × (out.1.lists (queue high) ≡ [])
    × (read (job "a") out.1 ≡ some (blob (started 150 mail)))
    × (out.1.counters stats "pending" ≡ pos 0 +ℤ negsuc 0)
dequeue_oldest_example =
    dequeue_oldest ideal same ideal-IsUp verbatim 150 [] (critical ∷ []) high (normal ∷ low ∷ []) []
      "a" mail (started 150 mail) mail queued refl (refl, tt) refl refl refl refl
