-- ===== src/Examples/Server.antt =====
-- A Redis server that answers every command. Its state is what it holds; a job is stored as it is.
use arcana_cloud_go.Base.{not, none, some, [], ◌∷◌, if◌then◌else◌, refl}
use arcana_cloud_go.Base.Int.{pos}
use arcana_cloud_go.Action.{Command}
use arcana_cloud_go.Jobs.Job.{JobPayload}
use arcana_cloud_go.Jobs.Redis.{
  Redis, IsUp, Db, put, erase, read, push, set_list, set_zset, without, remove_all, remove_first,
  is_some, last?, drop_last, up_to, add_scored, count, set_field, set_hash, set_set, touch,
  is_owned, is_text,
}

abbrev answered :
    {A : Type 0} → (Db JobPayload → A) → (Db JobPayload → Db JobPayload) → Command (Db JobPayload) A
answered reply effect d = (some (reply d), effect d)

abbrev pub ideal : Redis JobPayload
ideal = record {
  State = Db JobPayload;
  exists = λ k. answered (λ d. is_some (d.strings k)) (λ d. d);
  get = λ k. answered (read k) (λ d. d);
  set = λ k v ttl. answered (λ d. tt) (put k v ttl);
  setnx = λ k v ttl.
      answered (λ d. not (is_some (d.strings k)))
        (λ d. if is_some (d.strings k) then d else put k v ttl d);
  del = λ k. answered (λ d. tt) (erase k);
  lpush = λ k m. answered (λ d. tt) (push k m);
  rpop = λ k. answered (λ d. last? (d.lists k)) (λ d. set_list k (drop_last (d.lists k)) d);
  lrem_all = λ k m. answered (λ d. tt) (λ d. set_list k (remove_all m (d.lists k)) d);
  lrem_first = λ k m. answered (λ d. tt) (λ d. set_list k (remove_first m (d.lists k)) d);
  zadd = λ k n m. answered (λ d. tt) (add_scored k m n);
  zrem = λ k m. answered (λ d. tt) (λ d. set_zset k (without m (d.zsets k)) d);
  zrange_by_score = λ k n. answered (λ d. up_to n (d.zsets k)) (λ d. d);
  hincrby = λ k f n. answered (λ d. tt) (count k f n);
  hset = λ k f v. answered (λ d. tt) (set_field k f v);
  hdel = λ k f. answered (λ d. tt) (λ d. set_hash k (without f (d.hashes k)) d);
  hgetall = λ k. answered (λ d. d.hashes k) (λ d. d);
  sadd = λ k m. answered (λ d. tt) (λ d. set_set k (m ∷ remove_all m (d.sets k)) d);
  srem = λ k m. answered (λ d. tt) (λ d. set_set k (remove_all m (d.sets k)) d);
  expire = λ k ttl. answered (λ d. tt) (touch k ttl);
  del_if_owner = λ k w.
      answered (λ d. is_owned w (d.strings k))
        (λ d. if is_owned w (d.strings k) then erase k d else d);
  expire_if_owner = λ k w ttl.
      answered (λ d. is_owned w (d.strings k))
        (λ d. if is_owned w (d.strings k) then touch k ttl d else d);
  del_if_text = λ k t.
      answered (λ d. is_text t (d.strings k))
        (λ d. if is_text t (d.strings k) then erase k d else d);
}

abbrev pub same : Db JobPayload → Db JobPayload
same d = d

abbrev pub ideal-IsUp : IsUp ideal same
ideal-IsUp = record {
  exists_reply = λ k s. refl;
  exists_leaves = λ k s. refl;
  get_reply = λ k s. refl;
  get_leaves = λ k s. refl;
  set_reply = λ k v ttl s. refl;
  set_leaves = λ k v ttl s. refl;
  setnx_reply = λ k v ttl s. refl;
  setnx_leaves = λ k v ttl s. refl;
  del_reply = λ k s. refl;
  del_leaves = λ k s. refl;
  lpush_reply = λ k m s. refl;
  lpush_leaves = λ k m s. refl;
  rpop_reply = λ k s. refl;
  rpop_leaves = λ k s. refl;
  lrem_all_reply = λ k m s. refl;
  lrem_all_leaves = λ k m s. refl;
  lrem_first_reply = λ k m s. refl;
  lrem_first_leaves = λ k m s. refl;
  zadd_reply = λ k n m s. refl;
  zadd_leaves = λ k n m s. refl;
  zrem_reply = λ k m s. refl;
  zrem_leaves = λ k m s. refl;
  zrange_reply = λ k n s. refl;
  zrange_leaves = λ k n s. refl;
  hincrby_reply = λ k f n s. refl;
  hincrby_leaves = λ k f n s. refl;
  hset_reply = λ k f v s. refl;
  hset_leaves = λ k f v s. refl;
  hdel_reply = λ k f s. refl;
  hdel_leaves = λ k f s. refl;
  hgetall_reply = λ k s. refl;
  hgetall_leaves = λ k s. refl;
  sadd_reply = λ k m s. refl;
  sadd_leaves = λ k m s. refl;
  srem_reply = λ k m s. refl;
  srem_leaves = λ k m s. refl;
  expire_reply = λ k ttl s. refl;
  expire_leaves = λ k ttl s. refl;
  del_if_owner_reply = λ k w s. refl;
  del_if_owner_leaves = λ k w s. refl;
  expire_if_owner_reply = λ k w ttl s. refl;
  expire_if_owner_leaves = λ k w ttl s. refl;
  del_if_text_reply = λ k t s. refl;
  del_if_text_leaves = λ k t s. refl;
}

abbrev pub empty : Db JobPayload
empty = record {
  strings = λ k. none;
  lists = λ k. [];
  zsets = λ k. [];
  counters = λ k f. pos 0;
  hashes = λ k. [];
  sets = λ k. [];
}
