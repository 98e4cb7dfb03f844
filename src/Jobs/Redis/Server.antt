-- ===== src/Jobs/Redis/Server.antt =====
-- The Redis server that internal/jobs talks to. It is not part of the repository: a server is a record
-- of the commands that the code calls, and what the code relies on is the documented effect of a
-- command that is answered, on what the server holds. The scripts that the code sends by EVAL are
-- commands too: `del_if_owner` and `expire_if_owner` run those of internal/jobs/lock, which look for
-- "<worker>:" in the value, and since workers are UUIDs, of one length and with no colon, that is a
-- test of the owner; `del_if_text` runs that of internal/jobs/scheduler.
use arcana_cloud_go.Base.{ℕ, ◌≡◌, String, Bool, not, Option, some, List, ◌∷◌, if◌then◌else◌}
use arcana_cloud_go.Base.Int.{ℤ}
use arcana_cloud_go.Jobs.Exec.{Command}
use arcana_cloud_go.Jobs.Redis.Store.{
  Key, Value, Db, is_some, last?, drop_last, remove_all, remove_first, up_to, without, put, erase,
  read, set_list, push, set_zset, add_scored, count, set_hash, set_field, set_set, touch, is_text,
  is_owned,
}

pub record Redis (D : Type 0) : Type 1 where
  pub State : Type 0
  pub exists : Key → Command State Bool
  pub get : Key → Command State (Option (Value D))
  pub set : Key → Value D → ℕ → Command State (Unit {0})
  pub setnx : Key → Value D → ℕ → Command State Bool
  pub del : Key → Command State (Unit {0})
  pub lpush : Key → String → Command State (Unit {0})
  pub rpop : Key → Command State (Option String)
  pub lrem_all : Key → String → Command State (Unit {0})
  pub lrem_first : Key → String → Command State (Unit {0})
  pub zadd : Key → ℕ → String → Command State (Unit {0})
  pub zrem : Key → String → Command State (Unit {0})
  pub zrange_by_score : Key → ℕ → Command State (List String)
  pub hincrby : Key → String → ℤ → Command State (Unit {0})
  pub hset : Key → String → Value D → Command State (Unit {0})
  pub hdel : Key → String → Command State (Unit {0})
  pub hgetall : Key → Command State (List (String × Value D))
  pub sadd : Key → String → Command State (Unit {0})
  pub srem : Key → String → Command State (Unit {0})
  pub expire : Key → ℕ → Command State (Unit {0})
  pub del_if_owner : Key → String → Command State Bool
  pub expire_if_owner : Key → String → ℕ → Command State Bool
  pub del_if_text : Key → String → Command State Bool

module _ {D : Type 0} (r : Redis D) (contents : r.State → Db D) where
  -- A command that is answered so, and leaves this.
  abbrev pub Replies : {A : Type 0} → Command r.State A → (Db D → A) → Type 0
  Replies c reply = (s : r.State) → (c s).0 ≡ some (reply (contents s))

  abbrev pub Leaves : {A : Type 0} → Command r.State A → (Db D → Db D) → Type 0
  Leaves c effect = (s : r.State) → contents (c s).1 ≡ effect (contents s)

  -- Every command is answered, with the effect that the Redis documentation states.
  pub record IsUp : Type 0 where
    pub exists_reply : (k : Key) → Replies (r.exists k) (λ d. is_some (d.strings k))
    pub exists_leaves : (k : Key) → Leaves (r.exists k) (λ d. d)
    pub get_reply : (k : Key) → Replies (r.get k) (read k)
    pub get_leaves : (k : Key) → Leaves (r.get k) (λ d. d)
    pub set_reply : (k : Key) (v : Value D) (ttl : ℕ) → Replies (r.set k v ttl) (λ d. tt)
    pub set_leaves : (k : Key) (v : Value D) (ttl : ℕ) → Leaves (r.set k v ttl) (put k v ttl)
    pub setnx_reply :
        (k : Key) (v : Value D) (ttl : ℕ)
        → Replies (r.setnx k v ttl) (λ d. not (is_some (d.strings k)))
    pub setnx_leaves :
        (k : Key) (v : Value D) (ttl : ℕ)
        → Leaves (r.setnx k v ttl) (λ d. if is_some (d.strings k) then d else put k v ttl d)
    pub del_reply : (k : Key) → Replies (r.del k) (λ d. tt)
    pub del_leaves : (k : Key) → Leaves (r.del k) (erase k)
    pub lpush_reply : (k : Key) (m : String) → Replies (r.lpush k m) (λ d. tt)
    pub lpush_leaves : (k : Key) (m : String) → Leaves (r.lpush k m) (push k m)
    pub rpop_reply : (k : Key) → Replies (r.rpop k) (λ d. last? (d.lists k))
    pub rpop_leaves : (k : Key) → Leaves (r.rpop k) (λ d. set_list k (drop_last (d.lists k)) d)
    pub lrem_all_reply : (k : Key) (m : String) → Replies (r.lrem_all k m) (λ d. tt)
    pub lrem_all_leaves :
        (k : Key) (m : String)
        → Leaves (r.lrem_all k m) (λ d. set_list k (remove_all m (d.lists k)) d)
    pub lrem_first_reply : (k : Key) (m : String) → Replies (r.lrem_first k m) (λ d. tt)
    pub lrem_first_leaves :
        (k : Key) (m : String)
        → Leaves (r.lrem_first k m) (λ d. set_list k (remove_first m (d.lists k)) d)
    pub zadd_reply : (k : Key) (n : ℕ) (m : String) → Replies (r.zadd k n m) (λ d. tt)
    pub zadd_leaves : (k : Key) (n : ℕ) (m : String) → Leaves (r.zadd k n m) (add_scored k m n)
    pub zrem_reply : (k : Key) (m : String) → Replies (r.zrem k m) (λ d. tt)
    pub zrem_leaves :
        (k : Key) (m : String) → Leaves (r.zrem k m) (λ d. set_zset k (without m (d.zsets k)) d)
    pub zrange_reply :
        (k : Key) (n : ℕ) → Replies (r.zrange_by_score k n) (λ d. up_to n (d.zsets k))
    pub zrange_leaves : (k : Key) (n : ℕ) → Leaves (r.zrange_by_score k n) (λ d. d)
    pub hincrby_reply : (k : Key) (f : String) (n : ℤ) → Replies (r.hincrby k f n) (λ d. tt)
    pub hincrby_leaves : (k : Key) (f : String) (n : ℤ) → Leaves (r.hincrby k f n) (count k f n)
    pub hset_reply : (k : Key) (f : String) (v : Value D) → Replies (r.hset k f v) (λ d. tt)
    pub hset_leaves : (k : Key) (f : String) (v : Value D) → Leaves (r.hset k f v) (set_field k f v)
    pub hdel_reply : (k : Key) (f : String) → Replies (r.hdel k f) (λ d. tt)
    pub hdel_leaves :
        (k : Key) (f : String) → Leaves (r.hdel k f) (λ d. set_hash k (without f (d.hashes k)) d)
    pub hgetall_reply : (k : Key) → Replies (r.hgetall k) (λ d. d.hashes k)
    pub hgetall_leaves : (k : Key) → Leaves (r.hgetall k) (λ d. d)
    pub sadd_reply : (k : Key) (m : String) → Replies (r.sadd k m) (λ d. tt)
    pub sadd_leaves :
        (k : Key) (m : String)
        → Leaves (r.sadd k m) (λ d. set_set k (m ∷ remove_all m (d.sets k)) d)
    pub srem_reply : (k : Key) (m : String) → Replies (r.srem k m) (λ d. tt)
    pub srem_leaves :
        (k : Key) (m : String) → Leaves (r.srem k m) (λ d. set_set k (remove_all m (d.sets k)) d)
    pub expire_reply : (k : Key) (ttl : ℕ) → Replies (r.expire k ttl) (λ d. tt)
    pub expire_leaves : (k : Key) (ttl : ℕ) → Leaves (r.expire k ttl) (touch k ttl)
    pub del_if_owner_reply :
        (k : Key) (w : String) → Replies (r.del_if_owner k w) (λ d. is_owned w (d.strings k))
    pub del_if_owner_leaves :
        (k : Key) (w : String)
        → Leaves (r.del_if_owner k w) (λ d. if is_owned w (d.strings k) then erase k d else d)
    pub expire_if_owner_reply :
        (k : Key) (w : String) (ttl : ℕ)
        → Replies (r.expire_if_owner k w ttl) (λ d. is_owned w (d.strings k))
    pub expire_if_owner_leaves :
        (k : Key) (w : String) (ttl : ℕ)
        → Leaves
            (r.expire_if_owner k w ttl)
            (λ d. if is_owned w (d.strings k) then touch k ttl d else d)
    pub del_if_text_reply :
        (k : Key) (s : String) → Replies (r.del_if_text k s) (λ d. is_text s (d.strings k))
    pub del_if_text_leaves :
        (k : Key) (s : String)
        → Leaves (r.del_if_text k s) (λ d. if is_text s (d.strings k) then erase k d else d)
