-- ===== src/Jobs/Redis/Store.antt =====
-- What a Redis server holds: keys, values, and the effect of a command on them. Keys are a data type
-- with a constructor for each prefix that the code uses; the prefixes differ, and none is the
-- beginning of another, so two keys are equal only if prefix and rest are.
use Prim.Native.String.{compare}
use text.Mathlib.Text.{is_lt}
use arcana_cloud_go.Base.{
  All, Bool-cases, inl, inr, ℕ, ◌≡◌, refl, String, Bool, true, false, ◌&&◌, Option, none, some,
  List, [], ◌∷◌, leb, ltb, ◌==◌, ◌||◌, str_eq, if◌then◌else◌,
}
use arcana_cloud_go.Base.Int.{ℤ, ◌+ℤ◌}
use arcana_cloud_go.Jobs.Job.{Priority, low, normal, high, critical, unknown}

pub data Key : Type 0 where
  queue : Priority → Key  -- arcana:jobs:queue:
  job : String → Key  -- arcana:jobs:job:
  scheduled : Key
  unique : String → Key  -- arcana:jobs:unique:
  dlq : Key
  stats : Key
  lock : String → Key  -- arcana:jobs:lock:
  running_jobs : Key
  idempotency : String → Key  -- arcana:jobs:idempotency:
  worker_jobs : String → Key  -- arcana:jobs:worker:
  leader : Key  -- arcana:jobs:scheduler:leader
  cron_execution : String → String → Key  -- arcana:jobs:cron:execution: job and window
  cron_singleton : String → Key  -- arcana:jobs:cron:lock:singleton:

abbrev pub same_priority : Priority → Priority → Bool
same_priority low low = true
same_priority normal normal = true
same_priority high high = true
same_priority critical critical = true
same_priority unknown unknown = true
same_priority _ _ = false

pub same_priority_refl : (p : Priority) → same_priority p p ≡ true
same_priority_refl low = refl
same_priority_refl normal = refl
same_priority_refl high = refl
same_priority_refl critical = refl
same_priority_refl unknown = refl

pub same_priority_eq : (p q : Priority) → same_priority p q ≡ true → p ≡ q
same_priority_eq low low e = refl
same_priority_eq normal normal e = refl
same_priority_eq high high e = refl
same_priority_eq critical critical e = refl
same_priority_eq unknown unknown e = refl
same_priority_eq _ _ e = cc

abbrev pub same_key : Key → Key → Bool
same_key (queue p) (queue q) = same_priority p q
same_key (job i) (job j) = str_eq i j
same_key scheduled scheduled = true
same_key (unique i) (unique j) = str_eq i j
same_key dlq dlq = true
same_key stats stats = true
same_key (lock i) (lock j) = str_eq i j
same_key running_jobs running_jobs = true
same_key (idempotency i) (idempotency j) = str_eq i j
same_key (worker_jobs i) (worker_jobs j) = str_eq i j
same_key leader leader = true
same_key (cron_execution i w) (cron_execution j v) = str_eq i j && str_eq w v
same_key (cron_singleton i) (cron_singleton j) = str_eq i j
same_key _ _ = false

-- A string value: a serialized job, a text, or the text "<owner>:<time>", whose owner is a UUID or a
-- job's id and whose time is decimal.
pub data Value (D : Type 0) : Type 0 where
  blob : D → Value D
  plain : String → Value D
  stamped : String → ℕ → Value D

pub record Entry (D : Type 0) : Type 0 where
  pub value : Value D
  pub ttl : ℕ

-- What the server holds: strings, lists with the left end first, sorted sets, counters, hashes and sets.
pub record Db (D : Type 0) : Type 0 where
  pub strings : Key → Option (Entry D)
  pub lists : Key → List String
  pub zsets : Key → List (String × ℕ)
  pub counters : Key → String → ℤ
  pub hashes : Key → List (String × Value D)
  pub sets : Key → List String

module _ {V : Type 0} where
  abbrev pub update : (Key → V) → Key → V → Key → V
  update f k v j = if same_key k j then v else f j

  -- The entries of other members.
  abbrev pub without : String → List (String × V) → List (String × V)
  without m [] = []
  without m ((j, v) ∷ l) = let rest = without m l in if str_eq j m then rest else (j, v) ∷ rest

pub without-None :
    {V : Type 0} (m : String) (l : List (String × V))
    → All (λ e. str_eq e.0 m ≡ false) (without m l)
without-None m [] = tt
without-None m ((x, v) ∷ l) = elim (Bool-cases (str_eq x m)) [
  | inl same ↦ rw same (without-None m l)
  | inr other ↦ rw other (other, without-None m l)
]

abbrev pub is_some : {A : Type 0} → Option A → Bool
is_some none = false
is_some (some a) = true

-- The right end of a list, which RPOP takes.
abbrev pub last? : List String → Option String
last? [] = none
last? (x ∷ []) = some x
last? (x ∷ y ∷ l) = last? (y ∷ l)

abbrev pub drop_last : List String → List String
drop_last [] = []
drop_last (x ∷ []) = []
drop_last (x ∷ y ∷ l) = x ∷ drop_last (y ∷ l)

-- LREM key 0 m, and LREM key 1 m.
abbrev pub remove_all : String → List String → List String
remove_all m [] = []
remove_all m (x ∷ l) = let rest = remove_all m l in if str_eq x m then rest else x ∷ rest

abbrev pub remove_first : String → List String → List String
remove_first m [] = []
remove_first m (x ∷ l) = if str_eq x m then l else x ∷ remove_first m l

-- A sorted set is ordered by score, and by member where scores are equal.
abbrev pub goes_before : String × ℕ → String × ℕ → Bool
goes_before (m, a) (n, b) = ltb a b || (a == b && is_lt (compare m n))

abbrev pub insert_scored : String × ℕ → List (String × ℕ) → List (String × ℕ)
insert_scored e [] = e ∷ []
insert_scored e (x ∷ l) = if goes_before e x then e ∷ x ∷ l else x ∷ insert_scored e l

-- The members with a score of at most `max`.
abbrev pub up_to : ℕ → List (String × ℕ) → List String
up_to max [] = []
up_to max ((m, score) ∷ l) = let rest = up_to max l in if leb score max then m ∷ rest else rest

module _ {D : Type 0} where
  abbrev pub put : Key → Value D → ℕ → Db D → Db D
  put k v ttl d = record d { strings = update d.strings k (some (record { value = v; ttl = ttl })) }

  abbrev pub erase : Key → Db D → Db D
  erase k d = record d { strings = update d.strings k none }

  abbrev pub read : Key → Db D → Option (Value D)
  read k d = elim (d.strings k) [ none ↦ none | some e ↦ some e.value ]

  abbrev pub set_list : Key → List String → Db D → Db D
  set_list k l d = record d { lists = update d.lists k l }

  abbrev pub push : Key → String → Db D → Db D
  push k m d = set_list k (m ∷ d.lists k) d

  abbrev pub set_zset : Key → List (String × ℕ) → Db D → Db D
  set_zset k z d = record d { zsets = update d.zsets k z }

  abbrev pub add_scored : Key → String → ℕ → Db D → Db D
  add_scored k m score d = set_zset k (insert_scored (m, score) (without m (d.zsets k))) d

  abbrev pub count : Key → String → ℤ → Db D → Db D
  count k f by d = record d {
    counters =
        update d.counters k (λ g. if str_eq f g then d.counters k f +ℤ by else d.counters k g);
  }

  abbrev pub set_hash : Key → List (String × Value D) → Db D → Db D
  set_hash k h d = record d { hashes = update d.hashes k h }

  abbrev pub set_field : Key → String → Value D → Db D → Db D
  set_field k f v d = set_hash k ((f, v) ∷ without f (d.hashes k)) d

  abbrev pub set_set : Key → List String → Db D → Db D
  set_set k m d = record d { sets = update d.sets k m }

  -- EXPIRE and PEXPIRE
  abbrev pub touch : Key → ℕ → Db D → Db D
  touch k ttl d = elim (d.strings k) [ none ↦ d | some e ↦ put k e.value ttl d ]

  -- Whether the key's value is the given text, or a text with the given owner before the colon.
  abbrev pub is_text : String → Option (Entry D) → Bool
  is_text s none = false
  is_text s (some e) = elim e.value [ plain t ↦ str_eq t s | _ ↦ false ]

  abbrev pub is_owned : String → Option (Entry D) → Bool
  is_owned w none = false
  is_owned w (some e) = elim e.value [ stamped v t ↦ str_eq v w | _ ↦ false ]
