-- ===== src/Config/Client.antt =====
-- internal/configserver/client.go. The server's answers to the requests that follow are a list, and so
-- are the results of one request: an error of the connection, a status, or a body.
use arcana_cloud_go.Base.{
  ℕ, zero, suc, ◌+◌, String, Bool, true, false, not, Option, none, some, List, [], ◌∷◌, ◌==◌,
  str_eq, if◌then◌else◌,
}
use arcana_cloud_go.Base.Int.{ℤ, pos, negsuc}
use arcana_cloud_go.Config.{
  Value, null, text, boolean, int, float, array, object, Fields, end, field, lookup, put, size,
}

pub record PropertySource : Type 0 where
  pub name : String
  pub source : Fields

pub data Answer : Type 0 where
  no_connection : Answer
  status : ℕ → Answer  -- other than 200
  undecodable : Answer
  sources : List PropertySource → Answer

-- What a call of the client comes to; `panicked` is the panic of a comparison.
pub data Outcome : Type 0 where
  fetched failed panicked : Outcome

pub record ConfigClient : Type 0 where
  pub retry_count : ℤ
  pub cache : Fields
  pub notified : List Fields  -- the configurations that listeners were called with, the latest first
  pub requests : ℕ  -- how many were sent

unfoldable pub copy_into : Fields → Fields → Fields
copy_into merged end = merged
copy_into merged (field k v rest) = copy_into (put k v merged) rest

-- From the last source to the first.
unfoldable pub merge_property_sources : List PropertySource → Fields
unfolding copy_into
merge_property_sources [] = end
merge_property_sources (s ∷ rest) = copy_into (merge_property_sources rest) s.source

unfoldable pub sent : ConfigClient → ConfigClient
sent c = record c { requests = c.requests + 1 }

-- for i := 0; i <= RetryCount; i++
unfoldable pub rounds : ℤ → ℕ
rounds (pos n) = suc n
rounds (negsuc n) = 0

unfoldable pub after_try :
    Outcome → Outcome × ConfigClient → Outcome × ConfigClient → Outcome × ConfigClient
after_try failed tried next = next
after_try fetched tried next = tried
after_try panicked tried next = tried

-- A round of a loop that a difference ends.
unfoldable pub decided : Option Bool → Option Bool → Option Bool
decided none later = none
decided (some true) later = later
decided (some false) later = some false

module _ (same_float : ℕ → ℕ → Bool) (same_int : ℤ → ℤ → Bool) where
  -- v == w on interface values. Values of one type that is a map or a slice cannot be compared: none.
  unfoldable pub same_value : Value → Value → Option Bool
  same_value (array l) (array m) = none
  same_value (object f) (object g) = none
  same_value null null = some true
  same_value (text s) (text t) = some (str_eq s t)
  same_value (boolean true) (boolean c) = some c
  same_value (boolean false) (boolean c) = some (not c)
  same_value (int n) (int m) = some (same_int n m)
  same_value (float n) (float m) = some (same_float n m)
  same_value v w = some false

  unfoldable pub same_entry : Option Value → Value → Option Bool
  unfolding same_value
  same_entry none v = some false
  same_entry (some w) v = same_value v w

  -- The loop of `configEqual`: the first difference ends it.
  unfoldable pub entries_equal : Fields → Fields → Option Bool
  unfolding same_entry decided
  entries_equal end b = some true
  entries_equal (field k v rest) b =
      let later = entries_equal rest b in decided (same_entry (lookup k b) v) later

  unfoldable pub config_equal : Fields → Fields → Option Bool
  unfolding entries_equal
  config_equal a b = if size a == size b then entries_equal a b else some false

  unfoldable pub noted : Option Bool → Fields → ConfigClient → Outcome × ConfigClient
  noted none config c = (panicked, c)
  noted (some true) config c = (fetched, c)
  noted (some false) config c = (fetched, record c { notified = config ∷ c.notified })

  -- The cache is replaced before the comparison.
  unfoldable pub update_cache : Fields → ConfigClient → Outcome × ConfigClient
  unfolding noted config_equal
  update_cache config c = noted (config_equal c.cache config) config (record c { cache = config })

  unfoldable pub fetch_config_once : Answer → ConfigClient → Outcome × ConfigClient
  unfolding update_cache
  fetch_config_once no_connection c = (failed, c)
  fetch_config_once (status n) c = (failed, c)
  fetch_config_once undecodable c = (failed, c)
  fetch_config_once (sources l) c = update_cache (merge_property_sources l) c

  -- The rounds that are left. The n-th answer of the server is `answers n`.
  unfoldable pub fetch_rounds : (ℕ → Answer) → ℕ → Outcome → ConfigClient → Outcome × ConfigClient
  unfolding fetch_config_once sent after_try
  fetch_rounds answers zero last c = (last, c)
  fetch_rounds answers (suc n) last c =
      let tried = fetch_config_once (answers c.requests) (sent c) in
      let next = fetch_rounds answers n failed tried.1 in after_try tried.0 tried next

  -- `fetchConfig` and `Refresh`. Without a round there is no last error, and the call succeeds.
  unfoldable pub fetch_config : (ℕ → Answer) → ConfigClient → Outcome × ConfigClient
  unfolding fetch_rounds rounds
  fetch_config answers c = fetch_rounds answers (rounds c.retry_count) fetched c

  -- `RefreshConfig`; the answer to the POST first.
  unfoldable pub refresh_config : Bool → (ℕ → Answer) → ConfigClient → Outcome × ConfigClient
  unfolding fetch_config
  refresh_config accepted answers c = if accepted then fetch_config answers c else (failed, c)

  -- `NewConfigClient`; none is the error of a client that fails fast.
  unfoldable pub new_config_client :
      Bool → Bool → ℤ → (ℕ → Answer) → Option (Outcome × ConfigClient)
  unfolding fetch_config
  new_config_client enabled fail_fast retry_count answers =
      let c : ConfigClient = record {
        retry_count = retry_count;
        cache = end;
        notified = [];
        requests = 0;
      } in
      let first = fetch_config answers c in
      if not enabled then some (fetched, c) else elim first.0 [
        | failed ↦ if fail_fast then none else some (fetched, first.1)
        | fetched ↦ some first
        | panicked ↦ some first
      ]

unfoldable pub get : ConfigClient → String → Option Value
get c key = lookup key c.cache

string_or : String → Option Value → String
string_or fallback none = fallback
string_or fallback (some (text s)) = s
string_or fallback (some v) = fallback

unfoldable pub get_string : ConfigClient → String → String → String
unfolding get string_or
get_string c key fallback = string_or fallback (get c key)

-- int(v) of a float64 is the argument `truncate`.
int_or : (ℕ → ℤ) → ℤ → Option Value → ℤ
int_or truncate fallback none = fallback
int_or truncate fallback (some (int n)) = n
int_or truncate fallback (some (float n)) = truncate n
int_or truncate fallback (some v) = fallback

unfoldable pub get_int : (ℕ → ℤ) → ConfigClient → String → ℤ → ℤ
unfolding get int_or
get_int truncate c key fallback = int_or truncate fallback (get c key)

bool_or : Bool → Option Value → Bool
bool_or fallback none = fallback
bool_or fallback (some (boolean b)) = b
bool_or fallback (some v) = fallback

unfoldable pub get_bool : ConfigClient → String → Bool → Bool
unfolding get bool_or
get_bool c key fallback = bool_or fallback (get c key)

unfoldable pub get_all : ConfigClient → Fields
unfolding copy_into
get_all c = copy_into end c.cache
