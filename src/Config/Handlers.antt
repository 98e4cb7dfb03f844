-- ===== src/Config/Handlers.antt =====
-- The handlers of internal/configserver/server.go: what they answer, and what they reload. The body of
-- an answer is a text or the configuration that is encoded.
use arcana_cloud_go.Base.{
  ℕ, String, Bool, true, false, not, ◌||◌, Option, none, some, List, str_eq, if◌then◌else◌,
}
use arcana_cloud_go.Jobs.RedisQueue.{is_empty}
use arcana_cloud_go.Config.{Fields}
use arcana_cloud_go.Config.Server.{Parser, Entry, Configs, split_at, load_configs, get_config}

pub data Body : Type 0 where
  message : String → Body
  property_source : String → String → Fields → Body  -- name, profile, and the one property source

-- fsnotify.Event.Op
pub record FileEvent : Type 0 where
  pub create : Bool
  pub write : Bool
  pub remove : Bool
  pub rename : Bool

unfoldable pub given_or : String → String → String
given_or fallback part = if is_empty part then fallback else part

unfoldable pub profile_part : Option String → String
unfolding given_or split_at
profile_part none = "default"
profile_part (some rest) = given_or "default" (split_at 47 rest).0

-- The application and the profile of a path, without its "/config/".
unfoldable pub requested : String → String × String
unfolding given_or profile_part split_at
requested path =
    let parts = split_at 47 path in (given_or "application" parts.0, profile_part parts.1)

answered : String × String → Option Fields → ℕ × Body
answered asked none = (404, message "configuration not found")
answered (application, profile) (some config) = (200, property_source application profile config)

unfoldable pub handle_config : Configs → String → ℕ × Body
unfolding requested answered
handle_config configs path =
    let asked = requested path in answered asked (get_config configs asked.0 asked.1)

unfoldable pub handle_root : ℕ × Body
handle_root = (200, message "Arcana Config Server")

unfoldable pub handle_health : ℕ × Body
handle_health = (200, message "UP")

module _ (parse : Parser) where
  refreshed : Bool × Configs → (ℕ × Body) × Configs
  refreshed (true, configs) = ((200, message "refreshed"), configs)
  refreshed (false, configs) = ((500, message "failed to load configs"), configs)

  unfoldable pub handle_refresh : String → List Entry → Bool → Configs → (ℕ × Body) × Configs
  unfolding refreshed load_configs
  handle_refresh method entries complete configs =
      if not (str_eq method "POST")
      then ((405, message "Method not allowed"), configs)
      else refreshed (load_configs parse entries complete configs)

  unfoldable pub handle_watcher_event : FileEvent → List Entry → Bool → Configs → Configs
  unfolding load_configs
  handle_watcher_event event entries complete configs =
      if event.write || event.create
      then (load_configs parse entries complete configs).1
      else configs

unfoldable pub handle_encrypt : String → ℕ × Body
handle_encrypt method =
    if not (str_eq method "POST")
    then (405, message "Method not allowed")
    else (501, message "Encryption not implemented")

unfoldable pub handle_decrypt : String → ℕ × Body
handle_decrypt method =
    if not (str_eq method "POST")
    then (405, message "Method not allowed")
    else (501, message "Decryption not implemented")
