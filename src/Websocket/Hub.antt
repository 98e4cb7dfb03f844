-- ===== src/Websocket/Hub.antt =====
-- internal/websocket/hub.go, and the messages of internal/websocket/client.go. `Run` handles one
-- request after the other, so a request is a function of the hub. A pointer to a client is a number,
-- and the hub carries the clients that it points to.
pub mod Live
pub mod Upkeep
pub mod Safe
pub mod Delivery
use arcana_cloud_go.Base.{
  ℕ, ◌+◌, ◌≡◌, String, Bool, true, false, not, List, [], ◌∷◌, ◌++◌, ltb, ◌==◌, length, str_eq,
  if◌then◌else◌, keep, map,
}
use arcana_cloud_go.Base.Int.{ℤ, pos, negsuc, ◌+ℤ◌}
use arcana_cloud_go.Websocket.Sets.{has, add, remove, members, add_under, remove_under}

-- Of a message, what the hub reads; `body` stands for the rest.
pub record Message : Type 0 where
  pub room : String
  pub user_id : ℕ
  pub body : String

-- `send` is what waits in the channel.
pub record Client : Type 0 where
  pub user_id : ℕ
  pub rooms : List String
  pub send : List Message
  pub closed : Bool

pub record HubMetrics : Type 0 where
  pub total_connections : ℕ
  pub active_connections : ℤ
  pub total_messages : ℕ
  pub total_broadcasts : ℕ
  pub total_rooms : ℕ

pub record Hub : Type 0 where
  pub clients : List ℕ
  pub user_clients : List (ℕ × List ℕ)
  pub room_clients : List (String × List ℕ)
  pub heap : ℕ → Client
  pub metrics : HubMetrics

-- A send on a closed channel panics, and so does closing one twice.
pub data Outcome : Type 0 where
  done : Hub → Outcome
  panicked : Outcome

unfoldable pub new_hub : (ℕ → Client) → Hub
new_hub heap = record {
  clients = [];
  user_clients = [];
  room_clients = [];
  heap = heap;
  metrics = record {
    total_connections = 0;
    active_connections = pos 0;
    total_messages = 0;
    total_broadcasts = 0;
    total_rooms = 0;
  };
}

abbrev pub set_client : ℕ → Client → (ℕ → Client) → ℕ → Client
set_client x v heap c = if c == x then v else heap c

abbrev pub send_buffer_size : ℕ
send_buffer_size = 256

abbrev pub belongs : ℕ → List (ℕ × List ℕ) → ℕ → List (ℕ × List ℕ)
belongs u m x = if ltb 0 u then add_under (λ v. v == u) u x m else m

unfoldable pub register_client : ℕ → Hub → Hub
register_client x h = record h {
  clients = add x h.clients;
  user_clients = belongs (h.heap x).user_id h.user_clients x;
  metrics = record h.metrics {
    total_connections = h.metrics.total_connections + 1;
    active_connections = h.metrics.active_connections +ℤ pos 1;
  };
}

abbrev pub leaves_user : ℕ → List (ℕ × List ℕ) → ℕ → List (ℕ × List ℕ)
leaves_user u m x = if ltb 0 u then remove_under (λ v. v == u) x m else m

-- The maps and the counter after a registered client is gone, and its channel closed.
abbrev pub removed : ℕ → Hub → Hub
removed x h = record h {
  clients = remove x h.clients;
  user_clients = leaves_user (h.heap x).user_id h.user_clients x;
  room_clients = remove_under (λ r. true) x h.room_clients;
  heap = set_client x (record (h.heap x) { closed = true }) h.heap;
  metrics = record h.metrics { active_connections = h.metrics.active_connections +ℤ negsuc 0 };
}

unfoldable pub unregister_client : ℕ → Hub → Outcome
unregister_client x h =
    if has x h.clients then (if (h.heap x).closed then panicked else done (removed x h)) else done h

abbrev pub with_rooms : ℕ → List String → Hub → Hub
with_rooms x rooms h = record h {
  heap = set_client x (record (h.heap x) { rooms = rooms }) h.heap;
  metrics = record h.metrics { total_rooms = length h.room_clients };
}

abbrev pub other_rooms : String → List String → List String
other_rooms room rooms = keep (λ r. not (str_eq r room)) rooms

unfoldable pub handle_join_room : ℕ → String → Hub → Hub
handle_join_room x room h =
    with_rooms x (room ∷ other_rooms room (h.heap x).rooms)
      (record h { room_clients = add_under (λ r. str_eq r room) room x h.room_clients })

unfoldable pub handle_leave_room : ℕ → String → Hub → Hub
handle_leave_room x room h =
    with_rooms x (other_rooms room (h.heap x).rooms)
      (record h { room_clients = remove_under (λ r. str_eq r room) x h.room_clients })

unfoldable pub targets : Message → Hub → List ℕ
targets m h =
    if not (str_eq m.room "")
    then members (λ r. str_eq r m.room) h.room_clients
    else (if ltb 0 m.user_id then members (λ u. u == m.user_id) h.user_clients else h.clients)

-- One client of the range loop, whose channel is open: a full buffer is skipped.
abbrev pub delivered : Message → ℕ → Hub → Hub
delivered m c h =
    if ltb (length (h.heap c).send) send_buffer_size
    then record h {
      heap = set_client c (record (h.heap c) { send = (h.heap c).send ++ m ∷ [] }) h.heap;
      metrics = record h.metrics { total_messages = h.metrics.total_messages + 1 };
    }
    else h

unfoldable pub deliver : Message → List ℕ → Hub → Outcome
deliver m [] h = done h
deliver m (c ∷ cs) h =
    let rest = deliver m cs (delivered m c h) in if (h.heap c).closed then panicked else rest

unfoldable pub handle_broadcast : Message → Hub → Outcome
unfolding deliver targets
handle_broadcast m h =
    deliver m (targets m h) (record h {
      metrics = record h.metrics { total_broadcasts = h.metrics.total_broadcasts + 1 };
    })

-- The five requests of `Run`.
pub data Request : Type 0 where
  register : ℕ → Request
  unregister : ℕ → Request
  join_room : ℕ → String → Request
  leave_room : ℕ → String → Request
  broadcast : Message → Request

unfoldable pub handle : Request → Hub → Outcome
unfolding register_client unregister_client handle_join_room handle_leave_room handle_broadcast
handle (register x) h = done (register_client x h)
handle (unregister x) h = unregister_client x h
handle (join_room x room) h = done (handle_join_room x room h)
handle (leave_room x room) h = done (handle_leave_room x room h)
handle (broadcast m) h = handle_broadcast m h

unfoldable pub and_then : (Hub → Outcome) → Outcome → Outcome
and_then go_on (done h) = go_on h
and_then go_on panicked = panicked

-- `Run`, on the requests in the order in which they are received.
unfoldable pub run_hub : List Request → Hub → Outcome
unfolding handle and_then
run_hub [] h = done h
run_hub (r ∷ rs) h = and_then (run_hub rs) (handle r h)

-- `handleMessage` of a client: what it asks of the hub for a message of type message.
unfoldable pub message_request : ℕ → Message → Hub → Request
message_request x m h = broadcast (record m { user_id = (h.heap x).user_id })

-- The readers. `GetOnlineUsers` lists the keys in the order of the map.
unfoldable pub get_client_count : Hub → ℕ
get_client_count h = length h.clients

unfoldable pub get_room_count : Hub → ℕ
get_room_count h = length h.room_clients

unfoldable pub get_room_client_count : String → Hub → ℕ
get_room_client_count room h = length (members (λ r. str_eq r room) h.room_clients)

unfoldable pub is_user_online : ℕ → Hub → Bool
is_user_online user h = ltb 0 (length (members (λ u. u == user) h.user_clients))

unfoldable pub get_online_users : Hub → List ℕ
get_online_users h = map (λ (u, cs). u) h.user_clients
