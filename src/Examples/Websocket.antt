-- ===== src/Examples/Websocket.antt =====
-- The hub of internal/websocket at concrete clients.
use arcana_cloud_go.Base.{ℕ, ◌≡◌, refl, false, [], ◌∷◌, ◌==◌, All}
use arcana_cloud_go.Base.Int.{pos}
use arcana_cloud_go.Websocket.Sets.{Distinct, Every}
use arcana_cloud_go.Websocket.Hub.{
  Client, Hub, Message, done, panicked, new_hub, handle_broadcast, handle_join_room, run_hub,
  register, unregister, broadcast,
}
use arcana_cloud_go.Websocket.Hub.Safe.{Orderly, run_hub-done}
use arcana_cloud_go.Websocket.Hub.Delivery.{late_join_panics}

-- Every client is of user 7; the channel of client 9 is closed.
abbrev some_clients : ℕ → Client
some_clients c = record { user_id = 7; rooms = []; send = []; closed = c == 9 }

abbrev hello : Message
hello = record { room = "r"; user_id = 0; body = "hello" }

abbrev to_all : Message
to_all = record { room = ""; user_id = 0; body = "hello" }

-- Clients 1 and 2 are registered, and 1 is in room r.
abbrev two : Hub
two = record {
  clients = 2 ∷ 1 ∷ [];
  user_clients = (7, 2 ∷ 1 ∷ []) ∷ [];
  room_clients = ("r", 1 ∷ []) ∷ [];
  heap = some_clients;
  metrics = record {
    total_connections = 2;
    active_connections = pos 2;
    total_messages = 0;
    total_broadcasts = 0;
    total_rooms = 1;
  };
}

orderly : Orderly (register 1 ∷ broadcast to_all ∷ unregister 1 ∷ []) (new_hub some_clients)
unfolding new_hub Orderly
orderly = (refl, λ h' e. (tt, λ h'' e'. (tt, λ h3 e3. tt)))

run_hub-done_example :
    (h : Hub) × (run_hub (register 1 ∷ broadcast to_all ∷ unregister 1 ∷ []) (new_hub some_clients)
      ≡ done h)
    × (All (λ c. (h.heap c).closed ≡ false) h.clients × Distinct h.clients)
    × Every (λ room cs. All (λ c. (h.heap c).closed ≡ false) cs × Distinct cs) h.room_clients
run_hub-done_example =
    run_hub-done some_clients (register 1 ∷ broadcast to_all ∷ unregister 1 ∷ []) orderly

late_join_panics_example : handle_broadcast hello (handle_join_room 9 "r" two) ≡ panicked
late_join_panics_example = late_join_panics 9 hello two refl refl
