-- ===== src/Websocket/Hub/Upkeep.antt =====
-- The hub's requests keep its sets live.
use arcana_cloud_go.Base.{
  ℕ, ◌<◌, ◌≢◌, ◌≡◌, refl, sym, ◌∙◌, subst, String, true, false, List, [], ◌∷◌, ◌++◌, ltb, ltb→lt,
  ◌==◌, ==_iff, length, str_eq, All, arith, Bool-cases, inl, inr,
}
use arcana_cloud_go.Websocket.Sets.{
  remove, add_under, remove_under, add_under-Every, remove_under-Every, All-add, All-remove,
  Distinct-remove,
}
use arcana_cloud_go.Websocket.Hub.{
  Client, Hub, Message, with_rooms, other_rooms, register_client, removed, handle_join_room,
  handle_leave_room, delivered, set_client, send_buffer_size,
}
use arcana_cloud_go.Websocket.Hub.Live.{
  Live, Inv, SameAt, Kept, Live-add, Live-remove, Inv-Kept, Kept-set_client, All-impl, Every-impl,
}

pub register-Inv : (x : ℕ) (h : Hub) → (h.heap x).closed ≡ false → Inv h → Inv (register_client x h)
unfolding register_client Live
register-Inv x h opened inv = record {
  clients_live = Live-add h.heap x h.clients opened inv.clients_live;
  rooms_live = inv.rooms_live;
  users_live = elim (Bool-cases (ltb 0 (h.heap x).user_id)) [
    | inl has_user ↦
        let positive : 0 < (h.heap x).user_id = ltb→lt 0 (h.heap x).user_id has_user in
        rw has_user (
          add_under-Every (λ u cs. (0 < u) × Live h.heap cs × All (λ c. (h.heap c).user_id ≡ u) cs)
            (λ v. v == (h.heap x).user_id) (h.heap x).user_id x h.user_clients
            (positive, ((opened, tt), (refl, tt)), (refl, tt))
            (λ j cs found (z, l, o). (
              z,
              Live-add h.heap x cs opened l,
              All-add (λ c. (h.heap c).user_id ≡ j) x cs
                  (sym ((==_iff j (h.heap x).user_id).0 found)) o,
            ))
            inv.users_live)
    | inr no_user ↦ rw no_user inv.users_live
  ];
}

abbrev closing : ℕ → (ℕ → Client) → ℕ → Client
closing x heap = set_client x (record (heap x) { closed = true }) heap

closing-user : (x : ℕ) (heap : ℕ → Client) (c : ℕ) → (closing x heap c).user_id ≡ (heap c).user_id
closing-user x heap c = elim (Bool-cases (c == x)) [
  | inl same ↦ let at : c ≡ x = (==_iff c x).0 same in rw (same, at) refl
  | inr other ↦ rw other refl
]

All-user :
    (x u : ℕ) (heap : ℕ → Client) (cs : List ℕ)
    → All (λ c. (heap c).user_id ≡ u) cs
    → All (λ c. (closing x heap c).user_id ≡ u) cs
All-user x u heap cs h =
    All-impl (λ c. (heap c).user_id ≡ u) (λ c. (closing x heap c).user_id ≡ u) cs
      (λ c e. closing-user x heap c ∙ e) h

open-removed :
    (x : ℕ) (heap : ℕ → Client) (cs : List ℕ)
    → All (λ c. (heap c).closed ≡ false) cs
    → All (λ c. (closing x heap c).closed ≡ false) (remove x cs)
open-removed x heap [] h = tt
open-removed x heap (c ∷ cs) (e, h) = elim (Bool-cases (c == x)) [
  | inl same ↦ rw same (open-removed x heap cs h)
  | inr other ↦ rw other (rw other e, open-removed x heap cs h)
]

open-apart :
    (x u : ℕ) (heap : ℕ → Client) (cs : List ℕ)
    → (heap x).user_id ≢ u
    → All (λ c. (heap c).user_id ≡ u) cs
    → All (λ c. (heap c).closed ≡ false) cs
    → All (λ c. (closing x heap c).closed ≡ false) cs
open-apart x u heap [] apart o h = tt
open-apart x u heap (c ∷ cs) apart (p, o) (e, h) = elim (Bool-cases (c == x)) [
  | inl same ↦
      let at : c ≡ x = (==_iff c x).0 same in
      absurd (apart (subst (λ y. (heap y).user_id ≡ u) at p))
  | inr other ↦ (rw other e, open-apart x u heap cs apart o h)
]

pub removed-Inv : (x : ℕ) (h : Hub) → Inv h → Inv (removed x h)
unfolding Live
removed-Inv x h inv = record {
  clients_live = (
    open-removed x h.heap h.clients inv.clients_live.0,
    Distinct-remove x h.clients inv.clients_live.1,
  );
  rooms_live =
      remove_under-Every (λ room cs. Live h.heap cs) (λ room cs. Live (closing x h.heap) cs)
        (λ r. true) x h.room_clients
        (λ room cs found (l, d). (open-removed x h.heap cs l, Distinct-remove x cs d))
        (λ room cs missed l. cc) inv.rooms_live;
  users_live = elim (Bool-cases (ltb 0 (h.heap x).user_id)) [
    | inl has_user ↦ rw has_user (
        remove_under-Every (λ u cs. (0 < u) × Live h.heap cs × All (λ c. (h.heap c).user_id ≡ u) cs)
          (λ u cs.
            (0 < u) × Live (closing x h.heap) cs × All (λ c. (closing x h.heap c).user_id ≡ u) cs)
          (λ v. v == (h.heap x).user_id) x h.user_clients
          (λ u cs found (z, (l, d), o). (
            z,
            (open-removed x h.heap cs l, Distinct-remove x cs d),
            All-remove (λ c. (closing x h.heap c).user_id ≡ u) x cs (All-user x u h.heap cs o),
          ))
          (λ u cs missed (z, (l, d), o).
            (z, (open-apart x u h.heap cs (ground arith) o l, d), All-user x u h.heap cs o))
          inv.users_live)
    | inr no_user ↦ rw no_user (
        Every-impl (λ u cs. (0 < u) × Live h.heap cs × All (λ c. (h.heap c).user_id ≡ u) cs)
          (λ u cs.
            (0 < u) × Live (closing x h.heap) cs × All (λ c. (closing x h.heap c).user_id ≡ u) cs)
          h.user_clients
          (λ u cs (z, (l, d), o).
            (z, (open-apart x u h.heap cs (ground arith) o l, d), All-user x u h.heap cs o))
          inv.users_live)
  ];
}

with_rooms-Inv : (x : ℕ) (rooms : List String) (h : Hub) → Inv h → Inv (with_rooms x rooms h)
unfolding SameAt
with_rooms-Inv x rooms h inv =
    Inv-Kept h (with_rooms x rooms h)
      (Kept-set_client x (record (h.heap x) { rooms = rooms }) h.heap (refl, refl)) refl refl refl
      inv

pub join-Inv :
    (x : ℕ) (room : String) (h : Hub)
    → (h.heap x).closed ≡ false
    → Inv h
    → Inv (handle_join_room x room h)
unfolding handle_join_room Live
join-Inv x room h opened inv =
    let joined = record h { room_clients = add_under (λ r. str_eq r room) room x h.room_clients } in
    with_rooms-Inv x (room ∷ other_rooms room (h.heap x).rooms) joined (record {
      clients_live = inv.clients_live;
      rooms_live =
          add_under-Every (λ r cs. Live h.heap cs) (λ r. str_eq r room) room x h.room_clients
            ((opened, tt), (refl, tt)) (λ r cs found l. Live-add h.heap x cs opened l)
            inv.rooms_live;
      users_live = inv.users_live;
    })

pub leave-Inv : (x : ℕ) (room : String) (h : Hub) → Inv h → Inv (handle_leave_room x room h)
unfolding handle_leave_room
leave-Inv x room h inv =
    let left = record h { room_clients = remove_under (λ r. str_eq r room) x h.room_clients } in
    with_rooms-Inv x (other_rooms room (h.heap x).rooms) left (record {
      clients_live = inv.clients_live;
      rooms_live =
          remove_under-Every (λ r cs. Live h.heap cs) (λ r cs. Live h.heap cs) (λ r. str_eq r room)
            x h.room_clients (λ r cs found l. Live-remove h.heap x cs l) (λ r cs missed l. l)
            inv.rooms_live;
      users_live = inv.users_live;
    })

pub delivered-Kept : (m : Message) (c : ℕ) (h : Hub) → Kept h.heap (delivered m c h).heap
unfolding SameAt Kept
delivered-Kept m c h = elim (Bool-cases (ltb (length (h.heap c).send) send_buffer_size)) [
  | inl room ↦ rw room (
      Kept-set_client c (record (h.heap c) { send = (h.heap c).send ++ m ∷ [] }) h.heap
        (refl, refl))
  | inr full ↦ rw full (λ d. (refl, refl))
]

pub delivered-Inv : (m : Message) (c : ℕ) (h : Hub) → Inv h → Inv (delivered m c h)
delivered-Inv m c h inv =
    let e = ltb (length (h.heap c).send) send_buffer_size in
    Inv-Kept h (delivered m c h) (delivered-Kept m c h)
      (elim (Bool-cases e) [ inl y ↦ rw y refl | inr n ↦ rw n refl ])
      (elim (Bool-cases e) [ inl y ↦ rw y refl | inr n ↦ rw n refl ])
      (elim (Bool-cases e) [ inl y ↦ rw y refl | inr n ↦ rw n refl ]) inv
