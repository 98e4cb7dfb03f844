-- ===== src/Websocket/Hub/Safe.antt =====
-- The hub never sends on a closed channel, as long as no client registers or joins after it is gone.
use arcana_cloud_go.Base.{
  ℕ, ◌+◌, ◌<◌, ◌≡◌, refl, ap, ◌∙◌, subst, Bool, true, false, List, [], ◌∷◌, ltb, ◌==◌, ==_iff,
  str_eq, All, if◌then◌else◌, arith, Bool-cases, inl, inr,
}
use arcana_cloud_go.Websocket.Sets.{has, Distinct, Every, members-Every}
use arcana_cloud_go.Websocket.Hub.{
  Client, Hub, Message, Outcome, done, panicked, new_hub, register_client, unregister_client,
  removed, handle_join_room, handle_leave_room, targets, deliver, delivered, handle_broadcast,
  Request, register, unregister, join_room, leave_room, broadcast, handle, run_hub, and_then,
}
use arcana_cloud_go.Websocket.Hub.Live.{Live, Inv, Kept, Kept-open, Inv-Kept, All-impl, Every-impl}
use arcana_cloud_go.Websocket.Hub.Upkeep.{
  register-Inv, removed-Inv, join-Inv, leave-Inv, delivered-Kept, delivered-Inv,
}

-- What the callers must see to: only open clients register and join.
abbrev pub Allowed : Request → Hub → Type 0
Allowed (register x) h = (h.heap x).closed ≡ false
Allowed (join_room x room) h = (h.heap x).closed ≡ false
Allowed _ h = Unit {0}

if_false : {A : Type 0} {b : Bool} {y : A} (x : A) → b ≡ false → (if b then x else y) ≡ y
if_false x e = rw e refl

if_true : {A : Type 0} {b : Bool} {x : A} (y : A) → b ≡ true → (if b then x else y) ≡ x
if_true y e = rw e refl

Safe : Outcome → Type 0
Safe o = (h : Hub) × (o ≡ done h) × Inv h

deliver-Safe :
    (m : Message) (cs : List ℕ) (h : Hub)
    → All (λ c. (h.heap c).closed ≡ false) cs
    → Inv h
    → Safe (deliver m cs h)
unfolding deliver Safe
deliver-Safe m [] h live inv = (h, refl, inv)
deliver-Safe m (c ∷ cs) h (opened, live) inv =
    let h' = delivered m c h in
    let kept : Kept h.heap h'.heap = delivered-Kept m c h in
    let (g, e, i) =
      deliver-Safe m cs h'
        (All-impl (λ d. (h.heap d).closed ≡ false) (λ d. (h'.heap d).closed ≡ false) cs
          (Kept-open h.heap h'.heap kept) live)
        (delivered-Inv m c h inv) in
    (g, if_false panicked opened ∙ e, i)

targets-open : (m : Message) (h : Hub) → Inv h → All (λ c. (h.heap c).closed ≡ false) (targets m h)
unfolding targets Live
targets-open m h inv = elim (Bool-cases (str_eq m.room "")) [
  | inl no_room ↦ rw no_room (elim (Bool-cases (ltb 0 m.user_id)) [
    | inl user ↦ rw user (
        members-Every (λ cs. All (λ c. (h.heap c).closed ≡ false) cs) (λ u. u == m.user_id)
          h.user_clients tt
          (Every-impl (λ u cs. (0 < u) × Live h.heap cs × All (λ c. (h.heap c).user_id ≡ u) cs)
            (λ u cs. All (λ c. (h.heap c).closed ≡ false) cs) h.user_clients
            (λ u cs (z, (l, d), o). l) inv.users_live))
    | inr everyone ↦ rw everyone inv.clients_live.0
  ])
  | inr to_room ↦ rw to_room (
      members-Every (λ cs. All (λ c. (h.heap c).closed ≡ false) cs) (λ r. str_eq r m.room)
        h.room_clients tt
        (Every-impl (λ r cs. Live h.heap cs) (λ r cs. All (λ c. (h.heap c).closed ≡ false) cs)
          h.room_clients (λ r cs (l, d). l) inv.rooms_live))
]

broadcast-Safe : (m : Message) (h : Hub) → Inv h → Safe (handle_broadcast m h)
unfolding handle_broadcast Kept
broadcast-Safe m h inv =
    let counted = record h {
      metrics = record h.metrics { total_broadcasts = h.metrics.total_broadcasts + 1 };
    } in
    deliver-Safe m (targets m h) counted (targets-open m h inv)
      (Inv-Kept h counted (λ c. (refl, refl)) refl refl refl inv)

has-All : (P : ℕ → Type 0) (x : ℕ) (cs : List ℕ) → has x cs ≡ true → All P cs → P x
has-All P x [] e h = cc
has-All P x (c ∷ cs) e (p, h) = elim (Bool-cases (c == x)) [
  | inl same ↦ subst P ((==_iff c x).0 same) p
  | inr other ↦ has-All P x cs (ground arith) h
]

unregister-Safe : (x : ℕ) (h : Hub) → Inv h → Safe (unregister_client x h)
unfolding unregister_client Safe Live
unregister-Safe x h inv = elim (Bool-cases (has x h.clients)) [
  | inl known ↦
      let opened : (h.heap x).closed ≡ false =
        has-All (λ c. (h.heap c).closed ≡ false) x h.clients known inv.clients_live.0 in
      (removed x h, if_true (done h) known ∙ if_false panicked opened, removed-Inv x h inv)
  | inr unknown ↦ (h, if_false _ unknown, inv)
]

handle-Safe : (r : Request) (h : Hub) → Allowed r h → Inv h → Safe (handle r h)
unfolding handle Safe
handle-Safe (register x) h opened inv = (register_client x h, refl, register-Inv x h opened inv)
handle-Safe (unregister x) h ok inv = unregister-Safe x h inv
handle-Safe (join_room x room) h opened inv =
    (handle_join_room x room h, refl, join-Inv x room h opened inv)
handle-Safe (leave_room x room) h ok inv =
    (handle_leave_room x room h, refl, leave-Inv x room h inv)
handle-Safe (broadcast m) h ok inv = broadcast-Safe m h inv

-- Every request is allowed when it is handled.
unfoldable pub Orderly : List Request → Hub → Type 0
Orderly [] h = Unit {0}
Orderly (r ∷ rs) h = Allowed r h × ((h' : Hub) → handle r h ≡ done h' → Orderly rs h')

run_from : (rs : List Request) (h : Hub) → Orderly rs h → Inv h → Safe (run_hub rs h)
unfolding run_hub and_then Orderly Safe
run_from [] h ok inv = (h, refl, inv)
run_from (r ∷ rs) h (allowed, later) inv =
    let (h', e, inv') = handle-Safe r h allowed inv in
    let (g, e', i) = run_from rs h' (later h' e) inv' in (g, ap (and_then (run_hub rs)) e ∙ e', i)

new_hub-Inv : (heap : ℕ → Client) → Inv (new_hub heap)
unfolding new_hub Live
new_hub-Inv heap = record { clients_live = (tt, tt); rooms_live = tt; users_live = tt }

-- From a new hub, any sequence of requests in which no closed client registers or joins a room is
-- handled without a panic: no message is sent to a closed channel and no channel is closed twice. In
-- the end every client in `clients` and in a room has an open channel and is listed there once.
pub run_hub-done :
    (heap : ℕ → Client) (rs : List Request)
    → Orderly rs (new_hub heap)
    → (h : Hub) × (run_hub rs (new_hub heap) ≡ done h)
      × (All (λ c. (h.heap c).closed ≡ false) h.clients × Distinct h.clients)
      × Every (λ room cs. All (λ c. (h.heap c).closed ≡ false) cs × Distinct cs) h.room_clients
unfolding Safe Live
run_hub-done heap rs orderly =
    let (h, e, inv) = run_from rs (new_hub heap) orderly (new_hub-Inv heap) in
    (h, e, inv.clients_live, inv.rooms_live)
