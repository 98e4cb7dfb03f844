-- ===== src/Websocket/Hub/Delivery.antt =====
-- Who gets a message, and what is left of a client that is gone.
use text.Mathlib.TextPositions.{eq_refl}
use arcana_cloud_go.Base.Int.{◌+ℤ◌, negsuc}
use arcana_cloud_go.Base.{
  lt→ltb, ℕ, ◌+◌, ◌<◌, ◌≡◌, ◌≢◌, refl, sym, ◌∙◌, subst, Bool, true, false, List, [], ◌∷◌, ◌++◌, ltb,
  ◌==◌, ==_iff, ==_refl, length, str_eq, All, if◌then◌else◌, arith, Bool-cases, inl, inr,
}
use arcana_cloud_go.Websocket.Sets.{
  has, add, Distinct, members, add_under, Every, remove_under-Every, has-remove_self,
}
use arcana_cloud_go.Websocket.Hub.{
  Hub, Message, Outcome, done, panicked, removed, targets, deliver, delivered, send_buffer_size,
  Request, broadcast, message_request, unregister_client, handle_join_room, handle_broadcast,
}

-- A client's buffer after a message for it.
abbrev pub buffered : Message → List Message → List Message
buffered m send = if ltb (length send) send_buffer_size then send ++ m ∷ [] else send

send-delivered :
    (m : Message) (c x : ℕ) (h : Hub)
    → ((delivered m c h).heap x).send
      ≡ (if x == c then buffered m (h.heap x).send else (h.heap x).send)
send-delivered m c x h = elim (Bool-cases (x == c)) [
  | inl same ↦ let at : x ≡ c = (==_iff x c).0 same in rw (same, at) (ground arith)
  | inr other ↦ rw other (ground arith)
]

closed-delivered :
    (m : Message) (c x : ℕ) (h : Hub) → ((delivered m c h).heap x).closed ≡ (h.heap x).closed
closed-delivered m c x h = elim (Bool-cases (x == c)) [
  | inl same ↦ let at : x ≡ c = (==_iff x c).0 same in rw at (ground arith)
  | inr other ↦ ground arith
]

if_open : {b : Bool} {o : Outcome} → b ≡ false → (if b then panicked else o) ≡ o
if_open e = rw e refl

if_closed : {b : Bool} (o : Outcome) → b ≡ true → (if b then panicked else o) ≡ panicked
if_closed o e = rw e refl

not_panicked : {h : Hub} → panicked ≢ done h
not_panicked = λ e. cc

deliver-each :
    (m : Message) (cs : List ℕ) (h h' : Hub)
    → Distinct cs
    → deliver m cs h ≡ done h'
    → (x : ℕ)
    → (h'.heap x).send ≡ (if has x cs then buffered m (h.heap x).send else (h.heap x).send)
unfolding deliver
deliver-each m [] h h' d e x = cc
deliver-each m (c ∷ cs) h h' (new, d) e x = elim (Bool-cases (h.heap c).closed) [
  | inl gone ↦ absurd (not_panicked (sym (if_closed (deliver m cs (delivered m c h)) gone) ∙ e))
  | inr opened ↦
      let e' : deliver m cs (delivered m c h) ≡ done h' = sym (if_open opened) ∙ e in
      let ih = deliver-each m cs (delivered m c h) h' d e' x in
      let step = send-delivered m c x h in
      elim (Bool-cases (c == x)) [
        | inl same ↦
            let at : c ≡ x = (==_iff c x).0 same in
            let new' : has x cs ≡ false = subst (λ y. has y cs ≡ false) at new in
            rw (ih, new', step, same, at, ==_refl x) refl
        | inr other ↦
            let other' : (x == c) ≡ false = ground arith in rw (ih, step, other', other) refl
      ]
]

deliver_gone :
    (m : Message) (cs : List ℕ) (h : Hub) (x : ℕ)
    → has x cs ≡ true
    → (h.heap x).closed ≡ true
    → deliver m cs h ≡ panicked
unfolding deliver
deliver_gone m [] h x e gone = cc
deliver_gone m (c ∷ cs) h x e gone = elim (Bool-cases (c == x)) [
  | inl same ↦
      let at : c ≡ x = (==_iff c x).0 same in
      if_closed (deliver m cs (delivered m c h))
        (subst (λ y. (h.heap y).closed ≡ true) (sym at) gone)
  | inr other ↦
      let rest : deliver m cs (delivered m c h) ≡ panicked =
        deliver_gone m cs (delivered m c h) x (ground arith) (closed-delivered m c x h ∙ gone) in
      elim (Bool-cases (h.heap c).closed) [
        | inl also ↦ if_closed (deliver m cs (delivered m c h)) also
        | inr opened ↦ if_open opened ∙ rest
      ]
]

has-add : (x : ℕ) (cs : List ℕ) → has x (add x cs) ≡ true
has-add x cs = let r = ==_refl x in ground arith

has-add_under :
    {K : Type 0} (test : K → Bool) (k : K) (x : ℕ) (s : List (K × List ℕ))
    → test k ≡ true
    → has x (members test (add_under test k x s)) ≡ true
has-add_under test k x [] own = rw own (ground (arith, ==_refl x))
has-add_under test k x ((j, cs) ∷ s) own = elim (Bool-cases (test j)) [
  | inl found ↦ rw (found, found) (has-add x cs)
  | inr other ↦ rw (other, other) (has-add_under test k x s own)
]

abbrev counting : Hub → Hub
counting h = record h {
  metrics = record h.metrics { total_broadcasts = h.metrics.total_broadcasts + 1 };
}

Every-unit : {K : Type 0} (m : List (K × List ℕ)) → Every (λ k cs. Unit {0}) m
Every-unit [] = tt
Every-unit (e ∷ m) = (tt, Every-unit m)

-- Those that a request sends a message to.
abbrev pub request_targets : Request → Hub → List ℕ
request_targets (broadcast m) h = targets m h
request_targets _ h = []

members_of :
    (user : ℕ → ℕ) (u : ℕ) (s : List (ℕ × List ℕ))
    → Every (λ v cs. All (λ c. user c ≡ v) cs) s
    → All (λ c. user c ≡ u) (members (λ v. v == u) s)
members_of user u [] h = tt
members_of user u ((v, cs) ∷ s) (o, h) = elim (Bool-cases (v == u)) [
  | inl found ↦
      let at : v ≡ u = (==_iff v u).0 found in rw found (subst (λ w. All (λ c. user c ≡ w) cs) at o)
  | inr other ↦ rw other (members_of user u s h)
]

open_after :
    (m : Message) (c : ℕ) (h : Hub) (cs : List ℕ)
    → All (λ d. (h.heap d).closed ≡ false) cs
    → All (λ d. ((delivered m c h).heap d).closed ≡ false) cs
open_after m c h [] o = tt
open_after m c h (d ∷ cs) (e, o) = (closed-delivered m c d h ∙ e, open_after m c h cs o)

deliver-done :
    (m : Message) (cs : List ℕ) (h : Hub)
    → All (λ c. (h.heap c).closed ≡ false) cs
    → (h' : Hub) × (deliver m cs h ≡ done h')
unfolding deliver
deliver-done m [] h o = (h, refl)
deliver-done m (c ∷ cs) h (opened, o) =
    let (h', e) = deliver-done m cs (delivered m c h) (open_after m c h cs o) in
    (h', if_open opened ∙ e)

-- A message whose targets are listed once and have open channels is handled without a panic, and then
-- lies at the end of the buffer of each target that had less than 256 messages waiting; no other
-- buffer changes.
pub broadcast_reaches :
    (m : Message) (h : Hub)
    → Distinct (targets m h)
    → All (λ c. (h.heap c).closed ≡ false) (targets m h)
    → (h' : Hub) × (handle_broadcast m h ≡ done h')
      × ((x : ℕ)
          → (h'.heap x).send
            ≡ (if has x (targets m h) then buffered m (h.heap x).send else (h.heap x).send))
unfolding handle_broadcast
broadcast_reaches m h d o =
    let (h', e) = deliver-done m (targets m h) (counting h) o in
    (h', e, λ x. deliver-each m (targets m h) (counting h) h' d e x)

-- When a client whose channel is closed joins a room, whether or not others are in it, the next
-- message to that room makes the hub panic.
pub late_join_panics :
    (x : ℕ) (m : Message) (h : Hub)
    → (h.heap x).closed ≡ true
    → str_eq m.room "" ≡ false
    → handle_broadcast m (handle_join_room x m.room h) ≡ panicked
unfolding handle_broadcast handle_join_room targets
late_join_panics x m h gone to_room =
    deliver_gone m (targets m (handle_join_room x m.room h))
      (counting (handle_join_room x m.room h)) x
      (rw to_room (has-add_under (λ r. str_eq r m.room) m.room x h.room_clients (eq_refl m.room)))
      (rw (==_refl x) gone)

-- When a registered client with an open channel unregisters, it is in neither `clients` nor a room
-- any more, its channel is closed and one connection less is active. The count of rooms in the metrics
-- stays, although rooms in which it was alone are gone.
pub unregister_forgets :
    (x : ℕ) (h : Hub)
    → has x h.clients ≡ true
    → (h.heap x).closed ≡ false
    → (h' : Hub) × (unregister_client x h ≡ done h')
      × (has x h'.clients ≡ false)
      × Every (λ room cs. has x cs ≡ false) h'.room_clients
      × ((h'.heap x).closed ≡ true)
      × (h'.metrics.active_connections ≡ h.metrics.active_connections +ℤ negsuc 0)
      × (h'.metrics.total_rooms ≡ h.metrics.total_rooms)
unfolding unregister_client
unregister_forgets x h known opened = (
  removed x h,
  rw (known, opened) refl,
  has-remove_self x h.clients,
  remove_under-Every (λ room cs. Unit {0}) (λ room cs. has x cs ≡ false) (λ r. true) x
      h.room_clients (λ room cs found t. has-remove_self x cs) (λ room cs missed t. cc)
      (Every-unit h.room_clients),
  rw (==_refl x) refl,
  refl,
  refl,
)

-- A message of type message that names no room and comes from a client with a user reaches, where the
-- sets by user hold clients of that user, nobody but the clients of the sender's own user.
pub message_stays :
    (x : ℕ) (m : Message) (h : Hub)
    → Every (λ u cs. All (λ c. (h.heap c).user_id ≡ u) cs) h.user_clients
    → 0 < (h.heap x).user_id
    → m.room ≡ ""
    → All (λ c. (h.heap c).user_id ≡ (h.heap x).user_id) (request_targets (message_request x m h) h)
unfolding message_request targets
message_stays x m h users has_user no_room =
    rw (no_room, lt→ltb 0 (h.heap x).user_id has_user)
      (members_of (λ c. (h.heap c).user_id) (h.heap x).user_id h.user_clients users)
