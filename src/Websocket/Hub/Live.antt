-- ===== src/Websocket/Hub/Live.antt =====
-- Which clients the hub may reach: those whose channel is open, each once in a set.
use arcana_cloud_go.Base.{
  ℕ, ◌<◌, ◌≡◌, refl, ◌∙◌, false, List, [], ◌∷◌, ◌==◌, ==_iff, All, Bool-cases, inl, inr,
}
use arcana_cloud_go.Websocket.Sets.{
  add, remove, Distinct, Every, All-add, All-remove, Distinct-add, Distinct-remove,
}
use arcana_cloud_go.Websocket.Hub.{Client, Hub, set_client}

-- A set of distinct clients whose channels are open.
unfoldable pub Live : (ℕ → Client) → List ℕ → Type 0
Live heap cs = All (λ c. (heap c).closed ≡ false) cs × Distinct cs

pub record Inv (h : Hub) : Type 0 where
  pub clients_live : Live h.heap h.clients
  pub rooms_live : Every (λ room cs. Live h.heap cs) h.room_clients
  pub users_live :
      Every (λ u cs. (0 < u) × Live h.heap cs × All (λ c. (h.heap c).user_id ≡ u) cs) h.user_clients

pub Live-add :
    (heap : ℕ → Client) (x : ℕ) (cs : List ℕ)
    → (heap x).closed ≡ false
    → Live heap cs
    → Live heap (add x cs)
unfolding Live
Live-add heap x cs opened (l, d) =
    (All-add (λ c. (heap c).closed ≡ false) x cs opened l, Distinct-add x cs d)

pub Live-remove : (heap : ℕ → Client) (x : ℕ) (cs : List ℕ) → Live heap cs → Live heap (remove x cs)
unfolding Live
Live-remove heap x cs (l, d) =
    (All-remove (λ c. (heap c).closed ≡ false) x cs l, Distinct-remove x cs d)

module _ (P Q : ℕ → Type 0) where
  pub All-impl : (cs : List ℕ) → ((c : ℕ) → P c → Q c) → All P cs → All Q cs
  All-impl [] f h = tt
  All-impl (c ∷ cs) f (p, h) = (f c p, All-impl cs f h)

-- A changed client that keeps its user and stays open changes no set.
unfoldable pub SameAt : ℕ → Client → (ℕ → Client) → Type 0
SameAt x v heap = (v.closed ≡ (heap x).closed) × (v.user_id ≡ (heap x).user_id)

closed-set_client :
    (x : ℕ) (v : Client) (heap : ℕ → Client) (c : ℕ)
    → SameAt x v heap
    → ((set_client x v heap c).closed ≡ (heap c).closed)
      × ((set_client x v heap c).user_id ≡ (heap c).user_id)
unfolding SameAt
closed-set_client x v heap c (e, e') = elim (Bool-cases (c == x)) [
  | inl same ↦ let at : c ≡ x = (==_iff c x).0 same in rw (same, at) (e, e')
  | inr other ↦ rw other (refl, refl)
]

unfoldable pub Kept : (ℕ → Client) → (ℕ → Client) → Type 0
Kept heap heap' =
    (c : ℕ) → ((heap' c).closed ≡ (heap c).closed) × ((heap' c).user_id ≡ (heap c).user_id)

Live-Kept : (heap heap' : ℕ → Client) (cs : List ℕ) → Kept heap heap' → Live heap cs → Live heap' cs
unfolding Live Kept
Live-Kept heap heap' cs kept (l, d) = (
  All-impl (λ c. (heap c).closed ≡ false) (λ c. (heap' c).closed ≡ false) cs (λ c e. (kept c).0 ∙ e)
      l,
  d,
)

pub Kept-open :
    (heap heap' : ℕ → Client)
    → Kept heap heap'
    → (c : ℕ) → (heap c).closed ≡ false
    → (heap' c).closed ≡ false
unfolding Kept
Kept-open heap heap' kept c e = (kept c).0 ∙ e

module _ {K : Type 0} (P Q : K → List ℕ → Type 0) where
  pub Every-impl :
      (m : List (K × List ℕ)) → ((k : K) (cs : List ℕ) → P k cs → Q k cs) → Every P m → Every Q m
  Every-impl [] f h = tt
  Every-impl ((k, cs) ∷ m) f (p, h) = (f k cs p, Every-impl m f h)

pub Inv-Kept :
    (h h' : Hub)
    → Kept h.heap h'.heap
    → h'.clients ≡ h.clients
    → h'.room_clients ≡ h.room_clients
    → h'.user_clients ≡ h.user_clients
    → Inv h
    → Inv h'
unfolding Kept
Inv-Kept h h' kept e1 e2 e3 inv = record {
  clients_live = rw e1 (Live-Kept h.heap h'.heap h.clients kept inv.clients_live);
  rooms_live = rw e2 (
      Every-impl (λ room cs. Live h.heap cs) (λ room cs. Live h'.heap cs) h.room_clients
        (λ room cs l. Live-Kept h.heap h'.heap cs kept l) inv.rooms_live);
  users_live = rw e3 (
      Every-impl (λ u cs. (0 < u) × Live h.heap cs × All (λ c. (h.heap c).user_id ≡ u) cs)
        (λ u cs. (0 < u) × Live h'.heap cs × All (λ c. (h'.heap c).user_id ≡ u) cs) h.user_clients
        (λ u cs (z, l, o). (
          z,
          Live-Kept h.heap h'.heap cs kept l,
          All-impl (λ c. (h.heap c).user_id ≡ u) (λ c. (h'.heap c).user_id ≡ u) cs
              (λ c e. (kept c).1 ∙ e) o,
        ))
        inv.users_live);
}

pub Kept-set_client :
    (x : ℕ) (v : Client) (heap : ℕ → Client) → SameAt x v heap → Kept heap (set_client x v heap)
unfolding Kept
Kept-set_client x v heap same = λ c. closed-set_client x v heap c same
