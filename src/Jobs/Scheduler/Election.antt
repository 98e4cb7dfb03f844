-- ===== src/Jobs/Scheduler/Election.antt =====
-- Elections among any number of instances on one server that answers, where no lease runs out
-- unrenewed.
use arcana_cloud_go.Base.{
  ℕ, ◌≡◌, sym, ap, ◌∙◌, String, true, false, ◌==◌, ==_iff, str_eq, str_eq_iff, if◌then◌else◌,
  Bool-cases, inl, inr, arith,
}
use arcana_cloud_go.Jobs.Redis.{Redis, IsUp, Db, leader, is_text}
use arcana_cloud_go.Jobs.RedisQueue.{Codec}
use arcana_cloud_go.Jobs.Scheduler.{
  Scheduler, Encoders, Place, try_acquire_leadership, release_leadership,
}
use arcana_cloud_go.Jobs.Scheduler.Leader.{leads_on, Fair, acquire-Fair, release-Fair, two_ids}

clash : true ≡ false → ⊥
clash h = cc

module _ {D P : Type 0} (r : Redis D) (contents : r.State → Db D) (u : IsUp r contents)
    (codec : Codec D) (enc : Encoders P) where
  pub record World : Type 0 where
    pub server : r.State
    pub instances : ℕ → Scheduler P

  -- One instance does something.
  abbrev pub acts : (Place r codec enc → Place r codec enc) → ℕ → World → World
  acts f i w = record {
    server = (f (w.instances i, w.server)).1;
    instances = λ j. if j == i then (f (w.instances i, w.server)).0 else w.instances j;
  }

  -- What can come of instances that start without leading, by elections, releases, and whatever else
  -- happens to the server that leaves the leader's key.
  pub data Reachable (names : ℕ → String) : World → Type 0 where
    begin :
        {w : World}
        → ((i : ℕ) → (w.instances i).instance_id ≡ names i)
        → ((i : ℕ) → (w.instances i).is_leader ≡ false)
        → Reachable names w
    elects :
        {w : World} (i : ℕ)
        → Reachable names w
        → Reachable names (acts (try_acquire_leadership r codec enc) i w)
    releases :
        {w : World} (i : ℕ)
        → Reachable names w
        → Reachable names (acts (release_leadership r codec enc) i w)
    others :
        {w : World} (server : r.State)
        → (contents server).strings leader ≡ (contents w.server).strings leader
        → Reachable names w
        → Reachable names (record w { server = server })

  abbrev Owned : (ℕ → String) → World → Type 0
  Owned names w =
      (i : ℕ)
      → ((w.instances i).instance_id ≡ names i)
        × ((w.instances i).is_leader ≡ true
            → leads_on r contents u codec enc (names i) w.server ≡ true)

  abbrev pub Distinct : (ℕ → String) → Type 0
  Distinct names = (i j : ℕ) → names i ≡ names j → i ≡ j

  apart :
      (names : ℕ → String) (i j : ℕ) (w : World)
      → Distinct names
      → (w.instances i).instance_id ≡ names i
      → (j == i) ≡ false
      → str_eq (names j) (w.instances i).instance_id ≡ false
  apart names i j w distinct named other =
      elim (Bool-cases (str_eq (names j) (w.instances i).instance_id)) [
        | inl same ↦
            let texts : names j ≡ (w.instances i).instance_id =
              ground (arith, str_eq_iff (names j) (w.instances i).instance_id) in
            let meet = distinct j i (texts ∙ named) in ground arith
        | inr differ ↦ differ
      ]

  acts-Owned :
      (names : ℕ → String) (f : Place r codec enc → Place r codec enc) (i : ℕ) (w : World)
      → Distinct names
      → Fair r contents u codec enc (w.instances i, w.server) (f (w.instances i, w.server))
      → Owned names w
      → Owned names (acts f i w)
  acts-Owned names f i w distinct (id, own, keep) h j = elim (Bool-cases (j == i)) [
    | inl same ↦
        let at_i : j ≡ i = ground (arith, ==_iff j i) in
        let named : (w.instances i).instance_id ≡ names j = (h i).0 ∙ ap names (sym at_i) in
        rw same (
          id ∙ named,
          λ l.
              ap (λ x. leads_on r contents u codec enc x (f (w.instances i, w.server)).1)
                (sym named)
              ∙ own l,
        )
    | inr other ↦
        rw other
          ((h j).0, λ l. keep (names j) ((h j).1 l) (apart names i j w distinct (h i).0 other))
  ]

  Reachable-Owned :
      (names : ℕ → String) {w : World} → Distinct names → Reachable names w → Owned names w
  Reachable-Owned names distinct (begin ids idle) i = (ids i, λ l. absurd (clash (sym l ∙ idle i)))
  Reachable-Owned names distinct (elects {w} i h) j =
      acts-Owned names (try_acquire_leadership r codec enc) i w distinct
        (acquire-Fair r contents u codec enc (w.instances i) w.server)
        (Reachable-Owned names distinct h) j
  Reachable-Owned names distinct (releases {w} i h) j =
      acts-Owned names (release_leadership r codec enc) i w distinct
        (release-Fair r contents u codec enc (w.instances i) w.server)
        (Reachable-Owned names distinct h) j
  Reachable-Owned names distinct (others {w} server same h) i =
      let (id, own) = Reachable-Owned names distinct h i in
      (id, λ l. ap (is_text (names i)) same ∙ own l)

  -- On a server that answers, and as long as the leader's key neither expires nor is written by others,
  -- two instances with distinct ids never lead at the same time, whatever elections and releases happen.
  pub one_leader :
      (names : ℕ → String) (w : World) (i j : ℕ)
      → Distinct names
      → Reachable names w
      → (w.instances i).is_leader ≡ true
      → (w.instances j).is_leader ≡ true
      → i ≡ j
  one_leader names w i j distinct h li lj =
      let owned = Reachable-Owned names distinct h in
      distinct i j (
        two_ids r contents u codec enc (names i) (names j) ((contents w.server).strings leader)
          ((owned i).1 li) ((owned j).1 lj))
