-- ===== src/Jobs/Scheduler/Leader.antt =====
-- One leader at a time: instances on one server that answers, where no lease runs out unrenewed.
use text.Mathlib.TextPositions.{eq_refl}
use arcana_cloud_go.Base.{
  ℕ, ◌≡◌, refl, sym, ap, ◌∙◌, subst, String, Bool, true, false, Option, none, some, str_eq,
  str_eq_iff, if◌then◌else◌, Bool-cases, Option-cases, inl, inr, arith,
}
use arcana_cloud_go.Jobs.Redis.{
  Redis, IsUp, Db, Entry, Value, plain, blob, stamped, leader, put, erase, touch, is_text, is_some,
}
use arcana_cloud_go.Jobs.RedisQueue.{Codec}
use arcana_cloud_go.Jobs.Scheduler.{
  Scheduler, Encoders, Place, renewed_by, try_acquire_leadership, release_leadership,
}

module _ {D P : Type 0} (r : Redis D) (contents : r.State → Db D) (u : IsUp r contents)
    (codec : Codec D) (enc : Encoders P) where
  -- Whether the leader's key has the instance's id.
  abbrev pub leads_on : String → r.State → Bool
  leads_on id server = is_text id ((contents server).strings leader)

  -- The instance that has run may lead only with its id in the key; another's id goes from the key only
  -- if it was not there.
  abbrev pub Fair : Place r codec enc → Place r codec enc → Type 0
  Fair (s, server) (s', server') =
      (s'.instance_id ≡ s.instance_id)
      × (s'.is_leader ≡ true → leads_on s.instance_id server' ≡ true)
      × ((id : String)
          → leads_on id server ≡ true
          → str_eq id s.instance_id ≡ false
          → leads_on id server' ≡ true)

  value_text :
      (id : String) (v : Value D) (ttl : ℕ)
      → renewed_by r codec enc id (some (some v))
        ≡ is_text id (some (record { value = v; ttl = ttl }))
  unfolding renewed_by
  value_text id (plain t) ttl = refl
  value_text id (blob d) ttl = refl
  value_text id (stamped w t) ttl = refl

  -- The reply to GET, as a test on the key.
  renewed_by_text :
      (id : String) (o : Option (Entry D))
      → renewed_by r codec enc id (some (elim o [ none ↦ none | some e ↦ some e.value ]))
        ≡ is_text id o
  unfolding renewed_by
  renewed_by_text id none = refl
  renewed_by_text id (some e) = value_text id e.value e.ttl

  asks :
      (id : String) (server : r.State)
      → renewed_by r codec enc id (r.get leader server).0 ≡ leads_on id server
  asks id server =
      ap (renewed_by r codec enc id) (u.get_reply leader server)
      ∙ renewed_by_text id ((contents server).strings leader)

  acquire_free :
      (s : Scheduler P) (server : r.State)
      → (contents server).strings leader ≡ none
      → let w = try_acquire_leadership r codec enc (s, server) in
        (w.0 ≡ record s { is_leader = true })
        × (contents w.1
            ≡ put leader (plain s.instance_id) s.config.leader_lock_ttl (contents server))
  unfolding try_acquire_leadership
  acquire_free s server free =
      (simp (u.setnx_reply, free), simp (u.setnx_reply, free, u.setnx_leaves))

  acquire_held :
      (s : Scheduler P) (server : r.State)
      → is_some ((contents server).strings leader) ≡ true
      → let w = try_acquire_leadership r codec enc (s, server) in
        let mine = leads_on s.instance_id server in
        (w.0 ≡ record s { is_leader = mine })
        × (contents w.1 ≡ (
            if mine
            then touch leader s.config.leader_lock_ttl (contents server)
            else contents server))
  unfolding try_acquire_leadership
  acquire_held s server held =
      let s1 = (r.setnx leader (plain s.instance_id) s.config.leader_lock_ttl server).1 in
      let same : contents s1 ≡ contents server =
        u.setnx_leaves leader (plain s.instance_id) s.config.leader_lock_ttl server
        ∙ rw held refl in
      let asked = asks s.instance_id s1 ∙ ap (λ d. is_text s.instance_id (d.strings leader)) same in
      elim (Bool-cases (leads_on s.instance_id server)) [
        | inl mine ↦ (
          simp (u.setnx_reply, held, asked, mine),
          simp (u.setnx_reply, held, asked, mine, u.expire_leaves, u.get_leaves, same),
        )
        | inr other ↦ (
          simp (u.setnx_reply, held, asked, other),
          simp (u.setnx_reply, held, asked, other, u.get_leaves, same),
        )
      ]

  -- Only the key's owner deletes it.
  release_up :
      (s : Scheduler P) (server : r.State)
      → s.is_leader ≡ true
      → let w = release_leadership r codec enc (s, server) in
        (w.0 ≡ record s { is_leader = false })
        × (contents w.1 ≡ (
            if leads_on s.instance_id server
            then erase leader (contents server)
            else contents server))
  unfolding release_leadership
  release_up s server leads = elim (Bool-cases (leads_on s.instance_id server)) [
    | inl mine ↦ (
      simp (leads, asks s.instance_id server, mine),
      simp (leads, asks s.instance_id server, mine, u.del_leaves, u.get_leaves),
    )
    | inr other ↦ (
      simp (leads, asks s.instance_id server, other),
      simp (leads, asks s.instance_id server, other, u.get_leaves),
    )
  ]

  put_own :
      (id : String) (ttl : ℕ) (server server' : r.State)
      → contents server' ≡ put leader (plain id) ttl (contents server)
      → leads_on id server' ≡ true
  put_own id ttl server server' e = rw e (eq_refl id)

  touch_text :
      (id : String) (ttl : ℕ) (d : Db D)
      → is_text id ((touch leader ttl d).strings leader) ≡ is_text id (d.strings leader)
  touch_text id ttl d = ground arith

  two_values :
      (id other : String) (v : Value D) (ttl : ℕ)
      → is_text id (some (record { value = v; ttl = ttl })) ≡ true
      → is_text other (some (record { value = v; ttl = ttl })) ≡ true
      → id ≡ other
  two_values id other (plain t) ttl h k = ground (arith, str_eq_iff t id, str_eq_iff t other)
  two_values id other (blob d) ttl h k = cc
  two_values id other (stamped w t) ttl h k = cc

  -- A key that has one id has no other.
  pub two_ids :
      (id other : String) (o : Option (Entry D))
      → is_text id o ≡ true
      → is_text other o ≡ true
      → id ≡ other
  two_ids id other none h k = cc
  two_ids id other (some e) h k = two_values id other e.value e.ttl h k

  held_same :
      (s : Scheduler P) (server server' : r.State) (id : String)
      → contents server' ≡ (
          if leads_on s.instance_id server
          then touch leader s.config.leader_lock_ttl (contents server)
          else contents server)
      → leads_on id server' ≡ leads_on id server
  held_same s server server' id c = elim (Bool-cases (leads_on s.instance_id server)) [
    | inl mine ↦
        let touched : contents server' ≡ touch leader s.config.leader_lock_ttl (contents server) =
          c ∙ rw mine refl in
        ap (λ (d : Db D). is_text id (d.strings leader)) touched
        ∙ touch_text id s.config.leader_lock_ttl (contents server)
    | inr other ↦
        let kept : contents server' ≡ contents server = c ∙ rw other refl in
        ap (λ (d : Db D). is_text id (d.strings leader)) kept
  ]

  pub acquire-Fair :
      (s : Scheduler P) (server : r.State)
      → Fair (s, server) (try_acquire_leadership r codec enc (s, server))
  acquire-Fair s server = elim (Option-cases ((contents server).strings leader)) [
    | inl free ↦
        let (e, c) = acquire_free s server free in
        (
          ap (λ (x : Scheduler P). x.instance_id) e,
          λ l. put_own s.instance_id s.config.leader_lock_ttl server _ c,
          λ id h other. absurd (clash (sym h ∙ ap (is_text id) free)),
        )
    | inr (x, held) ↦
        let (e, c) = acquire_held s server (rw held refl) in
        let after = (try_acquire_leadership r codec enc (s, server)).1 in
        (
          ap (λ (x : Scheduler P). x.instance_id) e,
          λ l.
              held_same s server after s.instance_id c
              ∙ sym (ap (λ (x : Scheduler P). x.is_leader) e)
              ∙ l,
          λ id h other. held_same s server after id c ∙ h,
        )
  ]
    where
      clash : true ≡ false → ⊥
      clash h = cc

  erased :
      (s : Scheduler P) (server server' : r.State) (id : String)
      → contents server' ≡ (
          if leads_on s.instance_id server then erase leader (contents server) else contents server)
      → leads_on id server ≡ true
      → str_eq id s.instance_id ≡ false
      → leads_on id server' ≡ true
  erased s server server' id c h other = elim (Bool-cases (leads_on s.instance_id server)) [
    | inl mine ↦
        let same = two_ids id s.instance_id ((contents server).strings leader) h mine in
        ground (arith, str_eq_iff id s.instance_id)
    | inr not_mine ↦
        let kept : contents server' ≡ contents server = c ∙ rw not_mine refl in
        ap (λ (d : Db D). is_text id (d.strings leader)) kept ∙ h
  ]

  idle :
      (s : Scheduler P) (server : r.State)
      → s.is_leader ≡ false
      → release_leadership r codec enc (s, server) ≡ (s, server)
  unfolding release_leadership
  idle s server follows = rw follows refl

  pub release-Fair :
      (s : Scheduler P) (server : r.State)
      → Fair (s, server) (release_leadership r codec enc (s, server))
  release-Fair s server = elim (Bool-cases s.is_leader) [
    | inl leads ↦
        let (e, c) = release_up s server leads in
        (
          ap (λ (x : Scheduler P). x.instance_id) e,
          λ l. absurd (clash (sym l ∙ ap (λ (x : Scheduler P). x.is_leader) e)),
          λ id h other. erased s server _ id c h other,
        )
    | inr follows ↦
        subst (Fair (s, server)) (sym (idle s server follows))
          (refl, λ l. absurd (clash (sym l ∙ follows)), λ id h other. h)
  ]
    where
      clash : true ≡ false → ⊥
      clash h = cc
