-- ===== src/Partition/Lease/Exclusion.antt =====
-- internal/partition/lease.go: a lease that is held stays with its holder, whatever the other
-- instances do, until the holder releases it or Redis lets it expire.
use golang_predix.Common.{
  ◌≡◌, ◌≢◌, refl, ◌∙◌, true, false, none, some, List, [], ◌∷◌, All, Text, Text-discrete, arith,
  Bool-cases, inl, inr, sym, ap,
}
use golang_predix.Partition.Redis.{Redis}
use golang_predix.Partition.Lease.{Lease, acquire, renew, release, is_owner}

module _ (redis : Redis) where
  -- What an instance does with the lease of one key, or what Redis does with another key.
  pub data Action : Type 0 where
    acquires renews releases : Lease → Action
    expires : Text → Action

  unfoldable pub act : Action → redis.State → redis.State
  act (acquires l) s = (acquire redis l s).1
  act (renews l) s = (renew redis l s).1
  act (releases l) s = release redis l s
  act (expires k) s = redis.expire k s

  pub act_all : List Action → redis.State → redis.State
  act_all [] s = s
  act_all (a ∷ acts) s = act_all acts (act a s)

  -- The action is not the release of the lease by its holder, nor its expiry.
  abbrev pub IsForeign : Lease → Action → Type 0
  IsForeign l (acquires m) = Unit
  IsForeign l (renews m) = Unit
  IsForeign l (releases m) = m.key ≡ l.key → m.instance_id ≢ l.instance_id
  IsForeign l (expires k) = k ≢ l.key

  -- The instance of the lease holds its key.
  abbrev pub IsHeld : Lease → redis.State → Type 0
  IsHeld l s = redis.get l.key s ≡ some l.instance_id

  acquire_held :
      (l m : Lease) (s : redis.State) → IsHeld l s → m.key ≡ l.key → acquire redis m s ≡ (false, s)
  unfolding acquire
  acquire_held l m s h e =
      redis.set_nx_taken m.key m.instance_id l.instance_id m.ttl s (ap (λ k. redis.get k s) e ∙ h)

  is_owner_other : (u v : Text) → u ≢ v → is_owner (some u) v ≡ false
  unfolding is_owner
  is_owner_other u v n = ground arith

  is_owner_self : (u : Text) → is_owner (some u) u ≡ true
  unfolding is_owner
  is_owner_self u = ground arith

  renew_other :
      (l m : Lease) (s : redis.State)
      → IsHeld l s
      → m.key ≡ l.key
      → m.instance_id ≢ l.instance_id
      → (renew redis m s ≡ (false, s)) × (release redis m s ≡ s)
  unfolding renew release
  renew_other l m s h e n =
      rw
        (ap (λ k. redis.get k s) e ∙ h, is_owner_other l.instance_id m.instance_id (λ p. n (sym p)))
        (refl, refl)

  renew_self : (l : Lease) (s : redis.State) → IsHeld l s → (renew redis l s).0 ≡ true
  unfolding renew
  renew_self l s h = rw (h, is_owner_self) refl

  act-IsHeld :
      (l : Lease) (a : Action) (s : redis.State) → IsForeign l a → IsHeld l s → IsHeld l (act a s)
  unfolding act acquire renew release
  act-IsHeld l (acquires m) s f h = elim (Text-discrete l.key m.key) [
    | yes e ↦ rw (act, acquire_held l m s h (sym e)) h
    | no n ↦ redis.set_nx_others m.key m.instance_id l.key m.ttl s n ∙ h
  ]
  act-IsHeld l (renews m) s f h = elim (Bool-cases (is_owner (redis.get m.key s) m.instance_id)) [
    | inl own ↦ rw (act, renew, own) (redis.get_pexpire m.key l.key m.ttl s ∙ h)
    | inr other ↦ rw (act, renew, other) h
  ]
  act-IsHeld l (releases m) s f h = elim (Text-discrete l.key m.key) [
    | yes e ↦ rw (act, (renew_other l m s h (sym e) (f (sym e))).1) h
    | no n ↦ elim (Bool-cases (is_owner (redis.get m.key s) m.instance_id)) [
      | inl own ↦ rw (act, release, own) (ground (arith, redis.get_del m.key l.key s, h))
      | inr other ↦ rw (act, release, other) h
    ]
  ]
  act-IsHeld l (expires k) s f h = ground (arith, redis.get_expire k l.key s, h)

  act_all-IsHeld :
      (l : Lease) (acts : List Action) (s : redis.State)
      → All (IsForeign l) acts
      → IsHeld l s
      → IsHeld l (act_all acts s)
  unfolding act_all
  act_all-IsHeld l [] s fs h = h
  act_all-IsHeld l (a ∷ acts) s (f, fs) h =
      act_all-IsHeld l acts (act a s) fs (act-IsHeld l a s f h)

  -- An instance that acquires a free key holds it through any actions of any instances that are neither its own release
  -- nor the expiry: it can renew, and another instance cannot acquire, renew or release the key. Nor is it acquired twice.
  pub acquire_is_exclusive :
      (l m : Lease) (acts : List Action) (s : redis.State)
      → redis.get l.key s ≡ none
      → All (IsForeign l) acts
      → m.key ≡ l.key
      → m.instance_id ≢ l.instance_id
      → let s' = act_all acts (acquire redis l s).1 in
        ((acquire redis l s).0 ≡ true)
        × ((renew redis l s').0 ≡ true)
        × (acquire redis l s' ≡ (false, s'))
        × (acquire redis m s' ≡ (false, s'))
        × (renew redis m s' ≡ (false, s'))
        × (release redis m s' ≡ s')
  unfolding acquire
  acquire_is_exclusive l m acts s free fs e n =
      let (got, mine) = redis.set_nx_free l.key l.instance_id l.ttl s free in
      let held = act_all-IsHeld l acts (acquire redis l s).1 fs mine in
      let (refused, kept) = renew_other l m _ held e n in
      (
        got,
        renew_self l _ held,
        acquire_held l l _ held refl,
        acquire_held l m _ held e,
        refused,
        kept,
      )

  -- After a release by the holder, or the expiry of its lease, another instance acquires the key at once, and what the
  -- old holder still does with it changes nothing.
  pub failover :
      (l m : Lease) (s : redis.State)
      → IsHeld l s
      → m.key ≡ l.key
      → l.instance_id ≢ m.instance_id
      → let after_release = acquire redis m (release redis l s) in
        let after_expiry = acquire redis m (redis.expire l.key s) in
        (after_release.0 ≡ true)
        × (after_expiry.0 ≡ true)
        × (renew redis l after_release.1 ≡ (false, after_release.1))
        × (release redis l after_release.1 ≡ after_release.1)
        × (renew redis l after_expiry.1 ≡ (false, after_expiry.1))
        × (release redis l after_expiry.1 ≡ after_expiry.1)
  unfolding acquire
  failover l m s h e n =
      let released : redis.get m.key (release redis l s) ≡ none =
        unfold release in rw (h, is_owner_self) (ground (arith, redis.get_del l.key m.key s)) in
      let expired : redis.get m.key (redis.expire l.key s) ≡ none =
        ground (arith, redis.get_expire l.key m.key s) in
      let (got, mine) = redis.set_nx_free m.key m.instance_id m.ttl (release redis l s) released in
      let (got', mine') =
        redis.set_nx_free m.key m.instance_id m.ttl (redis.expire l.key s) expired in
      let (r, d) = renew_other m l _ mine (sym e) n in
      let (r', d') = renew_other m l _ mine' (sym e) n in (got, got', r, d, r', d')
