-- ===== src/Domain/Lifecycle.antt =====
-- What the two transition tables allow over any number of steps.
use xiesg0915_work.Prelude.{ℕ, ◌≤◌, ◌<◌, ◌≡◌, refl, subst, ◌≢◌, ◌↔◌, ◌⊎◌, inl, inr, true, arith}
use xiesg0915_work.Domain.Status.{
  AssetStatus, ApprovalStatus, can_transition_asset, can_transition_approval,
}

-- The asset's life, from registration to disposal.
pub data AssetEdge : AssetStatus → AssetStatus → Type 0 where
  retire : AssetEdge AssetStatus.in_service AssetStatus.pending
  pull : AssetEdge AssetStatus.pending AssetStatus.disk_pulled
  erase : AssetEdge AssetStatus.disk_pulled AssetStatus.erasing
  give_up : AssetEdge AssetStatus.disk_pulled AssetStatus.scrapped
  finish : AssetEdge AssetStatus.erasing AssetStatus.erasure_verified
  scrap : AssetEdge AssetStatus.erasing AssetStatus.scrapped
  dispose : AssetEdge AssetStatus.erasure_verified AssetStatus.disposed
  destroy : AssetEdge AssetStatus.scrapped AssetStatus.disposed

-- Any number of edges.
pub data AssetPath (s : AssetStatus) : AssetStatus → Type 0 where
  here : AssetPath s s
  onward : {t u : AssetStatus} → AssetPath s t → AssetEdge t u → AssetPath s u

pub AssetPath-trans : {s t u : AssetStatus} → AssetPath s t → AssetPath t u → AssetPath s u
AssetPath-trans p here = p
AssetPath-trans p (onward q e) = onward (AssetPath-trans p q) e

ruleset edges = (retire, pull, erase, give_up, finish, scrap, dispose, destroy)

-- A permitted change of an asset's status leaves it alone or is one edge of the life.
pub can_transition_asset-edge :
    (s t : AssetStatus) → can_transition_asset s t ≡ true → (s ≡ t) ⊎ AssetEdge s t
unfolding can_transition_asset
can_transition_asset-edge s t h = grind (arith, edges)

-- Every edge of the life is permitted.
edge-can_transition_asset : {s t : AssetStatus} → AssetEdge s t → can_transition_asset s t ≡ true
unfolding can_transition_asset
edge-can_transition_asset retire = refl
edge-can_transition_asset _ = refl

self-can_transition_asset : (s : AssetStatus) → can_transition_asset s s ≡ true
unfolding can_transition_asset
self-can_transition_asset AssetStatus.unset = refl
self-can_transition_asset _ = refl

-- CanTransitionAsset accepts a change exactly when the status stays or moves along one edge of the
-- asset's life.
can_transition_asset_iff :
    (s t : AssetStatus) → (can_transition_asset s t ≡ true) ↔ ((s ≡ t) ⊎ AssetEdge s t)
can_transition_asset_iff s t = (can_transition_asset-edge s t, back)
  where
    back : (s ≡ t) ⊎ AssetEdge s t → can_transition_asset s t ≡ true
    back (inl e) = rw (← e) (self-can_transition_asset s)
    back (inr e) = edge-can_transition_asset e

-- What `disposed` was reached from.
last_before_disposed :
    {s t : AssetStatus}
    → AssetPath s t
    → t ≡ AssetStatus.disposed
    → (s ≡ AssetStatus.disposed)
      ⊎ AssetPath s AssetStatus.erasure_verified
      ⊎ AssetPath s AssetStatus.scrapped
last_before_disposed here h = inl h
last_before_disposed (onward p dispose) h = inr (inl p)
last_before_disposed (onward p destroy) h = inr (inr p)
last_before_disposed (onward p _) h = cc

-- How far a status lies along the life.
abbrev stage : AssetStatus → ℕ
stage AssetStatus.unset = 0
stage AssetStatus.in_service = 0
stage AssetStatus.pending = 1
stage AssetStatus.disk_pulled = 2
stage AssetStatus.erasing = 3
stage AssetStatus.erasure_verified = 4
stage AssetStatus.scrapped = 4
stage AssetStatus.disposed = 5

AssetEdge-stage : {s t : AssetStatus} → AssetEdge s t → stage s < stage t
AssetEdge-stage retire = omega arith
AssetEdge-stage _ = omega arith

pub AssetPath-stage : {s t : AssetStatus} → AssetPath s t → stage s ≤ stage t
AssetPath-stage here = omega arith
AssetPath-stage (onward p e) = omega (arith, AssetPath-stage p, AssetEdge-stage e)

-- A sequence of permitted changes, each judged by CanTransitionAsset.
pub data Changes (s : AssetStatus) : AssetStatus → Type 0 where
  start : Changes s s
  step : {t u : AssetStatus} → Changes s t → can_transition_asset t u ≡ true → Changes s u

extend : {s t u : AssetStatus} → AssetPath s t → (t ≡ u) ⊎ AssetEdge t u → AssetPath s u
extend {s} p (inl e) = subst (AssetPath s) e p
extend p (inr e) = onward p e

pub Changes-AssetPath : {s t : AssetStatus} → Changes s t → AssetPath s t
Changes-AssetPath start = here
Changes-AssetPath (step {t} {u} c h) =
    extend (Changes-AssetPath c) (can_transition_asset-edge t u h)

-- Whatever permitted changes an asset goes through, one that is disposed and was not so at first
-- has been erasure_verified or scrapped on the way.
disposed_needs_erasure :
    {s : AssetStatus}
    → Changes s AssetStatus.disposed
    → s ≢ AssetStatus.disposed
    → AssetPath s AssetStatus.erasure_verified ⊎ AssetPath s AssetStatus.scrapped
disposed_needs_erasure c h = elim (last_before_disposed (Changes-AssetPath c) refl) [
  | inl e ↦ absurd (h e)
  | inr r ↦ r
]

-- A life that has left a status by an edge never comes back to it.
pub no_way_back : {s t : AssetStatus} → AssetEdge s t → Changes t s → ⊥
no_way_back e c = omega (arith, AssetEdge-stage e, AssetPath-stage (Changes-AssetPath c))

-- An approval's status only ever leaves `pending` and `approved`, `approved` is reached from
-- `pending` alone, and a rejected or withdrawn request stays as it is.
can_transition_approval_lem :
    (s t : ApprovalStatus)
    → can_transition_approval s t ≡ true
    → (s ≡ t)
      ⊎ (s ≡ ApprovalStatus.pending) × (t ≢ ApprovalStatus.pending) × (t ≢ ApprovalStatus.unset)
      ⊎ (s ≡ ApprovalStatus.approved) × (t ≡ ApprovalStatus.withdrawn)
unfolding can_transition_approval
can_transition_approval_lem s t h = ground arith
