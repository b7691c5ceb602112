-- ===== src/Store/AssetLife.antt =====
-- What becomes of an asset that is in the store, over any calls of the store's methods.
use xiesg0915_work.Prelude.{
  String, Bool, true, false, ◌≡◌, refl, ap, subst, ◌==◌, eq_iff, none, some, List, [], ◌∷◌, Option,
  ◌⊎◌, inl, inr, Bool-cases, has, lookup, put, lookup-put, Table, if◌then◌else◌, arith,
}
use xiesg0915_work.Domain.Status.{AssetStatus, can_transition_asset}
use xiesg0915_work.Domain.Entities.{Time, Asset, Detail, DisposalConfirmation}
use xiesg0915_work.Domain.Lifecycle.{
  AssetEdge, AssetPath, here, onward, AssetPath-trans, can_transition_asset-edge,
}
use xiesg0915_work.Store.State.{Memory, Env, or_fresh}
use xiesg0915_work.Store.Assets
use xiesg0915_work.Store.Documents
use xiesg0915_work.Store.Commands.{Command, step, run}

-- `b` is `a` at a later time: its status has moved along the life, who and what it is stayed.
pub record Later (a b : Asset) : Type 0 where
  pub path : AssetPath a.status b.status
  pub tag : b.tag ≡ a.tag
  pub owner : b.owner ≡ a.owner
  pub sn : b.sn ≡ a.sn
  pub registered_by : b.registered_by ≡ a.registered_by
  pub created_at : b.created_at ≡ a.created_at

pub Later-refl : (a : Asset) → Later a a
Later-refl a = record {
  path = here;
  tag = refl;
  owner = refl;
  sn = refl;
  registered_by = refl;
  created_at = refl;
}

pub Later-moved :
    (a : Asset) (s : AssetStatus) (t : Time)
    → AssetPath a.status s
    → Later a (record a { status = s; updated_at = t })
Later-moved a s t p = record {
  path = p;
  tag = refl;
  owner = refl;
  sn = refl;
  registered_by = refl;
  created_at = refl;
}

pub Later-trans : {a b c : Asset} → Later a b → Later b c → Later a c
Later-trans {a} {b} {c} h g = record {
  path = AssetPath-trans h.path g.path;
  tag = cc;
  owner = cc;
  sn = cc;
  registered_by = cc;
  created_at = cc;
}

-- What is found is a later state of `a`, so something is found.
abbrev pub Advances : Asset → Option Asset → Type 0
Advances a none = ⊥
Advances a (some b) = Later a b

-- A registration does not reuse the identifier of an asset.
abbrev pub IsFresh : Env → Command → Memory → Type 0
IsFresh env (Command.create_asset a) m = lookup (or_fresh a.id env.fresh_id) m.assets ≡ none
IsFresh env _ m = Unit

abbrev pub AllFresh : List (Env × Command) → Memory → Type 0
AllFresh [] m = Unit
AllFresh ((env, c) ∷ rest) m = IsFresh env c m × AllFresh rest (step env c m)

pub edge_path : {s t : AssetStatus} → (s ≡ t) ⊎ AssetEdge s t → AssetPath s t
edge_path {s} (inl e) = subst (AssetPath s) e here
edge_path (inr e) = onward here e

-- The entry of `id` is overwritten by a later state of it.
pub Advances-put :
    (id k : String) (a b c : Asset) (t : Table Asset)
    → lookup id t ≡ some b
    → lookup k t ≡ some a
    → Later b c
    → Advances a (lookup k (put id c t))
Advances-put id k a b c t found h l = rw (lookup-put id k c t) (branch (id == k) refl)
  where
    branch : (q : Bool) → (id == k) ≡ q → Advances a (if q then some c else lookup k t)
    branch true e =
        subst (λ (x : Asset). Later x c) (ground (arith, ap (λ x. lookup x t) ((eq_iff id k).0 e)))
          l
    branch false e = rw h (Later-refl a)

-- An entry under a new identifier leaves the others.
pub Advances-new :
    (id k : String) (a c : Asset) (t : Table Asset)
    → lookup id t ≡ none
    → lookup k t ≡ some a
    → Advances a (lookup k (put id c t))
Advances-new id k a c t fresh h = rw (kept, h) (Later-refl a)
  where
    kept : lookup k (put id c t) ≡ lookup k t
    kept =
        ground
          (arith, lookup-put id k c t, eq_iff id k, fresh, ap (λ x. lookup x t) {x = id} {y = k})

transition_asset-Advances :
    (env : Env) (id : String) (to : AssetStatus) (actor action : String) (d : Detail) (m : Memory)
    (k : String) (a : Asset) (o : Option Asset)
    → lookup id m.assets ≡ o
    → lookup k m.assets ≡ some a
    → Advances a (lookup k (Assets.transition_asset env id to actor action d m).1.assets)
unfolding Assets.transition_asset
transition_asset-Advances env id to actor action d m k a none e h =
    rw (e, Assets.transition_asset) (rw h (Later-refl a))
transition_asset-Advances env id to actor action d m k a (some b) e h =
    rw (e, Assets.transition_asset)
      (elim (Bool-cases (can_transition_asset b.status to)) [
        | inl p ↦ rw p (
            Advances-put id k a b _ m.assets e h
              (Later-moved b to env.now (edge_path (can_transition_asset-edge b.status to p))))
        | inr p ↦ rw p (rw h (Later-refl a))
      ])

save_disposal-Advances :
    (env : Env) (d : DisposalConfirmation) (m : Memory) (k : String) (a : Asset) (o : Option Asset)
    → lookup d.asset_id m.assets ≡ o
    → lookup k m.assets ≡ some a
    → Advances a (lookup k (Documents.save_disposal env d m).1.assets)
unfolding Documents.save_disposal
save_disposal-Advances env d m k a none e h = elim (Bool-cases (has d.asset_id m.disposals)) [
  | inl p ↦ rw p (rw h (Later-refl a))
  | inr p ↦ rw (p, e, Documents.save_disposal) (rw h (Later-refl a))
]
save_disposal-Advances env d m k a (some b) e h = elim (Bool-cases (has d.asset_id m.disposals)) [
  | inl p ↦ rw p (rw h (Later-refl a))
  | inr p ↦
      rw (p, e, Documents.save_disposal)
        (elim (Bool-cases (can_transition_asset b.status AssetStatus.disposed)) [
          | inl q ↦ rw q (
              Advances-put d.asset_id k a b _ m.assets e h (
                Later-moved b AssetStatus.disposed env.now
                  (edge_path (can_transition_asset-edge b.status AssetStatus.disposed q))))
          | inr q ↦ rw q (rw h (Later-refl a))
        ])
]

create_asset-Advances :
    (env : Env) (c : Asset) (m : Memory) (k : String) (a : Asset)
    → lookup (or_fresh c.id env.fresh_id) m.assets ≡ none
    → lookup k m.assets ≡ some a
    → Advances a (lookup k (Assets.create_asset env c m).1.assets)
unfolding Assets.create_asset
create_asset-Advances env c m k a fresh h = elim (Bool-cases (has c.tag m.tag_index)) [
  | inl p ↦ rw p (rw h (Later-refl a))
  | inr p ↦ rw p (Advances-new (or_fresh c.id env.fresh_id) k a _ m.assets fresh h)
]

-- Every call leaves each asset of the store there, in the same or in a later state.
pub step-LaterAsset :
    (env : Env) (cmd : Command) (m : Memory) (k : String) (a : Asset)
    → IsFresh env cmd m
    → lookup k m.assets ≡ some a
    → Advances a (lookup k (step env cmd m).assets)
unfolding step
step-LaterAsset env (Command.create_asset c) m k a fresh h =
    create_asset-Advances env c m k a fresh h
step-LaterAsset env (Command.transition_asset id to actor action d) m k a fresh h =
    transition_asset-Advances env id to actor action d m k a (lookup id m.assets) refl h
step-LaterAsset env (Command.save_disposal d) m k a fresh h =
    save_disposal-Advances env d m k a (lookup d.asset_id m.assets) refl h
step-LaterAsset env cmd m k a fresh h = rw (assets_kept, h) (Later-refl a)
  where
    assets_kept : (step env cmd m).assets ≡ m.assets
    assets_kept = ground arith

pub Advances-trans : (a b : Asset) (o : Option Asset) → Later a b → Advances b o → Advances a o
Advances-trans a b none l h = h
Advances-trans a b (some c) l h = Later-trans l h

pub Advances-then :
    (a : Asset) (o p : Option Asset)
    → Advances a o
    → ((b : Asset) → o ≡ some b → Advances b p)
    → Advances a p
Advances-then a none p h rest = absurd h
Advances-then a (some b) p h rest = Advances-trans a b p h (rest b refl)

-- Over any calls of the store's methods that register no asset under an identifier in use, an
-- asset of the store stays in it, its status moves along the life from registration to disposal
-- and never against it, and its tag, owner, serial number, registrant and creation time stay.
pub run-LaterAsset :
    (calls : List (Env × Command)) (m : Memory) (k : String) (a : Asset)
    → AllFresh calls m
    → lookup k m.assets ≡ some a
    → Advances a (lookup k (run calls m).assets)
unfolding run
run-LaterAsset [] m k a fresh h = rw h (Later-refl a)
run-LaterAsset ((env, c) ∷ rest) m k a fresh h =
    Advances-then a (lookup k (step env c m).assets) _ (step-LaterAsset env c m k a fresh.0 h)
      (λ b e. run-LaterAsset rest (step env c m) k b fresh.1 e)
