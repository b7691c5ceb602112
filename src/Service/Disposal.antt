-- ===== src/Service/Disposal.antt =====
-- What must have happened before the service signs a disposal.
use xiesg0915_work.Prelude.{
  String, true, ◌&&◌, ◌||◌, ◌≡◌, refl, ◌⊎◌, inl, inr, some, ◌==◌, eq_iff, lookup, arith,
  Option-cases,
}
use xiesg0915_work.Result.{Error, ok, err, Result-cases}
use xiesg0915_work.Domain.Status.{AssetStatus, same_asset_status}
use xiesg0915_work.Domain.Entities.{Asset, DecommissionApproval, DisposalConfirmation}
use xiesg0915_work.Store.State.{Memory}
use xiesg0915_work.Store.Assets.{get_asset}
use xiesg0915_work.Service.Requests.{Envs, approved_approval}
use xiesg0915_work.Service.Execution.{DisposalInput, confirm_disposal, ready_for_disposal}
use xiesg0915_work.Service.Gates.{IsApproved, approved_approval-ok}

-- What lets an asset be disposed of.
pub record MayDispose (asset_id method : String) (m : Memory) : Type 0 where
  pub asset : Asset
  pub stored : lookup asset_id m.assets ≡ some asset
  pub ready : (asset.status ≡ AssetStatus.erasure_verified) ⊎ (asset.status ≡ AssetStatus.scrapped)
  pub approval : DecommissionApproval
  pub gate : IsApproved asset_id m approval
  pub method_approved :
      (method ≡ approval.method) ⊎ (asset.status ≡ AssetStatus.scrapped) × (method ≡ "destroy")

method_rule :
    (method approved : String) (s : AssetStatus)
    → (method == approved || same_asset_status s AssetStatus.scrapped && method == "destroy") ≡ true
    → (method ≡ approved) ⊎ (s ≡ AssetStatus.scrapped) × (method ≡ "destroy")
method_rule method approved s h = ground (arith, eq_iff method approved, eq_iff method "destroy")

pub ready_for_disposal-cases :
    (s : AssetStatus) (m : Memory)
    → ((ready_for_disposal s m ≡ (ok tt, m))
        × ((s ≡ AssetStatus.erasure_verified) ⊎ (s ≡ AssetStatus.scrapped)))
      ⊎ ((e : Error) × (ready_for_disposal s m ≡ (err e, m)))
unfolding ready_for_disposal
ready_for_disposal-cases AssetStatus.erasure_verified m = inl (refl, inl refl)
ready_for_disposal-cases AssetStatus.scrapped m = inl (refl, inr refl)
ready_for_disposal-cases AssetStatus.disposed m = inr (_, refl)
ready_for_disposal-cases _ m = inr (_, refl)

method_checked :
    (env : Envs) (asset_id : String) (i : DisposalInput) (m : Memory) (d : DisposalConfirmation)
    (a : Asset) (ap : DecommissionApproval)
    → lookup asset_id m.assets ≡ some a
    → (approved_approval asset_id m).0 ≡ ok ap
    → ready_for_disposal a.status m ≡ (ok tt, m)
    → (confirm_disposal env asset_id i m).0 ≡ ok d
    → (i.method == ap.method
        || same_asset_status a.status AssetStatus.scrapped && i.method == "destroy")
      ≡ true
unfolding confirm_disposal get_asset
method_checked env asset_id i m d a ap f e g h = ground (arith, f, e, g)

-- A disposal is signed only for an asset that is erased and verified, or scrapped, whose open
-- request security has approved, and with the approved method, or by destruction if the asset is
-- scrapped.
pub confirm_disposal_gate :
    (env : Envs) (asset_id : String) (i : DisposalInput) (m : Memory) (d : DisposalConfirmation)
    → (confirm_disposal env asset_id i m).0 ≡ ok d
    → MayDispose asset_id i.method m
unfolding confirm_disposal get_asset
confirm_disposal_gate env asset_id i m d h = elim (Option-cases (lookup asset_id m.assets)) [
  | inl n ↦ absurd (ground (arith, n))
  | inr (a, f) ↦ elim (ready_for_disposal-cases a.status m) [
    | inr (e, n) ↦ absurd (ground (arith, f, n))
    | inl (r, s) ↦ elim (Result-cases (approved_approval asset_id m).0) [
      | inr (e, n) ↦ absurd (ground (arith, f, r, n))
      | inl (ap, e) ↦ record {
        asset = a;
        stored = f;
        ready = s;
        approval = ap;
        gate = approved_approval-ok asset_id m ap e;
        method_approved =
            method_rule i.method ap.method a.status
              (method_checked env asset_id i m d a ap f e r h);
      }
    ]
  ]
]
