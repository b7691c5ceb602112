-- ===== src/Service/Signing.antt =====
-- What a disposal that the service signs leaves in the store.
use xiesg0915_work.Prelude.{
  String, ◌≡◌, refl, subst, inl, inr, none, some, eq_refl, lookup, lookup-put, arith, Option-cases,
  Bool-cases,
}
use xiesg0915_work.Result.{ok, Result-cases}
use xiesg0915_work.Domain.Status.{AssetStatus, can_transition_asset}
use xiesg0915_work.Domain.Entities.{Asset, DecommissionApproval, DisposalConfirmation}
use xiesg0915_work.Store.State.{Memory, Env}
use xiesg0915_work.Store.Assets.{get_asset}
use xiesg0915_work.Store.Documents.{signed, save_disposal, get_disposal}
use xiesg0915_work.Service.Requests.{Envs, approved_approval}
use xiesg0915_work.Service.Execution.{
  DisposalInput, confirmation, confirm_disposal, ready_for_disposal,
}
use xiesg0915_work.Service.Gates.{approved_approval-state}
use xiesg0915_work.Service.Disposal.{ready_for_disposal-cases}

-- The asset of that identifier is disposed.
pub record IsDisposed (asset_id : String) (m : Memory) : Type 0 where
  pub asset : Asset
  pub stored : lookup asset_id m.assets ≡ some asset
  pub status : asset.status ≡ AssetStatus.disposed

save_disposal-ok :
    (env : Env) (d : DisposalConfirmation) (m : Memory)
    → (save_disposal env d m).0 ≡ ok tt
    → (lookup d.asset_id m.disposals ≡ none)
      × (lookup d.asset_id (save_disposal env d m).1.disposals ≡ some (signed env d))
      × IsDisposed d.asset_id (save_disposal env d m).1
unfolding save_disposal
save_disposal-ok env d m h = elim (Option-cases (lookup d.asset_id m.disposals)) [
  | inr (e, s) ↦ absurd (ground (arith, s))
  | inl n ↦ elim (Option-cases (lookup d.asset_id m.assets)) [
    | inl z ↦ absurd (ground (arith, n, z))
    | inr (a, f) ↦ elim (Bool-cases (can_transition_asset a.status AssetStatus.disposed)) [
      | inr b ↦ absurd (ground (arith, n, f, b))
      | inl b ↦
          let a' = record a { status = AssetStatus.disposed; updated_at = env.now } in
          (
            n,
            ground (
              arith,
              n,
              f,
              b,
              eq_refl d.asset_id,
              lookup-put d.asset_id d.asset_id (signed env d) m.disposals,
            ),
            record {
              asset = a';
              stored = ground (
                arith,
                n,
                f,
                b,
                eq_refl d.asset_id,
                lookup-put d.asset_id d.asset_id a' m.assets,
              );
              status = refl;
            },
          )
    ]
  ]
]

-- The last two calls of a confirmation that succeeds.
confirm_disposal-calls :
    (env : Envs) (asset_id : String) (i : DisposalInput) (m : Memory) (d : DisposalConfirmation)
    (a : Asset) (ap : DecommissionApproval)
    → lookup asset_id m.assets ≡ some a
    → (approved_approval asset_id m).0 ≡ ok ap
    → ready_for_disposal a.status m ≡ (ok tt, m)
    → (confirm_disposal env asset_id i m).0 ≡ ok d
    → let saved = save_disposal (env 0) (confirmation asset_id a i) m in
      (saved.0 ≡ ok tt)
      × ((get_disposal asset_id saved.1).0 ≡ ok d)
      × ((confirm_disposal env asset_id i m).1 ≡ (get_disposal asset_id saved.1).1)
unfolding confirm_disposal get_asset
confirm_disposal-calls env asset_id i m d a ap f e g h = (
  ground (arith, f, e, g, approved_approval-state asset_id m),
  ground (arith, f, e, g, approved_approval-state asset_id m),
  ground (arith, f, e, g, approved_approval-state asset_id m),
)

-- What the signature of `d` leads to from `m`, in `m'`.
pub record IsSigned (asset_id : String) (i : DisposalInput) (m : Memory) (d : DisposalConfirmation)
    (m' : Memory) : Type 0 where
  pub unsigned : lookup asset_id m.disposals ≡ none
  pub recorded : lookup asset_id m'.disposals ≡ some d
  pub disposed : IsDisposed asset_id m'
  pub method : d.method ≡ i.method
  pub receiver : d.receiver ≡ i.receiver
  pub operator : d.operator ≡ i.operator

get_disposal-found :
    (asset_id : String) (c d : DisposalConfirmation) (m : Memory)
    → lookup asset_id m.disposals ≡ some c
    → (get_disposal asset_id m).0 ≡ ok d
    → (c ≡ d) × ((get_disposal asset_id m).1 ≡ m)
unfolding get_disposal
get_disposal-found asset_id c d m f h = (ground (arith, f), ground (arith, f))

-- The last steps of a confirmation that succeeds, from the state that the signature leaves.
saved-IsSigned :
    (env : Envs) (asset_id : String) (i : DisposalInput) (m m' : Memory) (d : DisposalConfirmation)
    (a : Asset)
    → let saved = save_disposal (env 0) (confirmation asset_id a i) m in
      saved.0 ≡ ok tt
      → (get_disposal asset_id saved.1).0 ≡ ok d
      → m' ≡ (get_disposal asset_id saved.1).1
      → IsSigned asset_id i m d m'
saved-IsSigned env asset_id i m m' d a s g e =
    let c = confirmation asset_id a i in
    let saved = save_disposal-ok (env 0) c m s in
    let found =
      get_disposal-found asset_id (signed (env 0) c) d (save_disposal (env 0) c m).1 saved.1 g in
    rw (e, found.1)
      (subst (λ x. IsSigned asset_id i m x (save_disposal (env 0) c m).1) found.0
        (record {
          unsigned = saved.0;
          recorded = saved.1;
          disposed = saved.2;
          method = refl;
          receiver = refl;
          operator = refl;
        }))

-- A confirmation that succeeds is the asset's first: it was not signed before, the confirmation that
-- is returned is the one that the store keeps, with the method, the receiver and the operator that
-- were given, and the asset is disposed.
pub confirm_disposal-IsSigned :
    (env : Envs) (asset_id : String) (i : DisposalInput) (m : Memory) (d : DisposalConfirmation)
    → (confirm_disposal env asset_id i m).0 ≡ ok d
    → IsSigned asset_id i m d (confirm_disposal env asset_id i m).1
unfolding confirm_disposal get_asset
confirm_disposal-IsSigned env asset_id i m d h = elim (Option-cases (lookup asset_id m.assets)) [
  | inl n ↦ absurd (ground (arith, n))
  | inr (a, f) ↦ elim (ready_for_disposal-cases a.status m) [
    | inr (e, n) ↦ absurd (ground (arith, f, n))
    | inl (r, s) ↦ elim (Result-cases (approved_approval asset_id m).0) [
      | inr (e, n) ↦ absurd (ground (arith, f, r, n))
      | inl (ap, e) ↦
          let calls = confirm_disposal-calls env asset_id i m d a ap f e r h in
          saved-IsSigned env asset_id i m (confirm_disposal env asset_id i m).1 d a calls.0 calls.1
            calls.2
    ]
  ]
]
