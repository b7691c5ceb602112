-- ===== src/Postgres/Transitions.antt =====
-- TransitionAsset of internal/store/memory.go and of internal/store/pg.go.
use xiesg0915_work.Prelude.{
  ◌∷◌, [], ◌++◌, String, true, false, ◌≡◌, refl, ◌∙◌, Option, none, some, Bool-cases, inl, inr,
  lookup, put, arith,
}
use xiesg0915_work.Result.{Exec, pure, ◌>>◌, not_found, conflict, ok, err}
use xiesg0915_work.Domain.Status.{AssetStatus, can_transition_asset}
use xiesg0915_work.Domain.Entities.{Asset, Detail}
use xiesg0915_work.Store.State.{Memory, Env, stamped, entry, append_audit_locked}
use xiesg0915_work.Store.Assets as Memory_assets
use xiesg0915_work.Postgres.Database.{Database, Wire, map_err}
use xiesg0915_work.Postgres.Statements.{is_asset_status, check_asset_transition}
use xiesg0915_work.Postgres.Assets
use xiesg0915_work.Postgres.Gives.{
  >>=-Gives, >>=-Fails, pure-Gives, transaction-Gives, transaction-Fails, IsUnused,
  append_audit_tx-Gives,
}
use xiesg0915_work.Postgres.Holding.{Queue, holding, Agree, agrees}
use xiesg0915_work.Postgres.Gives.{
  Gives, update_asset-Gives, update_asset-Fails, update_asset-missing, returned-Gives,
  returned-Fails,
}
use xiesg0915_work.Postgres.Statements.{moved_asset}

trigger_lem : (s t : AssetStatus) → check_asset_transition s t ≡ can_transition_asset s t
unfolding can_transition_asset
trigger_lem s t = ground arith

module _ (env : Env) (id : String) (to : AssetStatus) (actor action : String) (d : Detail)
    (m : Memory) where
  transition_missing :
      lookup id m.assets ≡ none
      → Memory_assets.transition_asset env id to actor action d m ≡ (err (not_found "asset"), m)
  unfolding Memory_assets.transition_asset
  transition_missing e = rw (e, Memory_assets.transition_asset) refl

  transition_refused :
      (a : Asset)
      → lookup id m.assets ≡ some a
      → can_transition_asset a.status to ≡ false
      → Memory_assets.transition_asset env id to actor action d m
        ≡ (err (conflict "illegal asset transition"), m)
  unfolding Memory_assets.transition_asset
  transition_refused a e c = rw (e, Memory_assets.transition_asset) (rw c refl)

  transition_done :
      (a : Asset)
      → lookup id m.assets ≡ some a
      → can_transition_asset a.status to ≡ true
      → Memory_assets.transition_asset env id to actor action d m ≡ (
        ok (moved_asset env to a),
        append_audit_locked env
            (entry actor action "asset" id d)
            (record m { assets = put id (moved_asset env to a) m.assets }),
      )
  unfolding Memory_assets.transition_asset
  transition_done a e c = rw (e, Memory_assets.transition_asset) (rw c refl)

-- The rest of the method behind the update.
abbrev logged : Env → (id actor action : String) → Detail → Asset → Exec Database Asset
logged env id actor action d a =
    Assets.append_audit_tx env (entry actor action "asset" id d) >> pure a

logged-Gives :
    (env : Env) (id actor action : String) (d : Detail) (a : Asset) (db : Database)
    → IsUnused env.log_id db
    → Gives
        (logged env id actor action d a)
        db
        (ok a, record db { audit = db.audit ++ stamped env (entry actor action "asset" id d) ∷ [] })
logged-Gives env id actor action d a db n =
    >>=-Gives _ _ (append_audit_tx-Gives env actor action "asset" id d db n) (pure-Gives a _)

-- TransitionAsset of both stores, to a status of the enum type.
pub transition_asset-Agree :
    (q : Queue) (env : Env) (id : String) (to : AssetStatus) (actor action : String) (d : Detail)
    (m : Memory) (o : Option Asset)
    → lookup id m.assets ≡ o
    → is_asset_status to ≡ true
    → IsUnused env.log_id (holding q m)
    → Agree q
        (Memory_assets.transition_asset env id to actor action d m)
        (Assets.transition_asset Wire.up env id to actor action d (holding q m))
unfolding Assets.transition_asset map_err
transition_asset-Agree q env id to actor action d m none e h n =
    agrees {y = (err (not_found "asset"), m)} _ (transition_missing env id to actor action d m e)
      (transaction-Fails _ (
        >>=-Gives _ _ (update_asset-missing env id to (holding q m) e h)
          (returned-Fails (logged env id actor action d) (holding q m))))
      refl refl
transition_asset-Agree q env id to actor action d m (some a) e h n =
    elim (Bool-cases (can_transition_asset a.status to)) [
      | inl c ↦
          agrees _ (transition_done env id to actor action d m a e c)
            (transaction-Gives _ (
              >>=-Gives _ _
                (update_asset-Gives env id to (holding q m) a e h (trigger_lem a.status to ∙ c))
                (returned-Gives (logged env id actor action d) (moved_asset env to a)
                  (logged-Gives env id actor action d (moved_asset env to a) _ n))))
            refl refl
      | inr c ↦
          agrees {y = (err (conflict "illegal asset transition"), m)} _
            (transition_refused env id to actor action d m a e c)
            (transaction-Fails _ (
              >>=-Fails _ _
                (update_asset-Fails env id to (holding q m) a e h (trigger_lem a.status to ∙ c))))
            refl refl
    ]
