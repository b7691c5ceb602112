-- ===== src/Store/Assets.antt =====
-- internal/store/memory.go: the methods on assets.
use text.Mathlib.Text.{find?}
use xiesg0915_work.Prelude.{
  ℕ, String, Bool, true, false, none, some, List, ◌==◌, ◌&&◌, ◌||◌, lookup, put, has, values,
  select, sort_slice, ltb, length, if◌then◌else◌,
}
use xiesg0915_work.Result.{not_found, conflict, ok, err, Exec}
use xiesg0915_work.Domain.Status.{AssetStatus, same_asset_status, can_transition_asset}
use xiesg0915_work.Domain.Entities.{Asset, registered, Detail}
use xiesg0915_work.Store.State.{Memory, Env, or_fresh, entry, append_audit_locked, page}

-- Asset{}
abbrev pub zero_asset : Asset
zero_asset = record {
  id = "";
  tag = "";
  hostname = "";
  vendor = "";
  model = "";
  sn = "";
  room = "";
  rack = "";
  owner = "";
  status = AssetStatus.unset;
  registered_by = "";
  created_at = 0;
  updated_at = 0;
}

-- The asset as CreateAsset stores it.
abbrev pub new_asset : Env → Asset → Asset
new_asset env a = record a {
  id = or_fresh a.id env.fresh_id;
  created_at = env.now;
  updated_at = env.now;
}

unfoldable pub create_asset : Env → Asset → Exec Memory (Unit {0})
create_asset env a m =
    let a' = new_asset env a in
    if has a.tag m.tag_index then (err (conflict "asset tag already exists"), m) else (
      ok tt,
      append_audit_locked env
          (entry a.registered_by "asset.register" "asset" a'.id
            (registered a.tag a.vendor a.model a.sn))
          (record m { assets = put a'.id a' m.assets; tag_index = put a.tag a'.id m.tag_index }),
    )

unfoldable pub get_asset : String → Exec Memory Asset
get_asset id m = elim (lookup id m.assets) [
  | none ↦ (err (not_found "asset"), m)
  | some a ↦ (ok a, m)
]

-- A tag that leads to no asset gives the zero asset.
unfoldable pub get_asset_by_tag : String → Exec Memory Asset
get_asset_by_tag tag m = elim (lookup tag m.tag_index) [
  | none ↦ (err (not_found "asset tag"), m)
  | some id ↦ elim (lookup id m.assets) [ none ↦ (ok zero_asset, m) | some a ↦ (ok a, m) ]
]

pub record ListAssetsFilter : Type 0 where
  pub status : AssetStatus
  pub tag : String
  pub limit : ℕ
  pub offset : ℕ

-- strings.Contains
abbrev contains : String → String → Bool
contains s sub = elim (find? s sub) [ none ↦ false | some i ↦ true ]

abbrev pub asset_matches : ListAssetsFilter → Asset → Bool
asset_matches f a =
    (same_asset_status f.status AssetStatus.unset || same_asset_status a.status f.status)
    && (f.tag == "" || contains a.tag f.tag)

abbrev pub newer_asset : Asset → Asset → Bool
newer_asset a b = ltb b.created_at a.created_at

unfoldable pub list_assets : ListAssetsFilter → Exec Memory (List Asset × ℕ)
unfolding sort_slice page
list_assets f m =
    let out = sort_slice newer_asset (select (asset_matches f) (values m.assets)) in
    (ok (page f.offset f.limit out, length out), m)

unfoldable pub transition_asset :
    Env → String → AssetStatus → (actor action : String) → Detail → Exec Memory Asset
transition_asset env id to actor action detail m = elim (lookup id m.assets) [
  | none ↦ (err (not_found "asset"), m)
  | some a ↦
      let a' = record a { status = to; updated_at = env.now } in
      if can_transition_asset a.status to
      then (
        ok a',
        append_audit_locked env (entry actor action "asset" id detail)
            (record m { assets = put id a' m.assets }),
      )
      else (err (conflict "illegal asset transition"), m)
]
