-- ===== src/Store/Disks.antt =====
-- internal/store/memory.go: the methods on disks.
use Prim.Native.String.{◌++◌}
use xiesg0915_work.Prelude.{
  String, Bool, none, some, List, ◌==◌, ◌||◌, lookup, put, has, values, select, sort_slice, ltb,
  if◌then◌else◌,
}
use xiesg0915_work.Result.{not_found, ok, err, Exec}
use xiesg0915_work.Domain.Status.{DiskStatus, disk_status_text}
use xiesg0915_work.Domain.Entities.{Disk, Detail}
use xiesg0915_work.Store.State.{Memory, Env, or_fresh, entry, append_audit_locked}

-- Disk{}
abbrev pub zero_disk : Disk
zero_disk = record {
  id = "";
  asset_id = "";
  serial = "";
  model = "";
  kind = "";
  capacity_gb = 0;
  device_path = "";
  slot = "";
  status = DiskStatus.unset;
  pulled_by = "";
  pulled_at = none;
  created_at = 0;
}

-- The disk as CreateDisk stores it.
abbrev pub new_disk : Env → Disk → Disk
new_disk env d = record d { id = or_fresh d.id env.fresh_id; created_at = env.now }

unfoldable pub create_disk : Env → Disk → Exec Memory (Unit {0})
create_disk env d m =
    let d' = new_disk env d in
    if has d.asset_id m.assets
    then (ok tt, record m { disks = put d'.id d' m.disks })
    else (err (not_found "asset"), m)

unfoldable pub get_disk : String → Exec Memory Disk
get_disk id m = elim (lookup id m.disks) [ none ↦ (err (not_found "disk"), m) | some d ↦ (ok d, m) ]

abbrev pub older_disk : Disk → Disk → Bool
older_disk a b = ltb a.created_at b.created_at

unfoldable pub list_disks : String → Exec Memory (List Disk)
unfolding sort_slice
list_disks asset_id m = (
  ok (
      sort_slice older_disk
        (select (λ d. asset_id == "" || d.asset_id == asset_id) (values m.disks))),
  m,
)

unfoldable pub update_disk_status :
    Env → String → DiskStatus → String → Detail → Exec Memory (Unit {0})
update_disk_status env id status actor detail m = elim (lookup id m.disks) [
  | none ↦ (err (not_found "disk"), m)
  | some d ↦ (
    ok tt,
    append_audit_locked env
        (entry actor ("disk.status:" ++ disk_status_text status) "disk" id detail)
        (record m { disks = put id (record d { status = status }) m.disks }),
  )
]
