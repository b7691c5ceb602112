-- ===== src/Store/Ledger.antt =====
-- internal/store/store.go, the interface Store: what its callers rely on, whichever store they are
-- given. A ledger is what they can read back, and a store's calls let it evolve.
use xiesg0915_work.Prelude.{
  String, ◌≡◌, Option, some, List, [], ◌∷◌, lookup, Extends, same, Extends-trans,
}
use xiesg0915_work.Domain.Entities.{
  Asset, Certificate, DisposalConfirmation, DecommissionApproval, ErasureRun, AuditLog,
}
use xiesg0915_work.Store.State.{Memory, Env}
use xiesg0915_work.Store.Jobs.{list_at}
use xiesg0915_work.Store.Commands.{Command, step}
use xiesg0915_work.Store.AppendOnly.{step-Keeps}
use xiesg0915_work.Store.AssetLife
use xiesg0915_work.Store.AssetLife.{step-LaterAsset}
use xiesg0915_work.Store.ApprovalLife
use xiesg0915_work.Store.ApprovalLife.{step-LaterApproval}

pub record Ledger : Type 0 where
  pub asset : String → Option Asset
  pub approval : String → Option DecommissionApproval
  pub certificate : String → Option Certificate
  pub disposal : String → Option DisposalConfirmation
  pub runs : String → List ErasureRun
  pub audit : List AuditLog

-- Everything that was issued, signed or recorded in `a` stands unchanged in `b`, and the assets
-- and requests of `a` are in `b`, in the same or in a later state.
pub record Evolves (a b : Ledger) : Type 0 where
  pub asset : (k : String) (x : Asset) → a.asset k ≡ some x → AssetLife.Advances x (b.asset k)
  pub approval :
      (k : String) (x : DecommissionApproval)
      → a.approval k ≡ some x
      → ApprovalLife.Advances x (b.approval k)
  pub certificate :
      (k : String) (c : Certificate) → a.certificate k ≡ some c → b.certificate k ≡ some c
  pub disposal :
      (k : String) (d : DisposalConfirmation) → a.disposal k ≡ some d → b.disposal k ≡ some d
  pub runs : (k : String) → Extends (a.runs k) (b.runs k)
  pub audit : Extends a.audit b.audit

pub Evolves-refl : (a : Ledger) → Evolves a a
Evolves-refl a = record {
  asset = λ k x e. rw e (AssetLife.Later-refl x);
  approval = λ k x e. rw e (ApprovalLife.Later-refl x);
  certificate = λ k c e. e;
  disposal = λ k d e. e;
  runs = λ k. same;
  audit = same;
}

pub Evolves-trans : (a b c : Ledger) → Evolves a b → Evolves b c → Evolves a c
Evolves-trans a b c f g = record {
  asset = λ k x e. AssetLife.Advances-then x (b.asset k) (c.asset k) (f.asset k x e) (g.asset k);
  approval = λ k x e.
      ApprovalLife.Advances-then x (b.approval k) (c.approval k) (f.approval k x e) (g.approval k);
  certificate = λ k x e. g.certificate k x (f.certificate k x e);
  disposal = λ k x e. g.disposal k x (f.disposal k x e);
  runs = λ k. Extends-trans (f.runs k) (g.runs k);
  audit = Extends-trans f.audit g.audit;
}

-- A store: its state, its calls, those that are admitted, and the ledger that is read of it.
pub record LedgerStore (S C : Type 0) : Type 1 where
  pub step : C → S → S
  pub ledger : S → Ledger
  pub Admits : C → S → Type 0
  pub evolves : (c : C) (s : S) → Admits c s → Evolves (ledger s) (ledger (step c s))

module _ {S C : Type 0} (store : LedgerStore S C) where
  unfoldable pub run_calls : List C → S → S
  run_calls [] s = s
  run_calls (c ∷ cs) s = run_calls cs (store.step c s)

  abbrev pub AllAdmitted : List C → S → Type 0
  AllAdmitted [] s = Unit
  AllAdmitted (c ∷ cs) s = store.Admits c s × AllAdmitted cs (store.step c s)

  pub run_calls-Evolves :
      (cs : List C) (s : S)
      → AllAdmitted cs s
      → Evolves (store.ledger s) (store.ledger (run_calls cs s))
  unfolding run_calls
  run_calls-Evolves [] s h = Evolves-refl (store.ledger s)
  run_calls-Evolves (c ∷ cs) s h =
      Evolves-trans (store.ledger s) (store.ledger (store.step c s)) _ (store.evolves c s h.0)
        (run_calls-Evolves cs (store.step c s) h.1)

-- The ledger of internal/store/memory.go.
abbrev pub memory_ledger : Memory → Ledger
memory_ledger m = record {
  asset = λ k. lookup k m.assets;
  approval = λ k. lookup k m.approvals;
  certificate = λ k. lookup k m.certs;
  disposal = λ k. lookup k m.disposals;
  runs = λ k. list_at k m.runs;
  audit = m.audit;
}

-- It admits the calls that take no identifier of an asset or of a request twice.
abbrev pub memory_store : LedgerStore Memory (Env × Command)
memory_store = record {
  step = λ c m. step c.0 c.1 m;
  ledger = memory_ledger;
  Admits = λ c m. AssetLife.IsFresh c.0 c.1 m × ApprovalLife.IsFresh c.0 c.1 m;
  evolves = λ c m h.
      (let kept = step-Keeps c.0 c.1 m in
        record {
          asset = λ k x e. step-LaterAsset c.0 c.1 m k x h.0 e;
          approval = λ k x e. step-LaterApproval c.0 c.1 m k x h.1 e;
          certificate = kept.certs;
          disposal = kept.disposals;
          runs = kept.runs;
          audit = kept.audit;
        });
}
