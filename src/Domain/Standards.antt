-- ===== src/Domain/Standards.antt =====
-- internal/domain/standards.go: the built-in overwrite standards.
use xiesg0915_work.Prelude.{
  ℕ, suc, ◌<◌, ◌≡◌, ◌⊎◌, String, Option, none, some, List, [], ◌∷◌, ◌==◌, length, arith, eq_iff,
  if◌then◌else◌,
}
use xiesg0915_work.Domain.Entities.{PassSpec, Standard}

abbrev zeros_pass : ℕ → PassSpec
zeros_pass i = record { index = i; pattern = "zeros" }

abbrev ones_pass : ℕ → PassSpec
ones_pass i = record { index = i; pattern = "ones" }

abbrev random_pass : ℕ → PassSpec
random_pass i = record { index = i; pattern = "random" }

abbrev pub nist_clear : Standard
nist_clear = record {
  code = "nist_clear";
  name = "NIST 800-88 Clear";
  description = "全盘单次零覆写 + 全盘复验（适用于介质在本组织内复用）";
  passes = zeros_pass 0 ∷ [];
  verify_mode = "full";
}

abbrev pub nist_purge : Standard
nist_purge = record {
  code = "nist_purge";
  name = "NIST 800-88 Purge";
  description = "0xFF 覆写、随机覆写、0x00 覆写三道 + 全盘复验（用于介质离开组织）";
  passes = ones_pass 0 ∷ random_pass 1 ∷ zeros_pass 2 ∷ [];
  verify_mode = "full";
}

abbrev pub dod_3pass : Standard
dod_3pass = record {
  code = "dod_3pass";
  name = "DoD 5220.22-M (3-pass)";
  description = "零/一/随机三道覆写 + 全盘复验（常见合同要求）";
  passes = zeros_pass 0 ∷ ones_pass 1 ∷ random_pass 2 ∷ [];
  verify_mode = "full";
}

abbrev pub sample_quick : Standard
sample_quick = record {
  code = "sample_quick";
  name = "快速擦除(单零+抽样复验)";
  description = "全盘单次零覆写 + 抽样复验（仅用于低密级演示/演练）";
  passes = zeros_pass 0 ∷ [];
  verify_mode = "sample";
}

-- GetStandard; `none` is its error.
unfoldable pub get_standard : String → Option Standard
get_standard code =
    if code == "nist_clear"
    then some nist_clear
    else if code == "nist_purge"
    then some nist_purge
    else if code == "dod_3pass"
    then some dod_3pass
    else if code == "sample_quick"
    then some sample_quick
    else none

-- ListStandards before the order that the iteration over the map gives it.
abbrev pub standards : List Standard
standards = nist_clear ∷ nist_purge ∷ dod_3pass ∷ sample_quick ∷ []

-- A pattern that the engine can write.
abbrev pub IsKnownPattern : String → Type 0
IsKnownPattern p = (p ≡ "zeros") ⊎ (p ≡ "ones") ⊎ (p ≡ "random")

-- Pass i has the index i and a pattern that the engine can write.
abbrev pub Numbered : ℕ → List PassSpec → Type 0
Numbered i [] = Unit
Numbered i (p ∷ ps) = (p.index ≡ i) × IsKnownPattern p.pattern × Numbered (suc i) ps

-- A standard that is found has the code that was asked for and at least one pass; its passes are
-- numbered from 0 in their order, each with a pattern that the engine knows.
pub get_standard-Numbered :
    (code : String) (s : Standard)
    → get_standard code ≡ some s
    → (s.code ≡ code) × (0 < length s.passes) × Numbered 0 s.passes
unfolding get_standard
get_standard-Numbered code s h = ground (
  arith,
  eq_iff code "nist_clear",
  eq_iff code "nist_purge",
  eq_iff code "dod_3pass",
  eq_iff code "sample_quick",
)
