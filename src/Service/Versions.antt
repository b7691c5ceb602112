-- ===== src/Service/Versions.antt =====
-- The version of a request: higher than that of every request of the asset before it.
use xiesg0915_work.Prelude.{ℕ, ◌+◌, ◌≤◌, ◌<◌, List, [], ◌∷◌, All, leb, if◌then◌else◌, arith}
use xiesg0915_work.Domain.Entities.{DecommissionApproval}
use xiesg0915_work.Service.Requests.{next_version}

next_version-ge : (v : ℕ) (ps : List DecommissionApproval) → v ≤ next_version v ps
unfolding next_version
next_version-ge v [] = omega arith
next_version-ge v (p ∷ ps) =
    ground (arith, next_version-ge (p.version + 1) ps, next_version-ge v ps)

-- The version that a submission takes is at least 1 and higher than that of every listed request.
next_version-gt :
    (v : ℕ) (ps : List DecommissionApproval)
    → (v ≤ next_version v ps) × All (λ p. p.version < next_version v ps) ps
unfolding next_version
next_version-gt v [] = (omega arith, tt)
next_version-gt v (p ∷ ps) =
    let v' = if leb v p.version then p.version + 1 else v in
    let rest = next_version-gt v' ps in
    (ground (arith, next_version-ge v' ps), (ground (arith, next_version-ge v' ps), rest.1))
