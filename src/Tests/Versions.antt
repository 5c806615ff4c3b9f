-- ===== src/Tests/Versions.antt =====
-- New versions of a shipped policy: backend/internal/policy/store.go.
use netra.Prelude.{◌≡◌, refl, true, some, [], ◌∷◌}
use netra.Policy.Defaults.{baseline_low}
use netra.Policy.Versions.{create}
use netra.Policy.History.{has_distinct_versions, create_distinct}
use netra.Tests.Device.{caseless}

create_distinct_example :
    has_distinct_versions (create true (baseline_low ∷ []) 9 5 (some 3) baseline_low).0 ≡ true
create_distinct_example = create_distinct true (baseline_low ∷ []) 9 5 (some 3) baseline_low refl
