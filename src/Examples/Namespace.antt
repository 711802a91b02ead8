-- ===== src/Examples/Namespace.antt =====
-- The claim of a server's name.
use rcx_registry.Prelude.{◌≡◌, ◌↔◌, codes}
use rcx_registry.Prelude.Outcome.{ok}
use rcx_registry.Admin.Namespace.{classify_namespace}
use rcx_registry.Admin.Namespace.Control.{IsClaimOf}
use rcx_registry.Admin.Namespace.Classify.{classify_namespace_iff}
use rcx_registry.Examples.Control.{dns_claim}

classify_namespace_iff_example :
    (classify_namespace (codes "io.x.org/tool") ≡ ok dns_claim)
    ↔ IsClaimOf (codes "io.x.org/tool") dns_claim
classify_namespace_iff_example = classify_namespace_iff (codes "io.x.org/tool") dns_claim
