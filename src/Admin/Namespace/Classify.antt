-- ===== src/Admin/Namespace/Classify.antt =====
-- Which claims `classify_namespace` of crates/rcx-registry-admin/src/lib.rs makes.
use mathlib.Core.Path.{subst}
use rcx_registry.Prelude.Texts.{strip_prefix, strip_prefix-append, split_once-append}
use rcx_registry.Prelude.{◌≡◌, ◌↔◌, refl, sym, ap, ◌∙◌, Bytes, bytes_eq}
use rcx_registry.Prelude.Outcome.{ok}
use rcx_registry.Admin.Namespace.{
  NamespaceKind, github, reverse_dns, anonymous, NamespaceClaim, github_prefix, anonymous_text,
  dns_prefix, dns_kind, namespace_kind, claim_of, classify_namespace,
}
use rcx_registry.Admin.Namespace.Control.{IsKind, IsClaimOf, classify_namespace-IsClaimOf}

namespace_kind-anonymous :
    namespace_kind anonymous_text (strip_prefix github_prefix anonymous_text) ≡ ok anonymous
unfolding namespace_kind strip_prefix bytes_eq
namespace_kind-anonymous = refl

namespace_kind-IsKind :
    (namespace : Bytes) (kind : NamespaceKind)
    → IsKind namespace kind
    → namespace_kind namespace (strip_prefix github_prefix namespace) ≡ ok kind
unfolding namespace_kind dns_kind
namespace_kind-IsKind namespace (github owner) h = rw (h, strip_prefix-append github_prefix owner)
namespace_kind-IsKind namespace (reverse_dns domain) (h, g, a) =
    rw (g, a, h, strip_prefix-append dns_prefix domain)
namespace_kind-IsKind namespace anonymous h =
    subst (λ n. namespace_kind n (strip_prefix github_prefix n) ≡ ok anonymous) (sym h)
      namespace_kind-anonymous

-- `classify_namespace` makes a claim exactly if the name is the claim's namespace, which has no `/`, a
-- `/` and a rest, the claim's server is the name, and the namespace is spelled as its kind demands:
-- `io.github.` and the owner, the anonymous namespace, or `io.` and a domain where it is neither of these.
pub classify_namespace_iff :
    (server : Bytes) (claim : NamespaceClaim)
    → (classify_namespace server ≡ ok claim) ↔ IsClaimOf server claim
unfolding classify_namespace claim_of
classify_namespace_iff server claim = (
  classify_namespace-IsClaimOf server claim,
  λ c.
      rw
        (
          c.split,
          split_once-append b'/' claim.namespace c.rest c.no_slash,
          namespace_kind-IsKind claim.namespace claim.kind c.is_kind,
        )
        (ap (λ n. ok (record claim { server_name = n })) (sym c.split ∙ sym c.same_name)),
)
