-- ===== src/Admin/Namespace/Control.antt =====
-- `classify_namespace`, `verify_github_passport` and `verify_dns_txt` together.
use mathlib.Core.List.{Memᴰ}
use mathlib.Core.Path.{subst}
use rcx_registry.Prelude.Texts.{
  strip_prefix, split_once, contains_byte, strip_prefix-eq-some, split_once-eq-some,
}
use rcx_registry.Prelude.{
  ◌≡◌, refl, sym, ap, ◌∙◌, true, false, inl, inr, Option, none, some, List, [], ◌∷◌, ◌++◌, Bytes,
  bytes_eq, eq_of_bytes_eq, Bool-cases, arith,
}
use rcx_registry.Prelude.Outcome.{Outcome, ok, >>=-eq-ok}
use rcx_registry.Admin.Namespace.{
  NamespaceKind, github, reverse_dns, anonymous, NamespaceClaim, AdminError, DnsTxtChallenge,
  github_prefix, anonymous_text, dns_prefix, passport_prefix, dns_kind, namespace_kind, claim_of,
  classify_namespace, github_passport, verify_github_passport, dns_txt_challenge, observed,
  dns_txt_of, verify_dns_txt,
}

-- How a namespace of a kind is spelled; those of GitHub and the anonymous one are of no other kind.
abbrev pub IsKind : Bytes → NamespaceKind → Type 0
IsKind namespace (github owner) = namespace ≡ github_prefix ++ owner
IsKind namespace (reverse_dns domain) =
    (namespace ≡ dns_prefix ++ domain)
    × (strip_prefix github_prefix namespace ≡ none)
    × (bytes_eq namespace anonymous_text ≡ false)
IsKind namespace anonymous = namespace ≡ anonymous_text

same_kind :
    (o : Outcome AdminError NamespaceKind) (a b : NamespaceKind) → o ≡ ok a → o ≡ ok b → a ≡ b
same_kind o a b h k = cc

dns_kind_sound :
    (namespace : Bytes) (o : Option Bytes) (kind : NamespaceKind)
    → ((domain : Bytes) → o ≡ some domain → namespace ≡ dns_prefix ++ domain)
    → strip_prefix github_prefix namespace ≡ none
    → bytes_eq namespace anonymous_text ≡ false
    → dns_kind namespace o ≡ ok kind
    → IsKind namespace kind
unfolding dns_kind
dns_kind_sound namespace none kind spelled g a h = cc
dns_kind_sound namespace (some domain) kind spelled g a h =
    subst (IsKind namespace) (same_kind _ (reverse_dns domain) kind refl h)
      (spelled domain refl, g, a)

namespace_kind_sound :
    (namespace : Bytes) (o : Option Bytes) (kind : NamespaceKind)
    → strip_prefix github_prefix namespace ≡ o
    → namespace_kind namespace o ≡ ok kind
    → IsKind namespace kind
unfolding namespace_kind
namespace_kind_sound namespace (some owner) kind e h =
    subst (IsKind namespace) (same_kind _ (github owner) kind refl h)
      (strip_prefix-eq-some github_prefix namespace owner e)
namespace_kind_sound namespace none kind e h =
    elim (Bool-cases (bytes_eq namespace anonymous_text)) [
      | inl y ↦
          subst (IsKind namespace) (same_kind _ anonymous kind refl (rw y at h))
            (eq_of_bytes_eq namespace anonymous_text y)
      | inr n ↦
          dns_kind_sound namespace (strip_prefix dns_prefix namespace) kind
            (λ domain d. strip_prefix-eq-some dns_prefix namespace domain d) e n (rw n at h)
    ]

-- A claim of a server's name: the namespace is what stands before the first `/`.
pub record IsClaimOf (server : Bytes) (claim : NamespaceClaim) : Type 0 where
  pub rest : Bytes
  pub split : server ≡ claim.namespace ++ b'/' ∷ rest
  pub no_slash : contains_byte b'/' claim.namespace ≡ false
  pub same_name : claim.server_name ≡ server
  pub is_kind : IsKind claim.namespace claim.kind

same_claim :
    (o : Outcome AdminError NamespaceClaim) (a b : NamespaceClaim) → o ≡ ok a → o ≡ ok b → a ≡ b
same_claim o a b h k = cc

claim_sound :
    (server : Bytes) (o : Option (Bytes × Bytes)) (claim : NamespaceClaim)
    → split_once b'/' server ≡ o
    → claim_of server o ≡ ok claim
    → IsClaimOf server claim
unfolding claim_of
claim_sound server none claim e h = cc
claim_sound server (some (namespace, rest)) claim e h =
    let (kind, k, h') =
      >>=-eq-ok (namespace_kind namespace (strip_prefix github_prefix namespace)) _ h in
    let (s, n) = split_once-eq-some b'/' server namespace rest e in
    subst (IsClaimOf server)
      (same_claim _ (record { namespace = namespace; server_name = server; kind = kind }) claim refl
        h')
      (record {
        rest = rest;
        split = s;
        no_slash = n;
        same_name = refl;
        is_kind = namespace_kind_sound namespace _ kind refl k;
      })

-- A claim that `classify_namespace` returns has the server's name, its namespace is what stands before
-- the first `/` of it, and the namespace is spelled as its kind is, and as no earlier kind.
pub classify_namespace-IsClaimOf :
    (server : Bytes) (claim : NamespaceClaim)
    → classify_namespace server ≡ ok claim
    → IsClaimOf server claim
unfolding classify_namespace
classify_namespace-IsClaimOf server claim h =
    claim_sound server (split_once b'/' server) claim refl h

passport_sound :
    (namespace passport : Bytes) (kind : NamespaceKind)
    → github_passport namespace passport kind ≡ ok tt
    → IsKind namespace kind
    → (owner : Bytes) × (namespace ≡ github_prefix ++ owner) × (passport ≡ passport_prefix ++ owner)
unfolding github_passport
passport_sound namespace passport (github owner) h k =
    (owner, k, ground (arith, eq_of_bytes_eq passport (passport_prefix ++ owner)))
passport_sound namespace passport (reverse_dns domain) h k = cc
passport_sound namespace passport anonymous h k = cc

-- If a server's name is classified and `verify_github_passport` accepts a passport for the claim, then
-- the name is `io.github.`, an owner, `/` and a rest, and the passport is `passport:github:` and the
-- owner.
pub verify_github_passport-classify_namespace :
    (server passport : Bytes) (claim : NamespaceClaim)
    → classify_namespace server ≡ ok claim
    → verify_github_passport claim passport ≡ ok tt
    → (owner : Bytes) × (rest : Bytes) × (server ≡ (github_prefix ++ owner) ++ b'/' ∷ rest)
      × (passport ≡ passport_prefix ++ owner)
unfolding verify_github_passport
verify_github_passport-classify_namespace server passport claim h k =
    let c = classify_namespace-IsClaimOf server claim h in
    let (owner, n, e) = passport_sound claim.namespace passport claim.kind k c.is_kind in
    (owner, c.rest, c.split ∙ ap (λ n. n ++ b'/' ∷ c.rest) n, e)

observed_sound : (v : Bytes) (vs : List Bytes) → observed v vs ≡ true → Memᴰ v vs
unfolding observed
observed_sound v [] h = cc
observed_sound v (w ∷ vs) h = elim (Bool-cases (bytes_eq w v)) [
  | inl y ↦ Memᴰ.head (sym (eq_of_bytes_eq w v y))
  | inr n ↦ Memᴰ.tail (observed_sound v vs (ground arith))
]

-- What a DNS challenge that was met shows of a namespace.
pub record IsMet (namespace fingerprint : Bytes) (values : List Bytes) (challenge : DnsTxtChallenge)
    : Type 0 where
  pub domain : Bytes
  pub spelled : namespace ≡ dns_prefix ++ domain
  pub not_github : strip_prefix github_prefix namespace ≡ none
  pub not_anonymous : bytes_eq namespace anonymous_text ≡ false
  pub found : Memᴰ fingerprint values
  pub asked : challenge ≡ dns_txt_challenge domain fingerprint

same_challenge :
    (o : Outcome AdminError DnsTxtChallenge) (a b : DnsTxtChallenge) → o ≡ ok a → o ≡ ok b → b ≡ a
same_challenge o a b h k = cc

IsMet-sound :
    (namespace fingerprint : Bytes) (values : List Bytes) (kind : NamespaceKind)
    (challenge : DnsTxtChallenge)
    → dns_txt_of kind fingerprint values ≡ ok challenge
    → IsKind namespace kind
    → IsMet namespace fingerprint values challenge
unfolding dns_txt_of dns_txt_challenge
IsMet-sound namespace fingerprint values (github owner) challenge h k = cc
IsMet-sound namespace fingerprint values anonymous challenge h k = cc
IsMet-sound namespace fingerprint values (reverse_dns domain) challenge h (e, g, a) =
    elim (Bool-cases (observed fingerprint values)) [
      | inr n ↦ absurd (ground arith)
      | inl y ↦ record {
        domain = domain;
        spelled = e;
        not_github = g;
        not_anonymous = a;
        found = observed_sound fingerprint values y;
        asked = same_challenge _ (dns_txt_challenge domain fingerprint) challenge refl (rw y at h);
      }
    ]

-- If a server's name is classified and `verify_dns_txt` accepts for the claim, then the namespace is
-- `io.` and a domain, neither GitHub's nor the anonymous one, the fingerprint is among the values that
-- were observed, and the challenge is that of the domain and the fingerprint.
pub verify_dns_txt-classify_namespace :
    (server fingerprint : Bytes) (values : List Bytes) (claim : NamespaceClaim)
    (challenge : DnsTxtChallenge)
    → classify_namespace server ≡ ok claim
    → verify_dns_txt claim fingerprint values ≡ ok challenge
    → IsClaimOf server claim × IsMet claim.namespace fingerprint values challenge
unfolding verify_dns_txt
verify_dns_txt-classify_namespace server fingerprint values claim challenge h k =
    let c = classify_namespace-IsClaimOf server claim h in
    (c, IsMet-sound claim.namespace fingerprint values claim.kind challenge k c.is_kind)
