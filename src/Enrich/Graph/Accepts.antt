-- ===== src/Enrich/Graph/Accepts.antt =====
-- The capability graphs that crates/rcx-registry-enrich/src/lib.rs accepts.
use rcx_registry.Prelude.{
  ◌≡◌, ◌↔◌, refl, ap, ◌∙◌, true, false, not, ◌||◌, inl, inr, Option, none, some, List, [], ◌∷◌,
  Bytes, codes, All, Bool-cases, arith,
}
use rcx_registry.Prelude.Outcome.{ok, >>=-eq-ok}
use rcx_registry.Crown.Json.{
  Json, null, bool, number, string, object, array, JsonItems, no_items, item, Members,
}
use rcx_registry.Ingest.{add_name, is_in}
use rcx_registry.Ingest.NameSets.{is_in-add_name, All-not_in, All-not_in_add}
use rcx_registry.Ingest.Envelope.{string_member}
use rcx_registry.Enrich.Graph.{
  collect_caps, check_edges, items_of, validate_graph_object, validate_capability_graph_edges,
  string_or, Enrich,
}

-- The nodes have these capabilities, in their order.
abbrev pub HaveCaps : JsonItems → List Bytes → Type 0
HaveCaps no_items [] = Unit
HaveCaps (item node nodes) (cap ∷ caps) =
    (string_member (codes "cap") node ≡ some cap) × HaveCaps nodes caps
HaveCaps _ _ = ⊥

abbrev pub AreDistinct : List Bytes → Type 0
AreDistinct [] = Unit
AreDistinct (cap ∷ caps) = (is_in cap caps ≡ false) × AreDistinct caps

-- An edge between two of the capabilities.
pub record IsEdge (caps : List Bytes) (edge : Json) : Type 0 where
  pub source : Bytes
  pub target : Bytes
  pub from_source : string_member (codes "from") edge ≡ some source
  pub to_target : string_member (codes "to") edge ≡ some target
  pub has_source : is_in source caps ≡ true
  pub has_target : is_in target caps ≡ true

abbrev pub AreEdges : List Bytes → JsonItems → Type 0
AreEdges caps no_items = Unit
AreEdges caps (item edge edges) = IsEdge caps edge × AreEdges caps edges

-- A graph whose nodes have different capabilities, and whose edges join these.
pub record IsGraph (graph : Members) : Type 0 where
  pub caps : List Bytes
  pub nodes : HaveCaps (items_of (codes "nodes") graph) caps
  pub distinct : AreDistinct caps
  pub edges : AreEdges caps (items_of (codes "edges") graph)

-- A graph, or none at all.
abbrev pub IsGraphValue : Json → Type 0
IsGraphValue null = Unit
IsGraphValue (object graph) = IsGraph graph
IsGraphValue _ = ⊥

-- What the loop over the nodes has found when it returns a set.
record AreCollected (nodes : JsonItems) (before after : List Bytes) : Type 0 where
  caps : List Bytes
  have : HaveCaps nodes caps
  distinct : AreDistinct caps
  fresh : All (λ cap. is_in cap before ≡ false) caps
  members : (n : Bytes) → is_in n after ≡ (is_in n caps || is_in n before)

string_or_ok :
    (message : Bytes) (o : Option Bytes) (s : Bytes) → string_or message o ≡ ok s → o ≡ some s
string_or_ok message none s h = cc
string_or_ok message (some s') s h = cc

add_cap :
    (node : Json) (nodes : JsonItems) (cap : Bytes) (before after : List Bytes)
    → string_member (codes "cap") node ≡ some cap
    → is_in cap before ≡ false
    → AreCollected nodes (add_name cap before) after
    → AreCollected (item node nodes) before after
unfolding is_in
add_cap node nodes cap before after named new c =
    let (out, fresh) = All-not_in cap before c.caps c.fresh in
    record {
      caps = cap ∷ c.caps;
      have = (named, c.have);
      distinct = (out, c.distinct);
      fresh = (new, fresh);
      members = λ n. c.members n ∙ ground (arith, is_in-add_name n cap before);
    }

same_set :
    (before after : List Bytes)
    → ◌≡◌ {A = Enrich (List Bytes)} (ok before) (ok after)
    → after ≡ before
same_set before after h = cc

collect_caps_sound :
    (nodes : JsonItems) (before after : List Bytes)
    → collect_caps nodes before ≡ ok after
    → AreCollected nodes before after
unfolding collect_caps is_in
collect_caps_sound no_items before after h = record {
  caps = [];
  have = tt;
  distinct = tt;
  fresh = tt;
  members = λ n. ap (is_in n) (same_set before after h);
}
collect_caps_sound (item node nodes) before after h =
    let (cap, e, h') =
      >>=-eq-ok
        (string_or (codes "capability graph node missing `cap`") (string_member (codes "cap") node))
        _ h in
    elim (Bool-cases (is_in cap before)) [
      | inl old ↦ absurd (ground arith)
      | inr new ↦
          add_cap node nodes cap before after (string_or_ok _ _ cap e) new
            (collect_caps_sound nodes (add_name cap before) after (rw new at h'))
    ]

collect_caps_complete :
    (nodes : JsonItems) (caps before : List Bytes)
    → HaveCaps nodes caps
    → AreDistinct caps
    → All (λ cap. is_in cap before ≡ false) caps
    → (after : List Bytes) × (collect_caps nodes before ≡ ok after)
      × ((n : Bytes) → is_in n after ≡ (is_in n caps || is_in n before))
unfolding collect_caps is_in
collect_caps_complete no_items [] before have distinct fresh = (before, refl, λ n. refl)
collect_caps_complete no_items (cap ∷ caps) before have distinct fresh = absurd have
collect_caps_complete (item node nodes) [] before have distinct fresh = absurd have
collect_caps_complete (item node nodes) (cap ∷ caps) before (named, have) (out, distinct)
      (new, fresh) =
    let (after, e, members) =
      collect_caps_complete nodes caps (add_name cap before) have distinct
        (All-not_in_add cap before caps out fresh) in
    (after, rw (named, new) e, λ n. members n ∙ ground (arith, is_in-add_name n cap before))

-- Where two sets have the same members, they have the same edges.
check_edges_sound :
    (set caps : List Bytes) (edges : JsonItems)
    → ((n : Bytes) → is_in n set ≡ is_in n caps)
    → check_edges set edges ≡ ok tt
    → AreEdges caps edges
unfolding check_edges
check_edges_sound set caps no_items same h = tt
check_edges_sound set caps (item edge edges) same h =
    let (source, e, h') =
      >>=-eq-ok
        (string_or (codes "capability graph edge missing `from`")
          (string_member (codes "from") edge))
        _ h in
    let (target, e', h'') =
      >>=-eq-ok
        (string_or (codes "capability graph edge missing `to`") (string_member (codes "to") edge)) _
        h' in
    elim (Bool-cases (not (is_in source set) || not (is_in target set))) [
      | inl missing ↦ absurd (ground arith)
      | inr present ↦ (
        record {
          source = source;
          target = target;
          from_source = string_or_ok _ _ source e;
          to_target = string_or_ok _ _ target e';
          has_source = ground (arith, same source);
          has_target = ground (arith, same target);
        },
        check_edges_sound set caps edges same (rw present at h''),
      )
    ]

check_edges_complete :
    (set caps : List Bytes) (edges : JsonItems)
    → ((n : Bytes) → is_in n set ≡ is_in n caps)
    → AreEdges caps edges
    → check_edges set edges ≡ ok tt
unfolding check_edges
check_edges_complete set caps no_items same h = refl
check_edges_complete set caps (item edge edges) same (e, h) =
    rw (e.from_source, e.to_target, same e.source ∙ e.has_source, same e.target ∙ e.has_target)
      (check_edges_complete set caps edges same h)

IsGraph-sound : (graph : Members) → validate_graph_object graph ≡ ok tt → IsGraph graph
unfolding validate_graph_object is_in
IsGraph-sound graph h =
    let (set, e, h') = >>=-eq-ok (collect_caps (items_of (codes "nodes") graph) []) _ h in
    let c = collect_caps_sound (items_of (codes "nodes") graph) [] set e in
    record {
      caps = c.caps;
      nodes = c.have;
      distinct = c.distinct;
      edges =
          check_edges_sound set c.caps (items_of (codes "edges") graph)
            (λ n. c.members n ∙ ground arith) h';
    }

none_in : (caps : List Bytes) → All (λ cap. is_in cap [] ≡ false) caps
unfolding is_in
none_in [] = tt
none_in (cap ∷ caps) = (refl, none_in caps)

IsGraph-complete : (graph : Members) → IsGraph graph → validate_graph_object graph ≡ ok tt
unfolding validate_graph_object is_in
IsGraph-complete graph g =
    let (set, e, members) =
      collect_caps_complete (items_of (codes "nodes") graph) g.caps [] g.nodes g.distinct
        (none_in g.caps) in
    rw e (
      check_edges_complete set g.caps (items_of (codes "edges") graph)
        (λ n. members n ∙ ground arith) g.edges)

-- The check accepts a capability graph exactly if it is null, or an object all of whose nodes have a
-- capability that is a string, no two the same, and all of whose edges have a `from` and a `to` that
-- are capabilities of nodes; a member `nodes` or `edges` that is absent or not an array has no items.
pub validate_capability_graph_edges_iff :
    (graph : Json) → (validate_capability_graph_edges graph ≡ ok tt) ↔ IsGraphValue graph
unfolding validate_capability_graph_edges
validate_capability_graph_edges_iff null = (λ h. tt, λ h. refl)
validate_capability_graph_edges_iff (object graph) = (IsGraph-sound graph, IsGraph-complete graph)
validate_capability_graph_edges_iff (bool b) = (λ h. cc, λ h. absurd h)
validate_capability_graph_edges_iff (number n) = (λ h. cc, λ h. absurd h)
validate_capability_graph_edges_iff (string s) = (λ h. cc, λ h. absurd h)
validate_capability_graph_edges_iff (array vs) = (λ h. cc, λ h. absurd h)
