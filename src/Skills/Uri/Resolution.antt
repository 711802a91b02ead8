-- ===== src/Skills/Uri/Resolution.antt =====
-- `resolve` and `resolve_by_id` (crates/rcx-registry-skills/src/uri.rs).
use mathlib.Core.List.{Memᴰ}
use mathlib.Core.Path.{subst}
use rcx_registry.Prelude.{
  ℕ, ◌≤◌, ◌<◌, ◌≢◌, ◌⊎◌, ◌++◌, All, All-append, ltb, insert, ◌≡◌, refl, sym, ap, true, false, inl,
  inr, Option, none, some, List, [], ◌∷◌, Bytes, if◌then◌else◌, IsSorted, sort_by, sort_by-IsSorted,
  Bool-cases, arith,
}
use rcx_registry.Skills.Lock.{LockEntry}
use rcx_registry.Skills.Uri.{
  Registry, Resolved, rank, kind_le, resolution_order, get_skill, answer, version_of, is_empty,
  first_answer, resolve_by_id,
}

kind_le_total : (a b : Registry) → kind_le a b ≡ false → kind_le b a ≡ true
kind_le_total a b h = ground arith

-- The head of a sorted list comes before all the rest.
head_least :
    (r : Registry) (rs : List Registry)
    → IsSorted kind_le (r ∷ rs)
    → (q : Registry) → Memᴰ q rs
    → rank r.kind ≤ rank q.kind
head_least r [] h q m = elim m [ ]
head_least r (s ∷ rs) (l, h) q (Memᴰ.head e) = rw e (ground arith)
head_least r (s ∷ rs) (l, h) q (Memᴰ.tail m) = omega (arith, head_least s rs h q m, rank_le r s l)
  where
    rank_le : (r s : Registry) → kind_le r s ≡ true → rank r.kind ≤ rank s.kind
    rank_le r s l = ground arith

-- A registry that does not hold a skill.
abbrev Lacks : Bytes → Registry → Type 0
Lacks skill_id r = get_skill skill_id r.lock.skills ≡ none

-- The version of an answer's URI: the commit of the entry, if it has one.
abbrev IsVersionOf : LockEntry → Option Bytes → Type 0
IsVersionOf e version =
    ((e.git_ref ≡ []) × (version ≡ none)) ⊎ ((e.git_ref ≢ []) × (version ≡ some e.git_ref))

-- The answer of one of the registries, which holds the skill. Those configured before it that hold it
-- too have a later kind, and those configured behind it none that is earlier.
pub record IsAnswer (skill_id : Bytes) (registries : List Registry) (a : Resolved) : Type 0 where
  pub front : List Registry
  pub registry : Registry
  pub rest : List Registry
  pub split : registries ≡ front ++ registry ∷ rest
  pub holds : get_skill skill_id registry.lock.skills ≡ some a.entry
  pub before : All (λ q. Lacks skill_id q ⊎ (rank registry.kind < rank q.kind)) front
  pub behind : All (λ q. Lacks skill_id q ⊎ (rank registry.kind ≤ rank q.kind)) rest
  pub same_host : a.registry ≡ registry.host
  pub same_kind : a.kind ≡ registry.kind
  pub uri_host : a.uri.registry ≡ registry.host
  pub uri_skill : a.uri.skill_id ≡ skill_id
  pub uri_version : IsVersionOf a.entry a.uri.version

-- What is answered of registries, or that none of them holds the skill.
abbrev pub IsChosen : Bytes → List Registry → Option Resolved → Type 0
IsChosen skill_id registries none = All (λ r. get_skill skill_id r.lock.skills ≡ none) registries
IsChosen skill_id registries (some a) = IsAnswer skill_id registries a

version_of_lem : (e : LockEntry) → IsVersionOf e (version_of e)
version_of_lem e = go e.git_ref
  where
    go :
        (ref : Bytes)
        → ((ref ≡ []) × ((if is_empty ref then none else some ref) ≡ none))
          ⊎ ((ref ≢ []) × ((if is_empty ref then none else some ref) ≡ some ref))
    go [] = inl (refl, refl)
    go (b ∷ bs) = inr ((λ e. cc), refl)

-- The answer where a registry stands in front of those that gave an answer.
prefer : Option LockEntry → Bytes → Registry → Option Resolved → Option Resolved
prefer none skill_id r rest = rest
prefer (some e) skill_id r none = some (answer skill_id r e)
prefer (some e) skill_id r (some a) =
    if ltb (rank a.kind) (rank r.kind) then some a else some (answer skill_id r e)

tail-IsSorted :
    (r : Registry) (rs : List Registry) → IsSorted kind_le (r ∷ rs) → IsSorted kind_le rs
tail-IsSorted r [] h = tt
tail-IsSorted r (s ∷ rs) (l, h) = h

weaken :
    (P Q : Registry → Type 0)
    → ((q : Registry) → P q → Q q)
    → (rs : List Registry) → All P rs
    → All Q rs
weaken P Q f [] h = tt
weaken P Q f (r ∷ rs) (h, hs) = (f r h, weaken P Q f rs hs)

same_rank :
    (o : Option Resolved) (a b : Resolved) → o ≡ some a → o ≡ some b → rank a.kind ≡ rank b.kind
same_rank o a b h k = cc

first_answer-least :
    (n : ℕ) (skill_id : Bytes) (rs : List Registry) (a : Resolved)
    → ((q : Registry) → Memᴰ q rs → n ≤ rank q.kind)
    → first_answer skill_id rs ≡ some a
    → n ≤ rank a.kind
unfolding first_answer
first_answer-least n skill_id [] a least h = cc
first_answer-least n skill_id (r ∷ rs) a least h =
    step (get_skill skill_id r.lock.skills) h
      (first_answer-least n skill_id rs a (λ q m. least q (Memᴰ.tail m)))
  where
    step :
        (o : Option LockEntry)
        → (elim o [ none ↦ first_answer skill_id rs | some e ↦ some (answer skill_id r e) ])
          ≡ some a
        → (first_answer skill_id rs ≡ some a → n ≤ rank a.kind)
        → n ≤ rank a.kind
    step none h rec = rec h
    step (some e) h rec =
        rw (same_rank (some a) a (answer skill_id r e) refl (sym h)) (least r (Memᴰ.head refl))

module _ (skill_id : Bytes) (r : Registry) where
  front-prefer :
      (held : Option LockEntry) (o : Option Resolved)
      → ((a : Resolved) → o ≡ some a → rank r.kind ≤ rank a.kind)
      → (elim held [ none ↦ o | some e ↦ some (answer skill_id r e) ]) ≡ prefer held skill_id r o
  unfolding prefer
  front-prefer none o least = refl
  front-prefer (some e) none least = refl
  front-prefer (some e) (some a) least = ground (arith, least a refl)

  behind-prefer :
      (held held' : Option LockEntry) (x : Registry) (o o' : Option Resolved)
      → rank x.kind < rank r.kind
      → o' ≡ prefer held skill_id r o
      → (elim held' [ none ↦ o' | some f ↦ some (answer skill_id x f) ])
        ≡ prefer held skill_id r (elim held' [ none ↦ o | some f ↦ some (answer skill_id x f) ])
  unfolding prefer
  behind-prefer held none x o o' l rec = rec
  behind-prefer none (some f) x o o' l rec = refl
  behind-prefer (some e) (some f) x o o' l rec = ground arith

  first_answer-insert :
      (rs : List Registry)
      → IsSorted kind_le rs
      → first_answer skill_id (insert kind_le r rs)
        ≡ prefer (get_skill skill_id r.lock.skills) skill_id r (first_answer skill_id rs)
  unfolding first_answer insert
  first_answer-insert [] s =
      front-prefer (get_skill skill_id r.lock.skills) none (λ a h. absurd (cc h))
  first_answer-insert (x ∷ rs) s = elim (Bool-cases (kind_le r x)) [
    | inl y ↦ rw y (
        front-prefer (get_skill skill_id r.lock.skills) (first_answer skill_id (x ∷ rs)) (λ a h.
          first_answer-least (rank r.kind) skill_id (x ∷ rs) a (head_least r (x ∷ rs) (y, s)) h))
    | inr n ↦ rw n (
        behind-prefer (get_skill skill_id r.lock.skills) (get_skill skill_id x.lock.skills) x
          (first_answer skill_id rs) (first_answer skill_id (insert kind_le r rs)) (ground arith)
          (first_answer-insert rs (tail-IsSorted x rs s)))
  ]

  -- A registry that holds the skill has no earlier kind.
  abbrev NotBefore : ℕ → Registry → Type 0
  NotBefore n q = Lacks skill_id q ⊎ (n ≤ rank q.kind)

  later :
      {n m : ℕ} → n ≤ m → (q : Registry) → (Lacks skill_id q ⊎ (m < rank q.kind)) → NotBefore n q
  later l q (inl h) = inl h
  later l q (inr h) = inr (omega arith)

  not_before : {n m : ℕ} → n ≤ m → (q : Registry) → NotBefore m q → NotBefore n q
  not_before l q (inl h) = inl h
  not_before l q (inr h) = inr (omega arith)

  -- The answer of the first of the registries.
  first :
      (rs : List Registry) (e : LockEntry)
      → get_skill skill_id r.lock.skills ≡ some e
      → All (NotBefore (rank r.kind)) rs
      → IsAnswer skill_id (r ∷ rs) (answer skill_id r e)
  first rs e g h = record {
    front = [];
    registry = r;
    rest = rs;
    split = refl;
    holds = g;
    before = tt;
    behind = h;
    same_host = refl;
    same_kind = refl;
    uri_host = refl;
    uri_skill = refl;
    uri_version = version_of_lem e;
  }

  prefer-IsChosen :
      (rs : List Registry) (held : Option LockEntry) (o : Option Resolved)
      → get_skill skill_id r.lock.skills ≡ held
      → IsChosen skill_id rs o
      → IsChosen skill_id (r ∷ rs) (prefer held skill_id r o)
  unfolding prefer
  prefer-IsChosen rs none none g h = (g, h)
  prefer-IsChosen rs none (some a) g h = record {
    front = r ∷ h.front;
    registry = h.registry;
    rest = h.rest;
    split = ap (λ t. r ∷ t) h.split;
    holds = h.holds;
    before = (inl g, h.before);
    behind = h.behind;
    same_host = h.same_host;
    same_kind = h.same_kind;
    uri_host = h.uri_host;
    uri_skill = h.uri_skill;
    uri_version = h.uri_version;
  }
  prefer-IsChosen rs (some e) none g h = first rs e g (weaken _ _ (λ q l. inl l) rs h)
  prefer-IsChosen rs (some e) (some a) g h = elim (Bool-cases (ltb (rank a.kind) (rank r.kind))) [
    | inl y ↦ rw y (record {
      front = r ∷ h.front;
      registry = h.registry;
      rest = h.rest;
      split = ap (λ t. r ∷ t) h.split;
      holds = h.holds;
      before = (inr (rw (← h.same_kind) (ground arith)), h.before);
      behind = h.behind;
      same_host = h.same_host;
      same_kind = h.same_kind;
      uri_host = h.uri_host;
      uri_skill = h.uri_skill;
      uri_version = h.uri_version;
    })
    | inr n ↦
        let l : rank r.kind ≤ rank h.registry.kind = rw (← h.same_kind) (ground arith) in
        rw n (
          first rs e g (
            subst (All (NotBefore (rank r.kind))) (sym h.split) (
              All-append (NotBefore (rank r.kind)) h.front (h.registry ∷ h.rest)
                (weaken _ _ (later l) h.front h.before)
                (inr l, weaken _ _ (not_before l) h.rest h.behind))))
  ]

-- `resolve_by_id` answers of one of the registries, which holds the skill, and with its entry, host and
-- kind; those before it that hold the skill have a later kind, those behind it none that is earlier. The
-- URI names that host and the skill and is pinned to the entry's commit if it has one. If nothing is
-- answered, none of the registries holds the skill.
pub resolve_by_id-IsChosen :
    (skill_id : Bytes) (registries : List Registry)
    → IsChosen skill_id registries (resolve_by_id skill_id registries)
unfolding resolve_by_id resolution_order sort_by
resolve_by_id-IsChosen skill_id [] = tt
resolve_by_id-IsChosen skill_id (r ∷ rs) =
    rw
      (first_answer-insert skill_id r (sort_by kind_le rs)
        (sort_by-IsSorted kind_le kind_le_total rs))
      (prefer-IsChosen skill_id r rs _ _ refl (resolve_by_id-IsChosen skill_id rs))
