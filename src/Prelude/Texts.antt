-- ===== src/Prelude/Texts.antt =====
-- The standard library's functions on texts that the parsers use, for separators and tests of one byte.
use mathlib.Core.Path.{subst}
use rcx_registry.Prelude.{
  ℕ, zero, suc, ltb, ◌/◌, ◌%◌, ◌+◌, ◌≡◌, refl, ap, Bool, true, false, inl, inr, ◌&&◌, ◌||◌, Option,
  none, some, List, [], ◌∷◌, ◌++◌, map, Bytes, leb, ◌==◌, ==_iff, if◌then◌else◌, Bool-cases, arith,
}

-- `bytes().all`
unfoldable pub all_bytes : (ℕ → Bool) → Bytes → Bool
all_bytes test [] = true
all_bytes test (b ∷ bs) = test b && all_bytes test bs

abbrev pub is_ascii_digit : ℕ → Bool
is_ascii_digit b = leb b'0' b && leb b b'9'

-- `strip_prefix`
unfoldable pub strip_prefix : Bytes → Bytes → Option Bytes
strip_prefix [] text = some text
strip_prefix (a ∷ prefix) [] = none
strip_prefix (a ∷ prefix) (b ∷ text) =
    let rest = strip_prefix prefix text in if a == b then rest else none

-- what stands before and behind a separator, with a byte put in front
abbrev pub behind : ℕ → Option (Bytes × Bytes) → Option (Bytes × Bytes)
behind b none = none
behind b (some (before, after)) = some (b ∷ before, after)

-- `split_once`, at the first separator
unfoldable pub split_once : ℕ → Bytes → Option (Bytes × Bytes)
split_once c [] = none
split_once c (b ∷ text) =
    let rest = split_once c text in if b == c then some ([], text) else behind b rest

abbrev pub last_split : ℕ → ℕ → Bytes → Option (Bytes × Bytes) → Option (Bytes × Bytes)
last_split c b text (some (before, after)) = some (b ∷ before, after)
last_split c b text none = if b == c then some ([], text) else none

-- `rsplit_once`, at the last separator
unfoldable pub rsplit_once : ℕ → Bytes → Option (Bytes × Bytes)
rsplit_once c [] = none
rsplit_once c (b ∷ text) = last_split c b text (rsplit_once c text)

-- `contains` of a character
unfoldable pub contains_byte : ℕ → Bytes → Bool
contains_byte c [] = false
contains_byte c (b ∷ text) = b == c || contains_byte c text

abbrev or_later : ℕ → Option (Bytes × Bytes) → Option Bytes → Option (Bytes × Bytes)
or_later b later (some after) = some ([], after)
or_later b later none = behind b later

-- what stands before and behind the first occurrence of a text that is not empty
unfoldable pub split_at_text : Bytes → Bytes → Option (Bytes × Bytes)
split_at_text marker [] = none
split_at_text marker (b ∷ text) =
    or_later b (split_at_text marker text) (strip_prefix marker (b ∷ text))

-- `starts_with`
unfoldable pub starts_with : Bytes → Bytes → Bool
starts_with [] text = true
starts_with (a ∷ prefix) [] = false
starts_with (a ∷ prefix) (b ∷ text) = a == b && starts_with prefix text

-- `contains` of a text
unfoldable pub contains_text : Bytes → Bytes → Bool
contains_text needle [] = starts_with needle []
contains_text needle (b ∷ text) = starts_with needle (b ∷ text) || contains_text needle text

-- with a byte put in front of the first part
abbrev onto_first : ℕ → List Bytes → List Bytes
onto_first b [] = (b ∷ []) ∷ []
onto_first b (part ∷ parts) = (b ∷ part) ∷ parts

-- `split` at every separator
unfoldable pub split_on : ℕ → Bytes → List Bytes
split_on c [] = [] ∷ []
split_on c (b ∷ text) =
    let parts = split_on c text in if b == c then [] ∷ parts else onto_first b parts

abbrev pub lower_byte : ℕ → ℕ
lower_byte b = if leb b'A' b && leb b b'Z' then b + 32 else b

-- `to_ascii_lowercase`
unfoldable pub to_ascii_lowercase : Bytes → Bytes
to_ascii_lowercase s = map lower_byte s

-- a number in decimal; the first argument bounds the digits
digits : ℕ → ℕ → Bytes
digits zero n = []
digits (suc fuel) n =
    let front = digits fuel (n / 10) in
    if ltb n 10 then (n + 48) ∷ [] else front ++ (n % 10 + 48) ∷ []

unfoldable pub decimal : ℕ → Bytes
unfolding digits
decimal n = digits (suc n) n

pub strip_prefix-append : (prefix text : Bytes) → strip_prefix prefix (prefix ++ text) ≡ some text
unfolding strip_prefix
strip_prefix-append [] text = refl
strip_prefix-append (a ∷ prefix) text = ground (arith, strip_prefix-append prefix text)

pub split_once-append :
    (c : ℕ) (before after : Bytes)
    → contains_byte c before ≡ false
    → split_once c (before ++ c ∷ after) ≡ some (before, after)
unfolding split_once contains_byte
split_once-append c [] after h = ground arith
split_once-append c (b ∷ before) after h = ground (arith, split_once-append c before after)

pub rsplit_once-none :
    (c : ℕ) (text : Bytes) → contains_byte c text ≡ false → rsplit_once c text ≡ none
unfolding rsplit_once contains_byte
rsplit_once-none c [] h = refl
rsplit_once-none c (b ∷ text) h = ground (arith, rsplit_once-none c text)

pub rsplit_once-append :
    (c : ℕ) (before after : Bytes)
    → contains_byte c after ≡ false
    → rsplit_once c (before ++ c ∷ after) ≡ some (before, after)
unfolding rsplit_once
rsplit_once-append c [] after h = ground (arith, rsplit_once-none c after)
rsplit_once-append c (b ∷ before) after h = rw (rsplit_once-append c before after h)

-- Bytes that all pass a test that a separator fails do not contain it.
pub contains_byte-all_bytes :
    (c : ℕ) (test : ℕ → Bool) (text : Bytes)
    → test c ≡ false
    → all_bytes test text ≡ true
    → contains_byte c text ≡ false
unfolding contains_byte all_bytes
contains_byte-all_bytes c test [] hc h = refl
contains_byte-all_bytes c test (b ∷ text) hc h = ground (arith, contains_byte-all_bytes c test text)

-- What passes one test passes another.
pub all_bytes-weaken :
    (test test' : ℕ → Bool)
    → ((b : ℕ) → test b ≡ true → test' b ≡ true)
    → (text : Bytes) → all_bytes test text ≡ true
    → all_bytes test' text ≡ true
unfolding all_bytes
all_bytes-weaken test test' w [] h = refl
all_bytes-weaken test test' w (b ∷ text) h = ground (arith, w b, all_bytes-weaken test test' w text)

pub strip_prefix-eq-some :
    (prefix text rest : Bytes) → strip_prefix prefix text ≡ some rest → text ≡ prefix ++ rest
unfolding strip_prefix
strip_prefix-eq-some [] text rest h = cc
strip_prefix-eq-some (a ∷ prefix) [] rest h = cc
strip_prefix-eq-some (a ∷ prefix) (b ∷ text) rest h =
    ground (arith, strip_prefix-eq-some prefix text rest)

abbrev IsSplit : ℕ → Bytes → Bytes × Bytes → Type 0
IsSplit c text (before, after) = (text ≡ before ++ c ∷ after) × (contains_byte c before ≡ false)

same_split : (o : Option (Bytes × Bytes)) (a b : Bytes × Bytes) → o ≡ some a → o ≡ some b → a ≡ b
same_split o a b h k = cc

IsSplit-behind :
    (c b : ℕ) (text : Bytes) (o : Option (Bytes × Bytes)) (parts : Bytes × Bytes)
    → (b == c) ≡ false
    → ((q : Bytes × Bytes) → o ≡ some q → IsSplit c text q)
    → behind b o ≡ some parts
    → IsSplit c (b ∷ text) parts
unfolding contains_byte
IsSplit-behind c b text none parts n rec h = cc
IsSplit-behind c b text (some (x, y)) parts n rec h =
    let (e, f) = rec (x, y) refl in
    subst (IsSplit c (b ∷ text)) (same_split _ (b ∷ x, y) parts refl h)
      (ap (λ t. b ∷ t) e, ground arith)

split_once_sound :
    (c : ℕ) (text : Bytes) (parts : Bytes × Bytes)
    → split_once c text ≡ some parts
    → IsSplit c text parts
unfolding split_once contains_byte
split_once_sound c [] parts h = cc
split_once_sound c (b ∷ text) parts h = elim (Bool-cases (b == c)) [
  | inl y ↦
      subst (IsSplit c (b ∷ text)) (same_split _ ([], text) parts refl (rw y at h))
        (ap (λ z. z ∷ text) ((==_iff b c).0 y), refl)
  | inr n ↦
      IsSplit-behind c b text (split_once c text) parts n (split_once_sound c text) (rw n at h)
]

pub split_once-eq-some :
    (c : ℕ) (text before after : Bytes)
    → split_once c text ≡ some (before, after)
    → (text ≡ before ++ c ∷ after) × (contains_byte c before ≡ false)
split_once-eq-some c text before after h = split_once_sound c text (before, after) h
