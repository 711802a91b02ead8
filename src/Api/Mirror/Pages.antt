-- ===== src/Api/Mirror/Pages.antt =====
-- What a page and a cursor of the mirror select (crates/rcx-registry-api/src/lib.rs).
use rcx_registry.Prelude.{
  ℕ, zero, suc, ◌≤◌, ◌<◌, ◌≡◌, refl, sym, ap, ◌∙◌, true, false, some, none, List, [], ◌∷◌, ◌++◌,
  Bytes, bytes_eq, bytes_eq_refl, length, take, drop, take-append-drop, All, append_assoc, arith,
  ltb,
}
use rcx_registry.Prelude.Outcome.{ok}
use rcx_registry.Api.Mirror.{
  StoredServerRecord, stored_token, or_empty, after_cursor, last_token, page_of, response_of,
}

-- the token of a record that has one
abbrev pub token : StoredServerRecord → Bytes
token r = or_empty (stored_token r)

abbrev pub HasToken : StoredServerRecord → Type 0
HasToken r = stored_token r ≡ ok (token r)

-- Records that all have a token, no two the same.
abbrev pub AreListed : List StoredServerRecord → Type 0
AreListed [] = Unit
AreListed (r ∷ rs) =
    HasToken r × All (λ other. bytes_eq (token r) (token other) ≡ false) rs × AreListed rs

All-middle {ℓ κ} :
    {A : Type ℓ} (P : A → Type κ) (front : List A) (x : A) (rest : List A)
    → All P (front ++ x ∷ rest)
    → P x
All-middle P [] x rest h = h.0
All-middle P (y ∷ front) x rest h = All-middle P front x rest h.1

pub middle-HasToken :
    (front : List StoredServerRecord) (r : StoredServerRecord) (rest : List StoredServerRecord)
    → AreListed (front ++ r ∷ rest)
    → HasToken r
middle-HasToken [] r rest h = h.0
middle-HasToken (f ∷ front) r rest h = middle-HasToken front r rest h.2

-- Among records with different tokens a cursor is found where it stands.
pub after_cursor-append :
    (front : List StoredServerRecord) (r : StoredServerRecord) (rest : List StoredServerRecord)
    → AreListed (front ++ r ∷ rest)
    → after_cursor (token r) (front ++ r ∷ rest) ≡ some rest
unfolding after_cursor
after_cursor-append [] r rest h = rw (h.0, bytes_eq_refl (token r))
after_cursor-append (f ∷ front) r rest h =
    let other = All-middle (λ o. bytes_eq (token f) (token o) ≡ false) front r rest h.1 in
    rw (h.0, other) (after_cursor-append front r rest h.2)

last_token-append :
    (front : List StoredServerRecord) (r : StoredServerRecord)
    → HasToken r
    → last_token (front ++ r ∷ []) ≡ ok (some (token r))
unfolding last_token
last_token-append [] r h = rw h
last_token-append (f ∷ []) r h = rw h
last_token-append (f ∷ g ∷ front) r h = last_token-append (g ∷ front) r h

-- A list that is not empty, by its last item.
pub record EndsIn {ℓ} {A : Type ℓ} (xs : List A) : Type ℓ where
  pub front : List A
  pub last : A
  pub ends : xs ≡ front ++ last ∷ []

ends_in {ℓ} : {A : Type ℓ} (x : A) (xs : List A) → EndsIn (x ∷ xs)
ends_in x [] = record { front = []; last = x; ends = refl }
ends_in x (y ∷ xs) =
    let rest = ends_in y xs in
    record { front = x ∷ rest.front; last = rest.last; ends = ap (λ t. x ∷ t) rest.ends }

take-all {ℓ} : {A : Type ℓ} (n : ℕ) (xs : List A) → length xs ≤ n → take n xs ≡ xs
take-all zero [] h = refl
take-all zero (x ∷ xs) h = absurd (omega arith)
take-all (suc n) [] h = refl
take-all (suc n) (x ∷ xs) h = ap (λ t. x ∷ t) (take-all n xs (omega arith))

take-take-suc {ℓ} : {A : Type ℓ} (n : ℕ) (xs : List A) → take n (take (suc n) xs) ≡ take n xs
take-take-suc zero xs = refl
take-take-suc (suc n) [] = refl
take-take-suc (suc n) (x ∷ xs) = ap (λ t. x ∷ t) (take-take-suc n xs)

length-take_more {ℓ} :
    {A : Type ℓ} (n : ℕ) (xs : List A) → n < length xs → n < length (take (suc n) xs)
length-take_more zero [] h = absurd (omega arith)
length-take_more zero (x ∷ xs) h = omega arith
length-take_more (suc n) [] h = absurd (omega arith)
length-take_more (suc n) (x ∷ xs) h = omega (arith, length-take_more n xs (omega arith))

-- The last page has all the records that are left and no cursor.
pub page_of-last :
    (limit : ℕ) (records : List StoredServerRecord)
    → length records ≤ limit
    → page_of limit records ≡ ok (response_of records none)
unfolding page_of
page_of-last limit records h =
    let none_more : ltb limit (length records) ≡ false = ground arith in
    rw (take-all (suc limit) records (omega arith), none_more)

page_of-full :
    (limit : ℕ) (records front : List StoredServerRecord) (r : StoredServerRecord)
    → ltb limit (length (take (suc limit) records)) ≡ true
    → take limit (take (suc limit) records) ≡ front ++ r ∷ []
    → HasToken r
    → page_of limit records ≡ ok (response_of (front ++ r ∷ []) (some (token r)))
unfolding page_of
page_of-full limit records front r more e h = rw (more, e, last_token-append front r h)

-- Any other page has as many records as the limit, and the token of the last of them.
pub page_of-more :
    (n : ℕ) (records : List StoredServerRecord)
    → suc n < length records
    → (front : List StoredServerRecord) × (r : StoredServerRecord) × (take (suc n) records
        ≡ front ++ r ∷ [])
      × (records ≡ front ++ r ∷ drop (suc n) records)
      × (HasToken r → page_of (suc n) records ≡ ok (response_of (front ++ r ∷ []) (some (token r))))
page_of-more n [] h = absurd (omega arith)
page_of-more n (x ∷ xs) h =
    let e = ends_in x (take n xs) in
    let more : ltb (suc n) (length (take (suc (suc n)) (x ∷ xs))) ≡ true =
      ground (arith, length-take_more (suc n) (x ∷ xs) h) in
    (
      e.front,
      e.last,
      e.ends,
      sym (ap (λ t. x ∷ t) (take-append-drop n xs))
          ∙ ap (λ t. t ++ drop n xs) e.ends
          ∙ append_assoc e.front (e.last ∷ []) (drop n xs),
      page_of-full (suc n) (x ∷ xs) e.front e.last more
          (ap (λ t. x ∷ t) (take-take-suc n xs) ∙ e.ends),
    )
