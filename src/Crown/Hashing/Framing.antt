-- ===== src/Crown/Hashing/Framing.antt =====
-- The frames that hashing.rs writes around the entries of a snapshot and around a server.
use mathlib.Core.List.{Permᴰ}
use mathlib.Core.List.Permᴰ as PermD
use rcx_registry.Prelude.{
  ℕ, ◌≡◌, ◌≢◌, refl, sym, ◌∙◌, List, [], ◌∷◌, ◌++◌, map, append_assoc, Bytes, All, All-sort_by,
  sort_by, perm-sort_by, concat, insert,
}
use rcx_registry.Crown.Hashing.{
  SnapshotEntry, entry_order, entry_frame, server_frame, snapshot_preimage,
}

abbrev pub Lacks : ℕ → Bytes → Type 0
Lacks c = All (λ b. b ≢ c)

-- Names and versions hold no NUL, and no JSON text holds the byte 0xff, which UTF-8 never has.
abbrev pub IsFramed : SnapshotEntry → Type 0
IsFramed e = Lacks 0 e.name × Lacks 0 e.version × Lacks 0xff e.canonical_json

-- What stands before the first separator, and what behind it.
split_unique :
    (c : ℕ) (xs ys rest rest' : Bytes)
    → Lacks c xs
    → Lacks c ys
    → xs ++ c ∷ rest ≡ ys ++ c ∷ rest'
    → (xs ≡ ys) × (rest ≡ rest')
split_unique c [] [] rest rest' h k e = (refl, cc)
split_unique c [] (y ∷ ys) rest rest' h (hy, k) e = absurd (hy (cc))
split_unique c (x ∷ xs) [] rest rest' (hx, h) k e = absurd (hx (cc))
split_unique c (x ∷ xs) (y ∷ ys) rest rest' (hx, h) (hy, k) e =
    let (e1, e2) = split_unique c xs ys rest rest' h k (cc) in (cc, e2)

framed : SnapshotEntry → Bytes → Bytes
framed e rest = e.name ++ 0 ∷ (e.version ++ 0 ∷ (e.canonical_json ++ 0xff ∷ rest))

entry_frame-append : (e : SnapshotEntry) (rest : Bytes) → entry_frame e ++ rest ≡ framed e rest
unfolding entry_frame framed
entry_frame-append e rest = simp append_assoc

framed_unique :
    (e f : SnapshotEntry) (rest rest' : Bytes)
    → IsFramed e
    → IsFramed f
    → framed e rest ≡ framed f rest'
    → (e ≡ f) × (rest ≡ rest')
unfolding framed
framed_unique e f rest rest' (en, ev, ej) (fn, fv, fj) h =
    let (n, h1) = split_unique 0 e.name f.name _ _ en fn h in
    let (v, h2) = split_unique 0 e.version f.version _ _ ev fv h1 in
    let (j, h3) = split_unique 0xff e.canonical_json f.canonical_json _ _ ej fj h2 in
    (λ i. record { name = n i; version = v i; canonical_json = j i }, h3)

framed-ne-nil : (e : SnapshotEntry) (rest : Bytes) → framed e rest ≢ []
unfolding framed
framed-ne-nil e rest h = ne e.name _ h
  where
    ne : (xs rest : Bytes) → xs ++ 0 ∷ rest ≢ []
    ne [] rest h = cc
    ne (x ∷ xs) rest h = cc

frames_unique :
    (es fs : List SnapshotEntry)
    → All IsFramed es
    → All IsFramed fs
    → concat (map entry_frame es) ≡ concat (map entry_frame fs)
    → es ≡ fs
frames_unique [] [] h k e = refl
frames_unique [] (f ∷ fs) h k e =
    absurd (framed-ne-nil f _ (sym (e ∙ entry_frame-append f (concat (map entry_frame fs)))))
frames_unique (x ∷ es) [] h k e =
    absurd (framed-ne-nil x _ (sym (entry_frame-append x (concat (map entry_frame es))) ∙ e))
frames_unique (x ∷ es) (f ∷ fs) (hx, h) (hf, k) e =
    let (e1, e2) = framed_unique x f _ _ hx hf (
      sym (entry_frame-append x (concat (map entry_frame es)))
      ∙ e
      ∙ entry_frame-append f (concat (map entry_frame fs))) in
    cc (e1, frames_unique es fs h k e2)

-- If two snapshots whose names and versions hold no NUL byte, and whose JSON texts hold no byte 0xff,
-- have one preimage, then one is a rearrangement of the other.
pub snapshot_preimage-injective :
    (es fs : List SnapshotEntry)
    → All IsFramed es
    → All IsFramed fs
    → snapshot_preimage es ≡ snapshot_preimage fs
    → Permᴰ es fs
unfolding snapshot_preimage
snapshot_preimage-injective es fs h k e =
    let sorted =
      frames_unique (sort_by entry_order es) (sort_by entry_order fs)
        (All-sort_by entry_order IsFramed es h) (All-sort_by entry_order IsFramed fs k) e in
    Permᴰ.trans (PermD.symm (perm-sort_by entry_order es)) (rw sorted (perm-sort_by entry_order fs))

-- A text with no byte 0xff does not end in one.
no_end : (xs ys : Bytes) → Lacks 0xff xs → xs ≢ ys ++ 0xff ∷ []
no_end [] [] h e = cc
no_end [] (y ∷ ys) h e = cc
no_end (x ∷ xs) [] (hx, h) e = hx (cc)
no_end (x ∷ xs) (y ∷ ys) (hx, h) e = no_end xs ys h (cc)

-- Under the same conditions the preimage of a server's reconciliation hash is never that of a
-- snapshot of one entry, the same entry or another.
pub server_frame-ne-snapshot_preimage :
    (e f : SnapshotEntry) → IsFramed e → IsFramed f → server_frame e ≢ snapshot_preimage (f ∷ [])
unfolding snapshot_preimage sort_by server_frame framed insert entry_frame
server_frame-ne-snapshot_preimage e f (en, ev, ej) (fn, fv, fj) h =
    let (n, h1) = split_unique 0 e.name f.name _ _ en fn (h ∙ entry_frame-append f []) in
    let (v, h2) = split_unique 0 e.version f.version _ _ ev fv h1 in
    no_end e.canonical_json f.canonical_json ej h2
