-- ===== src/Crown/Hashing/Rendering.antt =====
-- `canonicalize_json` (hashing.rs) and the order of an object's members.
use mathlib.Core.List.{Memᴰ, Permᴰ}
use rcx_registry.Prelude.{
  ◌≡◌, refl, ap, sym, ◌∙◌, Bool, [], ◌∷◌, ◌++◌, map, Bytes, lex_le, lex_le_total, lex_le_trans,
  lex_le_antisymm, sort_by, map-sort_by, IsOrder, sort_by-perm,
}
use rcx_registry.Crown.Json.{JsonText, Json, object, Members, no_members, member, member_list}
use rcx_registry.Crown.Hashing.{
  rendered_le, rendering, join_commas, canonicalize_json, canonicalize_members,
}

abbrev member_le : Bytes × Json → Bytes × Json → Bool
member_le a b = lex_le a.0 b.0

member_le-IsOrder : IsOrder member_le
member_le-IsOrder = record {
  total = λ a b. lex_le_total a.0 b.0;
  trans = λ a b c. lex_le_trans a.0 b.0 c.0;
}

module _ (t : JsonText) where
  abbrev render_member : Bytes × Json → Bytes × Bytes
  render_member (k, v) = (k, t.quote k ++ b':' ∷ canonicalize_json t v)

  canonicalize_members-member_list :
      (ms : Members) → canonicalize_members t ms ≡ map render_member (member_list ms)
  unfolding canonicalize_json
  canonicalize_members-member_list no_members = refl
  canonicalize_members-member_list (member k v ms) =
      ap (λ r. render_member (k, v) ∷ r) (canonicalize_members-member_list ms)

  sorted_members :
      (ms : Members)
      → sort_by rendered_le (canonicalize_members t ms)
        ≡ map render_member (sort_by member_le (member_list ms))
  sorted_members ms =
      ap (sort_by rendered_le) (canonicalize_members-member_list ms)
      ∙ sym (map-sort_by member_le rendered_le render_member (λ a b. refl) (member_list ms))

-- Members with one key are one member.
abbrev pub HasDistinctKeys : Members → Type 0
HasDistinctKeys ms =
    (a b : Bytes × Json) → Memᴰ a (member_list ms) → Memᴰ b (member_list ms) → a.0 ≡ b.0 → a ≡ b

-- Two objects whose members are the same up to their order, with distinct keys, have one canonical
-- text, whatever the printing of numbers and strings is.
pub canonicalize_json-perm :
    (t : JsonText) (ms ns : Members)
    → Permᴰ (member_list ms) (member_list ns)
    → HasDistinctKeys ms
    → canonicalize_json t (object ms) ≡ canonicalize_json t (object ns)
unfolding canonicalize_json
canonicalize_json-perm t ms ns p d =
    ap (λ sorted. b'{' ∷ (join_commas (map rendering sorted) ++ b'}' ∷ []))
      (sorted_members t ms
        ∙ ap (map (render_member t)) (
            sort_by-perm member_le member_le-IsOrder p
              (λ a b ma mb h k. d a b ma mb (lex_le_antisymm a.0 b.0 h k)))
        ∙ sym (sorted_members t ns))
