-- ===== src/Core/Names.antt =====
-- core/util.go: UniqueLowerNames.
use boulder.Prelude.Text.{Text, text_eq_iff, text_Eq, to_lower}
use boulder.Prelude.Sorting.{
  sort_strings, IsSorted, Distinct, IsSorted-ext, sort_strings-IsSorted, elem-sort_strings,
}
use boulder.Prelude.{◌≡◌, sym, ◌∙◌, ◌||◌, List, [], ◌∷◌, arith, elem, map, if◌then◌else◌, ◌==◌}

-- nameMap[name] = 1: the keys of the map, each once.
unfoldable pub add_key : Text → List Text → List Text
add_key k keys = if elem k keys then keys else k ∷ keys

unfoldable pub lower_keys : List Text → List Text → List Text
unfolding add_key
lower_keys keys [] = keys
lower_keys keys (n ∷ ns) = lower_keys (add_key (to_lower n) keys) ns

-- The map gives its keys in some order; here, the last new key first.
unfoldable pub unique_lower_names : List Text → List Text
unfolding lower_keys sort_strings
unique_lower_names names = sort_strings (lower_keys [] names)

pub elem-add_key :
    (z k : Text) (keys : List Text) → elem z (add_key k keys) ≡ (k == z || elem z keys)
unfolding elem add_key
elem-add_key z k keys = ground (arith, text_eq_iff k z)

pub add_key-Distinct : (k : Text) (keys : List Text) → Distinct keys → Distinct (add_key k keys)
unfolding add_key
add_key-Distinct k keys d = ground arith

lower_keys-Distinct : (keys ns : List Text) → Distinct keys → Distinct (lower_keys keys ns)
unfolding lower_keys
lower_keys-Distinct keys [] d = d
lower_keys-Distinct keys (n ∷ ns) d =
    lower_keys-Distinct (add_key (to_lower n) keys) ns (add_key-Distinct (to_lower n) keys d)

elem-lower_keys :
    (z : Text) (keys ns : List Text)
    → elem z (lower_keys keys ns) ≡ (elem z keys || elem z (map to_lower ns))
unfolding lower_keys elem
elem-lower_keys z keys [] = ground arith
elem-lower_keys z keys (n ∷ ns) =
    ground
      (arith, elem-add_key z (to_lower n) keys, elem-lower_keys z (add_key (to_lower n) keys) ns)

-- The result is sorted with no repetition, and holds exactly the lowered names.
pub unique_lower_names-IsSorted :
    (names : List Text) (z : Text)
    → IsSorted (unique_lower_names names)
      × (elem z (unique_lower_names names) ≡ elem z (map to_lower names))
unfolding unique_lower_names elem
unique_lower_names-IsSorted names z = (
  sort_strings-IsSorted (lower_keys [] names) (lower_keys-Distinct [] names tt),
  elem-sort_strings z (lower_keys [] names) ∙ elem-lower_keys z [] names,
)

-- Two lists with the same lowered names, in any order, case and number, give one result; so does
-- any order in which Go may walk the map.
pub unique_lower_names-ext :
    (names other : List Text)
    → ((z : Text) → elem z (map to_lower names) ≡ elem z (map to_lower other))
    → unique_lower_names names ≡ unique_lower_names other
unique_lower_names-ext names other h =
    IsSorted-ext (unique_lower_names names) (unique_lower_names other)
      (unique_lower_names-IsSorted names []).0 (unique_lower_names-IsSorted other []).0
      λ z.
        (unique_lower_names-IsSorted names z).1 ∙ h z ∙ sym (unique_lower_names-IsSorted other z).1

-- The set of names that any walk of the map gives, sorted, is the result.
pub sort_strings_unique :
    (names keys : List Text)
    → Distinct keys
    → ((z : Text) → elem z keys ≡ elem z (map to_lower names))
    → sort_strings keys ≡ unique_lower_names names
sort_strings_unique names keys d h =
    IsSorted-ext (sort_strings keys) (unique_lower_names names) (sort_strings-IsSorted keys d)
      (unique_lower_names-IsSorted names []).0
      λ z. elem-sort_strings z keys ∙ h z ∙ sym (unique_lower_names-IsSorted names z).1
