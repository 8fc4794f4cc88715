-- ===== src/CapabilityName.antt =====
-- The names of capabilities, of capability.go: `ValidateCapabilityName` and `IsReservedNamespace`.
pub mod Grammar
pub mod Complete
use aire_go.Base.{
  ltb, leb, ◌==◌, if◌then◌else◌, length, Result, ◌>>=◌, map_err, message, wrapf, ok, err, ℕ, Bool,
  ◌&&◌, ◌||◌, not, none, some, List, [], ◌∷◌,
}
use aire_go.Base.Text.{cut_at, split, codes, bytes_eq}
use aire_go.Varint.{Bytes}

abbrev pub max_capability_name_bytes : ℕ
max_capability_name_bytes = 255

abbrev pub is_alpha : ℕ → Bool
is_alpha b = (leb b'a' b && leb b b'z') || (leb b'A' b && leb b b'Z')

abbrev pub is_digit : ℕ → Bool
is_digit b = leb b'0' b && leb b b'9'

-- The bytes of a label behind the first.
pub validate_label_rest : Bytes → Result (Unit {0})
validate_label_rest [] = ok tt
validate_label_rest (b ∷ bs) =
    if not (is_alpha b) && not (is_digit b) && not (b == b'-')
    then err (message "namespace label has invalid byte")
    else validate_label_rest bs

pub validate_label : Bytes → Result (Unit {0})
unfolding validate_label_rest
validate_label [] = err (message "namespace has empty label")
validate_label (b ∷ bs) =
    if not (is_alpha b)
    then err (message "namespace label must begin with ALPHA")
    else validate_label_rest bs

-- The loop over the labels.
pub validate_labels : List Bytes → Result (Unit {0})
validate_labels [] = ok tt
validate_labels (l ∷ ls) = do _ ← validate_label l; validate_labels ls

unfoldable pub validate_namespace : Bytes → Result (Unit {0})
unfolding validate_labels validate_label
validate_namespace ns =
    if length ns == 0
    then err (message "empty namespace")
    else (let labels = split b'.' ns in validate_labels (labels.0 ∷ labels.1))

pub validate_digits : Bytes → Result (Unit {0})
validate_digits [] = ok tt
validate_digits (b ∷ bs) =
    if not (is_digit b) then err (message "major has non-digit byte") else validate_digits bs

unfoldable pub validate_major : Bytes → Result (Unit {0})
unfolding validate_digits
validate_major [] = err (message "empty major")
validate_major (b ∷ bs) =
    if not (length bs == 0) && b == b'0'
    then err (message "major has leading zero")
    else validate_digits (b ∷ bs)

-- The checks behind the search for the slash.
pub validate_parts : Bytes → Bytes → Result (Unit {0})
validate_parts namespace major =
    if length namespace == 0
    then err (message "aire: capability name has empty namespace")
    else if length major == 0
    then err (message "aire: capability name has empty major")
    else elim (cut_at b'/' major) [
      | some _ ↦ err (message "aire: capability name contains multiple '/' separators")
      | none ↦ (do
        _ ← map_err (wrapf "aire: capability name") (validate_namespace namespace)
        map_err (wrapf "aire: capability name") (validate_major major))
    ]

unfoldable pub validate_capability_name : Bytes → Result (Unit {0})
unfolding validate_parts
validate_capability_name name =
    if length name == 0
    then err (message "aire: capability name is empty")
    else if ltb max_capability_name_bytes (length name)
    then err (message "aire: capability name exceeds 255 bytes")
    else elim (cut_at b'/' name) [
      | none ↦ err (message "aire: capability name missing '/<major>' suffix")
      | some (namespace, major) ↦ validate_parts namespace major
    ]

-- What stands before the first `sep`, or all.
abbrev pub before : ℕ → Bytes → Bytes
before sep s = elim (cut_at sep s) [ none ↦ s | some (front, _) ↦ front ]

unfoldable pub is_reserved_namespace : Bytes → Bool
is_reserved_namespace name = bytes_eq (before b'.' (before b'/' name)) (codes "aire")
