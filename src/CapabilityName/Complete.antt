-- ===== src/CapabilityName/Complete.antt =====
-- `ValidateCapabilityName` accepts exactly the names of the grammar.
use aire_go.Base.{
  ltb, ◌==◌, ge→ltb, ne→==, Option-cases, length, length-append, All, All-append, Result-cases, ok,
  ◌≡◌, refl, ap, ◌↔◌, inl, inr, true, false, some, List, [], ◌∷◌, arith,
}
use aire_go.Base.Text.{cut_at, split, IsFree, cut_at-some, cut_at-front, cut_at-none}
use aire_go.Base.Split.{join_at, split-join_at, join_at-split}
use aire_go.Varint.{Bytes}
use aire_go.CapabilityName.Grammar.{
  IsLabel, IsCapabilityName, IsLabelByte, IsMajor, validate_labels-IsLabel, validate_major-IsMajor,
}
use aire_go.CapabilityName.{
  cut_at, is_digit, validate_label_rest, validate_label, validate_labels, validate_namespace,
  validate_digits, validate_major, validate_parts, validate_capability_name,
}

label_rest-IsFree : (bs : Bytes) → All IsLabelByte bs → IsFree b'.' bs × IsFree b'/' bs
label_rest-IsFree [] h = (tt, tt)
label_rest-IsFree (b ∷ bs) (h, hs) =
    let (d, s) = label_rest-IsFree bs hs in ((ground arith, d), (ground arith, s))

label-IsFree : (l : Bytes) → IsLabel l → IsFree b'.' l × IsFree b'/' l
label-IsFree [] h = absurd h
label-IsFree (b ∷ bs) (h, hs) =
    let (d, s) = label_rest-IsFree bs hs in ((ground arith, d), (ground arith, s))

labels-IsFree : (ls : List Bytes) → All IsLabel ls → All (IsFree b'.') ls
labels-IsFree [] h = tt
labels-IsFree (l ∷ ls) (h, hs) = ((label-IsFree l h).0, labels-IsFree ls hs)

dotted-IsFree :
    (l : Bytes) (ls : List Bytes) → All IsLabel (l ∷ ls) → IsFree b'/' (join_at b'.' l ls)
dotted-IsFree l [] (h, _) = (label-IsFree l h).1
dotted-IsFree l (k ∷ ks) (h, hs) =
    All-append _ l (b'.' ∷ join_at b'.' k ks) (label-IsFree l h).1 (refl, dotted-IsFree k ks hs)

digits-IsFree : (bs : Bytes) → All (λ c. is_digit c ≡ true) bs → IsFree b'/' bs
digits-IsFree [] h = tt
digits-IsFree (b ∷ bs) (h, hs) = (ground arith, digits-IsFree bs hs)

validate_label_rest_complete : (bs : Bytes) → All IsLabelByte bs → validate_label_rest bs ≡ ok tt
unfolding validate_label_rest
validate_label_rest_complete [] h = refl
validate_label_rest_complete (b ∷ bs) (h, hs) = ground (arith, validate_label_rest_complete bs hs)

validate_labels_complete : (ls : List Bytes) → All IsLabel ls → validate_labels ls ≡ ok tt
unfolding validate_labels validate_label
validate_labels_complete [] h = refl
validate_labels_complete ([] ∷ ls) (h, hs) = absurd h
validate_labels_complete ((b ∷ bs) ∷ ls) ((h, hb), hs) =
    rw (h, validate_label_rest_complete bs hb) (validate_labels_complete ls hs)

validate_digits_complete :
    (bs : Bytes) → All (λ c. is_digit c ≡ true) bs → validate_digits bs ≡ ok tt
unfolding validate_digits
validate_digits_complete [] h = refl
validate_digits_complete (b ∷ bs) (h, hs) = rw h (validate_digits_complete bs hs)

validate_major_complete : (s : Bytes) → IsMajor s → validate_major s ≡ ok tt
unfolding validate_major
validate_major_complete [] h = absurd h
validate_major_complete (b ∷ []) (h, hs, z) = validate_digits_complete (b ∷ []) (h, hs)
validate_major_complete (b ∷ c ∷ cs) (h, hs, z) =
    let nz : (b == b'0') ≡ false = ne→== _ _ (λ e. cc (z e)) in
    let d = validate_digits_complete (b ∷ c ∷ cs) (h, hs) in rw (nz, d) (ground arith)

dotted-length :
    (l : Bytes) (ls : List Bytes) → All IsLabel (l ∷ ls) → (length (join_at b'.' l ls) == 0) ≡ false
dotted-length [] ls (h, _) = absurd h
dotted-length (b ∷ bs) [] h = ground arith
dotted-length (b ∷ bs) (k ∷ ks) h = ground arith

major-length : (s : Bytes) → IsMajor s → (length s == 0) ≡ false
major-length [] h = absurd h
major-length (b ∷ bs) h = ground arith

major-IsFree : (s : Bytes) → IsMajor s → IsFree b'/' s
major-IsFree [] h = absurd h
major-IsFree (b ∷ bs) (h, hs, _) = digits-IsFree (b ∷ bs) (h, hs)

validate_namespace_complete :
    (l : Bytes) (ls : List Bytes)
    → All IsLabel (l ∷ ls)
    → validate_namespace (join_at b'.' l ls) ≡ ok tt
unfolding validate_namespace
validate_namespace_complete l ls h =
    rw (dotted-length l ls h, split-join_at b'.' l ls (labels-IsFree (l ∷ ls) h))
      (validate_labels_complete (l ∷ ls) h)

validate_capability_name_complete :
    (name : Bytes) → IsCapabilityName name → validate_capability_name name ≡ ok tt
unfolding validate_capability_name validate_parts
validate_capability_name_complete name h =
    let ns = join_at b'.' h.first h.others in
    let spelled = h.spelled in
    let some_name : (length name == 0) ≡ false =
      ne→== _ _ (λ e. omega (arith, e, ap length spelled, length-append ns (b'/' ∷ h.major))) in
    let short : ltb 255 (length name) ≡ false = ge→ltb _ _ h.short in
    let cut : cut_at b'/' name ≡ some (ns, h.major) =
      rw spelled (cut_at-front b'/' ns h.major (dotted-IsFree h.first h.others h.labels)) in
    rw
      (
        some_name,
        short,
        cut,
        dotted-length h.first h.others h.labels,
        major-length h.major h.number,
        cut_at-none b'/' h.major (major-IsFree h.major h.number),
        validate_namespace_complete h.first h.others h.labels,
        validate_major_complete h.major h.number,
      )
      refl

validate_parts-ok :
    (ns major : Bytes)
    → validate_parts ns major ≡ ok tt
    → (validate_namespace ns ≡ ok tt) × (validate_major major ≡ ok tt)
unfolding validate_parts
validate_parts-ok ns major e = elim (Option-cases (cut_at b'/' major)) [
  | inr (p, c) ↦ ground (arith, c)
  | inl c ↦ elim (Result-cases (validate_namespace ns)) [
    | inr (inl (x, a)) ↦ ground (arith, c, a)
    | inr (inr a) ↦ ground (arith, c, a)
    | inl (_, a) ↦ elim (Result-cases (validate_major major)) [
      | inr (inl (x, b)) ↦ ground (arith, c, a, b)
      | inr (inr b) ↦ ground (arith, c, a, b)
      | inl (_, b) ↦ (a, b)
    ]
  ]
]

namespace-labels :
    (ns : Bytes)
    → validate_namespace ns ≡ ok tt
    → All IsLabel ((split b'.' ns).0 ∷ (split b'.' ns).1)
unfolding validate_namespace
namespace-labels ns e =
    validate_labels-IsLabel ((split b'.' ns).0 ∷ (split b'.' ns).1) (ground arith)

validate_capability_name_sound :
    (name : Bytes) → validate_capability_name name ≡ ok tt → IsCapabilityName name
unfolding validate_capability_name
validate_capability_name_sound name e = elim (Option-cases (cut_at b'/' name)) [
  | inl c ↦ ground (arith, c)
  | inr ((ns, major), c) ↦
      let (a, b) = validate_parts-ok ns major (ground (arith, c)) in
      record {
        first = (split b'.' ns).0;
        others = (split b'.' ns).1;
        major = major;
        spelled = rw (join_at-split b'.' ns) (cut_at-some b'/' name ns major c);
        short = ground (arith, c);
        labels = namespace-labels ns a;
        number = validate_major-IsMajor major b;
      }
]

-- `ValidateCapabilityName` accepts exactly the names of the grammar: at most 255 bytes, one or more
-- labels with a dot between two of them, a slash and the major version; a label is a letter and
-- then letters, digits and hyphens; the major version is one or more digits without a leading zero.
pub validate_capability_name-ok_iff :
    (name : Bytes) → (validate_capability_name name ≡ ok tt) ↔ IsCapabilityName name
validate_capability_name-ok_iff name =
    (validate_capability_name_sound name, validate_capability_name_complete name)
