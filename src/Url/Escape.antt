-- ===== src/Url/Escape.antt =====
-- Percent-encoding, and `PathUnescape` on it.
use aire_go.Base.{
  ltb, ◌==◌, if◌then◌else◌, Bool-cases, All, ◌>>=◌, ok, ℕ, ◌+◌, ◌*◌, ◌/◌, ◌%◌, ◌<◌, ◌≡◌, refl, ◌∙◌,
  inl, inr, true, false, [], ◌∷◌, arith,
}
use aire_go.Base.Text.{IsFree}
use aire_go.Varint.{Bytes}
use aire_go.Url.{is_hex, unhex, upper_hex, is_unreserved, path_unescape}

-- Every byte but letters, digits and `-_.~` as `%` and two hexadecimal digits.
unfoldable pub escape : Bytes → Bytes
escape [] = []
escape (c ∷ s) =
    let rest = escape s in
    if is_unreserved c then c ∷ rest else b'%' ∷ upper_hex (c / 16) ∷ upper_hex (c % 16) ∷ rest

is_hex-upper_hex : (n : ℕ) → n < 16 → is_hex (upper_hex n) ≡ true
is_hex-upper_hex n h = elim (Bool-cases (ltb n 10)) [
  | inl t ↦ ground (arith, t)
  | inr f ↦ ground (arith, f)
]

upper_hex-free : (n : ℕ) → n < 16 → (upper_hex n == b':') ≡ false
upper_hex-free n h = elim (Bool-cases (ltb n 10)) [
  | inl t ↦ ground (arith, t)
  | inr f ↦ ground (arith, f)
]

unhex-upper_hex : (n : ℕ) → n < 16 → unhex (upper_hex n) ≡ n
unhex-upper_hex n h = elim (Bool-cases (ltb n 10)) [
  | inl t ↦ ground (arith, t)
  | inr f ↦ ground (arith, f)
]

path_unescape-plain :
    (c : ℕ) (s : Bytes)
    → (c == b'%') ≡ false
    → path_unescape (c ∷ s) ≡ (do cs ← path_unescape s; ok (c ∷ cs))
unfolding path_unescape
path_unescape-plain c [] h = rw h refl
path_unescape-plain c (d ∷ []) h = rw h refl
path_unescape-plain c (d ∷ e ∷ s) h = rw h refl

path_unescape-escaped :
    (c : ℕ) (s : Bytes)
    → c < 256
    → path_unescape (b'%' ∷ upper_hex (c / 16) ∷ upper_hex (c % 16) ∷ s)
      ≡ (do cs ← path_unescape s; ok (c ∷ cs))
unfolding path_unescape
path_unescape-escaped c s h =
    let high : c / 16 < 16 = omega arith in
    let low : c % 16 < 16 = omega arith in
    let whole : c / 16 * 16 + c % 16 ≡ c = omega arith in
    rw (is_hex-upper_hex (c / 16) high, is_hex-upper_hex (c % 16) low)
      (rw (unhex-upper_hex (c / 16) high, unhex-upper_hex (c % 16) low, whole) refl)

pub path_unescape-escape : (s : Bytes) → All (λ c. c < 256) s → path_unescape (escape s) ≡ ok s
unfolding escape path_unescape
path_unescape-escape [] h = refl
path_unescape-escape (c ∷ s) (h, hs) = elim (Bool-cases (is_unreserved c)) [
  | inl t ↦
      rw t
        (path_unescape-plain c (escape s) (ground (arith, t)) ∙ rw (path_unescape-escape s hs) refl)
  | inr f ↦ rw f (path_unescape-escaped c (escape s) h ∙ rw (path_unescape-escape s hs) refl)
]

pub escape-IsFree : (s : Bytes) → All (λ c. c < 256) s → IsFree b':' (escape s)
unfolding escape
escape-IsFree [] h = tt
escape-IsFree (c ∷ s) (h, hs) = elim (Bool-cases (is_unreserved c)) [
  | inl t ↦ rw t (ground (arith, t), escape-IsFree s hs)
  | inr f ↦
      let high : (upper_hex (c / 16) == b':') ≡ false = upper_hex-free (c / 16) (omega arith) in
      let low : (upper_hex (c % 16) == b':') ≡ false = upper_hex-free (c % 16) (omega arith) in
      rw f (refl, (high, (low, escape-IsFree s hs)))
]
