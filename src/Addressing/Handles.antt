-- ===== src/Addressing/Handles.antt =====
-- The texts that `parseHandle` and the TXT lookup accept.
use aire_go.Base.{
  ◌==◌, Bool-cases, Option-cases, length, drop, length-append, ok, ℕ, ◌≡◌, refl, sym, ap, ◌∙◌, ◌≢◌,
  ◌↔◌, ◌⊎◌, inl, inr, true, false, none, some, [], ◌∷◌, ◌++◌, arith,
}
use aire_go.Base.Text.{
  IsFree, codes, has_prefix, cut_at, has_prefix-append, has_prefix_sound, cut_at-some, cut_at-front,
  cut_at-none,
}
use aire_go.Varint.{Bytes}
use aire_go.Addressing.{parse_handle, parse_trimmed_handle}

-- A local part and a domain, neither empty nor with an `@` in it.
pub record IsHandle (local domain : Bytes) : Type 0 where
  pub some_local : local ≢ []
  pub some_domain : domain ≢ []
  pub local_free : IsFree b'@' local
  pub domain_free : IsFree b'@' domain

-- Such a handle, with or without the `@` in front.
abbrev pub SpellsHandle : Bytes → Bytes → Bytes → Type 0
SpellsHandle s local domain =
    ((s ≡ local ++ b'@' ∷ domain) ⊎ (s ≡ b'@' ∷ local ++ b'@' ∷ domain)) × IsHandle local domain

cut_at-IsFree :
    (sep : ℕ) (s front back : Bytes) → cut_at sep s ≡ some (front, back) → IsFree sep front
unfolding cut_at
cut_at-IsFree sep [] front back e = cc
cut_at-IsFree sep (b ∷ bs) front back e = elim (Bool-cases (b == sep)) [
  | inl t ↦ let same : [] ≡ front = ground (arith, t) in rw (sym same) tt
  | inr f ↦ elim (Option-cases (cut_at sep bs)) [
    | inl n ↦ ground (arith, f, n)
    | inr ((front', back'), c) ↦
        let same : b ∷ front' ≡ front = ground (arith, f, c) in
        rw (sym same) (f, cut_at-IsFree sep bs front' back' c)
  ]
]

cut_at-none-IsFree : (sep : ℕ) (s : Bytes) → cut_at sep s ≡ none → IsFree sep s
unfolding cut_at
cut_at-none-IsFree sep [] e = tt
cut_at-none-IsFree sep (b ∷ bs) e = elim (Bool-cases (b == sep)) [
  | inl t ↦ ground (arith, t)
  | inr f ↦ elim (Option-cases (cut_at sep bs)) [
    | inl n ↦ (f, cut_at-none-IsFree sep bs n)
    | inr ((front', back'), c) ↦ ground (arith, f, c)
  ]
]

length-zero : (s : Bytes) → (length s == 0) ≡ true → s ≡ []
length-zero [] e = refl
length-zero (c ∷ s) e = ground arith

parse_trimmed_handle-ok :
    (s local domain : Bytes)
    → parse_trimmed_handle s ≡ ok (local, domain)
    → (s ≡ local ++ b'@' ∷ domain) × IsHandle local domain
unfolding parse_trimmed_handle
parse_trimmed_handle-ok s local domain e = elim (Bool-cases (length s == 0)) [
  | inl a ↦ ground (arith, a)
  | inr a ↦ elim (Option-cases (cut_at b'@' s)) [
    | inl b ↦ ground (arith, a, b)
    | inr ((front, back), b) ↦ elim (Bool-cases (length front == 0)) [
      | inl c ↦ ground (arith, a, b, c)
      | inr c ↦ elim (Bool-cases (length back == 0)) [
        | inl d ↦ ground (arith, a, b, c, d)
        | inr d ↦ elim (Option-cases (cut_at b'@' back)) [
          | inr (x, f) ↦ ground (arith, a, b, c, d, f)
          | inl f ↦
              let (same_local, same_domain) : (front ≡ local) × (back ≡ domain) =
                ground (arith, a, b, c, d, f) in
              (
                rw (sym same_local, sym same_domain) (cut_at-some b'@' s front back b),
                record {
                  some_local = λ n. ground (arith, c, same_local, n);
                  some_domain = λ n. ground (arith, d, same_domain, n);
                  local_free = rw (sym same_local) (cut_at-IsFree b'@' s front back b);
                  domain_free = rw (sym same_domain) (cut_at-none-IsFree b'@' back f);
                },
              )
        ]
      ]
    ]
  ]
]

length-some : (s : Bytes) → s ≢ [] → (length s == 0) ≡ false
length-some [] ne = absurd (ne refl)
length-some (c ∷ s) ne = ground arith

parse_trimmed_handle-handle :
    (local domain : Bytes)
    → IsHandle local domain
    → parse_trimmed_handle (local ++ b'@' ∷ domain) ≡ ok (local, domain)
unfolding parse_trimmed_handle
parse_trimmed_handle-handle local domain h =
    let some_text : (length (local ++ b'@' ∷ domain) == 0) ≡ false =
      ground (arith, length-append local (b'@' ∷ domain)) in
    rw
      (
        some_text,
        cut_at-front b'@' local domain h.local_free,
        length-some local h.some_local,
        length-some domain h.some_domain,
        cut_at-none b'@' domain h.domain_free,
      )
      refl

no_prefix :
    (local rest : Bytes)
    → local ≢ []
    → IsFree b'@' local
    → has_prefix (codes "@") (local ++ rest) ≡ false
unfolding has_prefix
no_prefix [] rest ne h = absurd (ne refl)
no_prefix (c ∷ local) rest ne h = ground (arith, h)

-- `parseHandle` accepts exactly the texts `local@domain` and `@local@domain` where neither part is
-- empty or holds an `@`, and returns the two parts.
pub parse_handle-ok_iff :
    (s local domain : Bytes) → (parse_handle s ≡ ok (local, domain)) ↔ SpellsHandle s local domain
unfolding parse_handle drop
parse_handle-ok_iff s local domain = (
  λ e. elim (Bool-cases (has_prefix (codes "@") s)) [
    | inr a ↦ let (same, h) = parse_trimmed_handle-ok s local domain (rw a at e) in (inl same, h)
    | inl a ↦
        let (rest, whole) = has_prefix_sound (codes "@") s a in
        let (same, h) = parse_trimmed_handle-ok rest local domain (rw (a, whole) at e) in
        (inr (whole ∙ ap (λ (l : Bytes). b'@' ∷ l) same), h)
  ],
  λ (spelled, h). elim spelled [
    | inl same ↦
        rw (same, no_prefix local (b'@' ∷ domain) h.some_local h.local_free)
          (parse_trimmed_handle-handle local domain h)
    | inr same ↦
        rw (same, has_prefix-append (codes "@") (local ++ b'@' ∷ domain))
          (parse_trimmed_handle-handle local domain h)
  ],
)
