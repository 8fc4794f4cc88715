-- ===== src/Varint/Decode.antt =====
-- `ReadVarint` on any bytes, well formed or not.
use aire_go.Base.{
  ◌==◌, Bool-cases, length, All, Result, short_buffer, sentinel, ok, err, low_six, ℕ, ◌/◌, ◌^◌, ◌≤◌,
  ◌≡◌, refl, ◌⊎◌, inl, inr, [], ◌∷◌, ◌++◌, arith,
}
use aire_go.Varint.{Bytes, IsByte, max_varint, read_two, read_four, read_eight, read_varint}
use aire_go.Varint.Values.{read_two-value, read_four-value, read_eight-value}

-- Each form takes its length in bytes, whatever they hold.
read_two_takes :
    (b : ℕ) (bs : Bytes) (v n : ℕ) → read_two b bs ≡ ok (v, n) → (n ≡ 2) × (2 ≤ length (b ∷ bs))
unfolding read_two
read_two_takes b (b1 ∷ r) v n e = ground arith
read_two_takes b _ v n e = cc

read_four_takes :
    (b : ℕ) (bs : Bytes) (v n : ℕ) → read_four b bs ≡ ok (v, n) → (n ≡ 4) × (4 ≤ length (b ∷ bs))
unfolding read_four
read_four_takes b (b1 ∷ b2 ∷ b3 ∷ r) v n e = ground arith
read_four_takes b _ v n e = cc

read_eight_takes :
    (b : ℕ) (bs : Bytes) (v n : ℕ) → read_eight b bs ≡ ok (v, n) → (n ≡ 8) × (8 ≤ length (b ∷ bs))
unfolding read_eight
read_eight_takes b (b1 ∷ b2 ∷ b3 ∷ b4 ∷ b5 ∷ b6 ∷ b7 ∷ r) v n e = (cc, omega arith)
read_eight_takes b _ v n e = cc

pub read_varint_takes :
    (bs : Bytes) (v n : ℕ) → read_varint bs ≡ ok (v, n) → (1 ≤ n) × (n ≤ 8) × (n ≤ length bs)
unfolding read_varint
read_varint_takes [] v n e = cc
read_varint_takes (b ∷ bs) v n e =
    ground (arith, read_two_takes b bs v n, read_four_takes b bs v n, read_eight_takes b bs v n)

read_two_bound :
    (b : ℕ) (bs : Bytes) (v n : ℕ)
    → All IsByte (b ∷ bs)
    → read_two b bs ≡ ok (v, n)
    → v ≤ max_varint
read_two_bound b (b1 ∷ r) v n (h0, (h1, _)) e = ground (arith, read_two-value b b1 r h0 h1)
read_two_bound b _ v n h e = unfold read_two in cc

read_four_bound :
    (b : ℕ) (bs : Bytes) (v n : ℕ)
    → All IsByte (b ∷ bs)
    → read_four b bs ≡ ok (v, n)
    → v ≤ max_varint
read_four_bound b (b1 ∷ b2 ∷ b3 ∷ r) v n (h0, (h1, (h2, (h3, _)))) e =
    ground (arith, read_four-value b b1 b2 b3 r h0 h1 h2 h3)
read_four_bound b _ v n h e = unfold read_four in cc

read_eight_bound :
    (b : ℕ) (bs : Bytes) (v n : ℕ)
    → All IsByte (b ∷ bs)
    → read_eight b bs ≡ ok (v, n)
    → v ≤ max_varint
read_eight_bound b (b1 ∷ b2 ∷ b3 ∷ b4 ∷ b5 ∷ b6 ∷ b7 ∷ r) v n
      (h0, (h1, (h2, (h3, (h4, (h5, (h6, (h7, hr)))))))) e =
    ground (
      arith,
      read_eight-value b b1 b2 b3 b4 b5 b6 b7 r (h0, (h1, (h2, (h3, (h4, (h5, (h6, (h7, tt)))))))),
    )
read_eight_bound b _ v n h e = unfold read_eight in cc

pub read_varint_bound :
    (bs : Bytes) (v n : ℕ) → All IsByte bs → read_varint bs ≡ ok (v, n) → v ≤ max_varint
unfolding read_varint
read_varint_bound [] v n h e = cc
read_varint_bound (b ∷ bs) v n h e = ground (
  arith,
  low_six b h.0,
  read_two_bound b bs v n h,
  read_four_bound b bs v n h,
  read_eight_bound b bs v n h,
)

-- The only failure is a short buffer.
abbrev pub Reads : Result (ℕ × ℕ) → Type 0
Reads r = ((p : ℕ × ℕ) × (r ≡ ok p)) ⊎ (r ≡ err (sentinel short_buffer))

read_two-Reads : (b : ℕ) (bs : Bytes) → Reads (read_two b bs)
unfolding read_two
read_two-Reads b (b1 ∷ r) = inl (_, refl)
read_two-Reads b _ = inr refl

read_four-Reads : (b : ℕ) (bs : Bytes) → Reads (read_four b bs)
unfolding read_four
read_four-Reads b (b1 ∷ b2 ∷ b3 ∷ r) = inl (_, refl)
read_four-Reads b _ = inr refl

read_eight-Reads : (b : ℕ) (bs : Bytes) → Reads (read_eight b bs)
unfolding read_eight
read_eight-Reads b (b1 ∷ b2 ∷ b3 ∷ b4 ∷ b5 ∷ b6 ∷ b7 ∷ r) = inl (_, refl)
read_eight-Reads b _ = inr refl

pub read_varint-Reads : (bs : Bytes) → Reads (read_varint bs)
unfolding read_varint
read_varint-Reads [] = inr refl
read_varint-Reads (b ∷ bs) = elim (Bool-cases (b / 2 ^ 6 == 0)) [
  | inl e ↦ rw e (inl (_, refl))
  | inr e0 ↦ elim (Bool-cases (b / 2 ^ 6 == 1)) [
    | inl e ↦ rw (e0, e) (read_two-Reads b bs)
    | inr e1 ↦ elim (Bool-cases (b / 2 ^ 6 == 2)) [
      | inl e ↦ rw (e0, e1, e) (read_four-Reads b bs)
      | inr e ↦ rw (e0, e1, e) (read_eight-Reads b bs)
    ]
  ]
]

-- Bytes added behind the input change nothing.
read_two-append :
    (b : ℕ) (bs more : Bytes) {p : ℕ × ℕ} → read_two b bs ≡ ok p → read_two b (bs ++ more) ≡ ok p
unfolding read_two
read_two-append b (b1 ∷ r) more e = e
read_two-append b _ more e = cc

read_four-append :
    (b : ℕ) (bs more : Bytes) {p : ℕ × ℕ} → read_four b bs ≡ ok p → read_four b (bs ++ more) ≡ ok p
unfolding read_four
read_four-append b (b1 ∷ b2 ∷ b3 ∷ r) more e = e
read_four-append b _ more e = cc

read_eight-append :
    (b : ℕ) (bs more : Bytes) {p : ℕ × ℕ}
    → read_eight b bs ≡ ok p
    → read_eight b (bs ++ more) ≡ ok p
unfolding read_eight
read_eight-append b (b1 ∷ b2 ∷ b3 ∷ b4 ∷ b5 ∷ b6 ∷ b7 ∷ r) more e = e
read_eight-append b _ more e = cc

pub read_varint-append :
    (bs more : Bytes) {p : ℕ × ℕ} → read_varint bs ≡ ok p → read_varint (bs ++ more) ≡ ok p
unfolding read_varint
read_varint-append [] more e = cc
read_varint-append (b ∷ bs) more e =
    ground
      (arith, read_two-append b bs more, read_four-append b bs more, read_eight-append b bs more)
