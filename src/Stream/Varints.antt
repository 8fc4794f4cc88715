-- ===== src/Stream/Varints.antt =====
-- `readVarintFrom` against `ReadVarint`.
use aire_go.Base.{
  ◌==◌, lt→ltb, Bool-cases, length, take, drop, All, Result, ◌>>=◌, short_buffer, frame_too_large,
  eof, unexpected_eof, sentinel, ok, err, panic, ℕ, ◌-◌, ◌/◌, ◌^◌, ◌≤◌, ◌<◌, ◌≡◌, refl, ◌⊎◌, inl,
  inr, [], ◌∷◌, arith, ℕ_discrete,
}
use aire_go.Varint.{Bytes, read_varint, IsByte}
use aire_go.Stream.{read_full, read_sized, read_tagged, read_first, read_varint_from}

-- The two errors of a stream that ends inside a number.
abbrev pub IsCut {ℓ} : {A : Type ℓ} → Result A → Type ℓ
IsCut r = (r ≡ err (sentinel eof)) ⊎ (r ≡ err (sentinel unexpected_eof))

-- A result of a decoder over the bytes of a stream, as the reader of the stream reports it.
abbrev pub Follows : {A : Type 0} → Bytes → Result (A × ℕ) → Result (A × Bytes) → Type 0
Follows bytes (ok (v, n)) s = s ≡ ok (v, drop n bytes)
Follows bytes (err e) s =
    ((e ≡ sentinel short_buffer) × IsCut s)
    ⊎ ((e ≡ sentinel frame_too_large) × (s ≡ err (sentinel frame_too_large)))
Follows bytes panic s = ⊥

pub read_full-ok : (n : ℕ) (r : Bytes) → n ≤ length r → read_full n r ≡ ok (take n r, drop n r)
unfolding read_full
read_full-ok n r h = ground arith

pub read_full-IsCut : (n : ℕ) (r : Bytes) → length r < n → IsCut (read_full n r)
unfolding read_full
read_full-IsCut n r h =
    rw (lt→ltb _ _ h)
      (elim (Bool-cases (length r == 0)) [ inl e ↦ rw e (inl refl) | inr e ↦ rw e (inr refl) ])

pub IsCut->>= : {A B : Type 0} (r : Result A) (f : A → Result B) → IsCut r → IsCut (r >>= f)
IsCut->>= r f (inl e) = inl (rw e refl)
IsCut->>= r f (inr e) = inr (rw e refl)

module _ (b : ℕ) where
  cut_short :
      (size : ℕ) (bs : Bytes)
      → read_varint (b ∷ bs) ≡ err (sentinel short_buffer)
      → length bs < size - 1
      → Follows (b ∷ bs) (read_varint (b ∷ bs)) (read_sized size b bs)
  unfolding read_sized
  cut_short size bs e h =
      rw e (inl (refl, IsCut->>= (read_full (size - 1) bs) _ (read_full-IsCut (size - 1) bs h)))

  read_sized-two :
      (bs : Bytes) → b / 2 ^ 6 ≡ 1 → Follows (b ∷ bs) (read_varint (b ∷ bs)) (read_sized 2 b bs)
  unfolding read_sized read_varint take drop
  read_sized-two (b1 ∷ r) e = rw (e, read_full-ok 1 (b1 ∷ r) (omega arith))
  read_sized-two [] e = cut_short 2 [] (rw e) (omega arith)

  read_sized-four :
      (bs : Bytes) → b / 2 ^ 6 ≡ 2 → Follows (b ∷ bs) (read_varint (b ∷ bs)) (read_sized 4 b bs)
  unfolding read_sized read_varint take drop
  read_sized-four (b1 ∷ b2 ∷ b3 ∷ r) e = rw (e, read_full-ok 3 (b1 ∷ b2 ∷ b3 ∷ r) (omega arith))
  read_sized-four [] e = cut_short 4 [] (rw e) (omega arith)
  read_sized-four (b1 ∷ []) e = cut_short 4 (b1 ∷ []) (rw e) (omega arith)
  read_sized-four (b1 ∷ b2 ∷ []) e = cut_short 4 (b1 ∷ b2 ∷ []) (rw e) (omega arith)

  read_sized-eight :
      (bs : Bytes) → b / 2 ^ 6 ≡ 3 → Follows (b ∷ bs) (read_varint (b ∷ bs)) (read_sized 8 b bs)
  unfolding read_sized read_varint take drop
  read_sized-eight (b1 ∷ b2 ∷ b3 ∷ b4 ∷ b5 ∷ b6 ∷ b7 ∷ r) e =
      rw (e, read_full-ok 7 (b1 ∷ b2 ∷ b3 ∷ b4 ∷ b5 ∷ b6 ∷ b7 ∷ r) (omega arith))
  read_sized-eight [] e = cut_short 8 [] (rw e) (omega arith)
  read_sized-eight (b1 ∷ []) e = cut_short 8 (b1 ∷ []) (rw e) (omega arith)
  read_sized-eight (b1 ∷ b2 ∷ []) e = cut_short 8 (b1 ∷ b2 ∷ []) (rw e) (omega arith)
  read_sized-eight (b1 ∷ b2 ∷ b3 ∷ []) e = cut_short 8 (b1 ∷ b2 ∷ b3 ∷ []) (rw e) (omega arith)
  read_sized-eight (b1 ∷ b2 ∷ b3 ∷ b4 ∷ []) e =
      cut_short 8 (b1 ∷ b2 ∷ b3 ∷ b4 ∷ []) (rw e) (omega arith)
  read_sized-eight (b1 ∷ b2 ∷ b3 ∷ b4 ∷ b5 ∷ []) e =
      cut_short 8 (b1 ∷ b2 ∷ b3 ∷ b4 ∷ b5 ∷ []) (rw e) (omega arith)
  read_sized-eight (b1 ∷ b2 ∷ b3 ∷ b4 ∷ b5 ∷ b6 ∷ []) e =
      cut_short 8 (b1 ∷ b2 ∷ b3 ∷ b4 ∷ b5 ∷ b6 ∷ []) (rw e) (omega arith)

  tagged_two : (bs : Bytes) → b / 2 ^ 6 ≡ 1 → read_tagged b bs ≡ read_sized 2 b bs
  unfolding read_tagged
  tagged_two bs e = rw e

  tagged_four : (bs : Bytes) → b / 2 ^ 6 ≡ 2 → read_tagged b bs ≡ read_sized 4 b bs
  unfolding read_tagged
  tagged_four bs e = rw e

  tagged_eight : (bs : Bytes) → b / 2 ^ 6 ≡ 3 → read_tagged b bs ≡ read_sized 8 b bs
  unfolding read_tagged
  tagged_eight bs e = rw e

  read_varint_from-tagged : (bs : Bytes) → read_varint_from (b ∷ bs) ≡ read_tagged b bs
  unfolding read_varint_from read_first take drop
  read_varint_from-tagged bs = rw (read_full-ok 1 (b ∷ bs) (omega arith))

  read_sized-one :
      (bs : Bytes) → b / 2 ^ 6 ≡ 0 → Follows (b ∷ bs) (read_varint (b ∷ bs)) (read_tagged b bs)
  unfolding read_tagged read_varint drop
  read_sized-one bs e = rw e refl

  read_tagged-Follows :
      (bs : Bytes) → IsByte b → Follows (b ∷ bs) (read_varint (b ∷ bs)) (read_tagged b bs)
  read_tagged-Follows bs h = elim (ℕ_discrete (b / 2 ^ 6) 0) [
    | yes e ↦ read_sized-one bs e
    | no n0 ↦ elim (ℕ_discrete (b / 2 ^ 6) 1) [
      | yes e ↦ rw (tagged_two bs e) (read_sized-two bs e)
      | no n1 ↦ elim (ℕ_discrete (b / 2 ^ 6) 2) [
        | yes e ↦ rw (tagged_four bs e) (read_sized-four bs e)
        | no n2 ↦
            let e : b / 2 ^ 6 ≡ 3 = omega arith in rw (tagged_eight bs e) (read_sized-eight bs e)
      ]
    ]
  ]

-- On the bytes of a stream `readVarintFrom` returns the number that `ReadVarint` finds and leaves
-- what stands behind it; where `ReadVarint` is short of bytes, the stream ends.
pub read_varint_from-Follows :
    (bytes : Bytes) → All IsByte bytes → Follows bytes (read_varint bytes) (read_varint_from bytes)
read_varint_from-Follows [] h =
    unfold read_varint read_varint_from read_full in inl (refl, inl refl)
read_varint_from-Follows (b ∷ bs) h =
    rw (read_varint_from-tagged b bs) (read_tagged-Follows b bs h.0)
