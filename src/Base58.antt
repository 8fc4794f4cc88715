-- ===== src/Base58.antt =====
-- base58btc of identity.go, in the Bitcoin alphabet.
pub mod RoundTrip
pub mod Letters
use aire_go.Base.{
  ltb, ◌==◌, if◌then◌else◌, get_or, replicate, Result, ◌>>=◌, message, ok, err, ℕ, suc, ◌+◌, ◌*◌,
  none, some, [], ◌∷◌, ◌++◌, map, reverse,
}
use aire_go.Base.Text.{codes, index_byte}
use aire_go.Varint.{Bytes}
use aire_go.Digits.{to_digits, of_digits}

abbrev pub b58_alphabet : Bytes
b58_alphabet = codes "123456789ABCDEFGHJKLMNPQRSTUVWXYZabcdefghijkmnopqrstuvwxyz"

-- The loop that appends a `1` for each zero byte at the front.
pub zero_marks : Bytes → Bytes
zero_marks [] = []
zero_marks (b ∷ bs) = let rest = zero_marks bs in if b == 0 then b'1' ∷ rest else []

-- The digits come the least first, and the whole is turned round at the end.
unfoldable pub base58btc_encode : Bytes → Bytes
unfolding zero_marks
base58btc_encode bytes =
    let n = of_digits 256 0 bytes in
    let out = map (λ d. get_or b58_alphabet d 0) (to_digits 58 n) in
    reverse (out ++ zero_marks bytes)

-- The loop over the characters.
scan_base58 : ℕ → Bytes → Result ℕ
scan_base58 n [] = ok n
scan_base58 n (c ∷ cs) = elim (index_byte c b58_alphabet) [
  | none ↦ err (message "base58btc: invalid character")
  | some idx ↦ scan_base58 (n * 58 + idx) cs
]

-- The number of `1` at the front.
leading_ones : Bytes → ℕ
leading_ones [] = 0
leading_ones (c ∷ cs) = let rest = leading_ones cs in if c == b'1' then suc rest else 0

-- `n.Bytes()`, behind a zero byte for each `1` at the front.
unfoldable pub base58btc_decode : Bytes → Result Bytes
unfolding scan_base58 leading_ones
base58btc_decode s = do
  n ← scan_base58 0 s
  let out = reverse (to_digits 256 n)
  let lead = leading_ones s
  ok (if ltb 0 lead then replicate lead 0 ++ out else out)
