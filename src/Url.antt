-- ===== src/Url.antt =====
-- What addressing.go uses of packages net/url and strings: the escaping of URLs, and `TrimSpace`.
pub mod Escape
use aire_go.Base.{
  ltb, leb, ◌==◌, if◌then◌else◌, length, Result, ◌>>=◌, message, ok, err, ℕ, zero, suc, ◌+◌, ◌-◌,
  ◌*◌, ◌/◌, ◌%◌, Bool, ◌&&◌, ◌||◌, Option, none, some, List, [], ◌∷◌, ◌++◌, reverse,
}
use aire_go.Varint.{Bytes}

abbrev pub is_hex : ℕ → Bool
is_hex c = (leb b'0' c && leb c b'9') || ((leb b'a' c && leb c b'f') || (leb b'A' c && leb c b'F'))

abbrev pub unhex : ℕ → ℕ
unhex c =
    if leb b'0' c && leb c b'9'
    then c - b'0'
    else if leb b'a' c && leb c b'f'
    then c - b'a' + 10
    else c - b'A' + 10

-- One byte that is no escape, in front of what the rest gives.
abbrev plain : ℕ → Result Bytes → Result Bytes
plain c rest = if c == b'%' then err (message "invalid URL escape") else (do cs ← rest; ok (c ∷ cs))

-- `url.PathUnescape`
unfoldable pub path_unescape : Bytes → Result Bytes
path_unescape [] = ok []
path_unescape (c ∷ []) = plain c (ok [])
path_unescape (c ∷ d ∷ []) = plain c (path_unescape (d ∷ []))
path_unescape (c ∷ d ∷ e ∷ s) =
    let behind = path_unescape s in
    let next = path_unescape (d ∷ e ∷ s) in
    if c == b'%' && (is_hex d && is_hex e)
    then (do cs ← behind; ok ((unhex d * 16 + unhex e) ∷ cs))
    else plain c next

abbrev pub upper_hex : ℕ → ℕ
upper_hex n = if ltb n 10 then b'0' + n else b'A' + (n - 10)

abbrev pub is_unreserved : ℕ → Bool
is_unreserved c =
    (leb b'a' c && leb c b'z')
    || ((leb b'A' c && leb c b'Z')
        || ((leb b'0' c && leb c b'9') || (c == b'-' || (c == b'_' || (c == b'.' || c == b'~')))))

-- `url.QueryEscape`
unfoldable pub query_escape : Bytes → Bytes
query_escape [] = []
query_escape (c ∷ s) =
    let rest = query_escape s in
    if is_unreserved c
    then c ∷ rest
    else if c == b' '
    then b'+' ∷ rest
    else b'%' ∷ upper_hex (c / 16) ∷ upper_hex (c % 16) ∷ rest

-- The UTF-8 forms of the code points that `unicode.IsSpace` accepts.
abbrev space_one : ℕ → Bool
space_one a = (leb 9 a && leb a 13) || a == b' '

abbrev space_two : ℕ → ℕ → Bool
space_two a b = a == 0xC2 && (b == 0x85 || b == 0xA0)

abbrev space_three : ℕ → ℕ → ℕ → Bool
space_three a b c =
    (a == 0xE1 && (b == 0x9A && c == 0x80))
    || ((a == 0xE2
          && ((b == 0x80 && (leb 0x80 c && leb c 0x8A || (c == 0xA8 || (c == 0xA9 || c == 0xAF))))
              || (b == 0x81 && c == 0x9F)))
        || (a == 0xE3 && (b == 0x80 && c == 0x80)))

-- What is left behind a space at the front, if one is there.
drop_space : Bytes → Option Bytes
drop_space [] = none
drop_space (a ∷ []) = if space_one a then some [] else none
drop_space (a ∷ b ∷ []) =
    if space_one a then some (b ∷ []) else if space_two a b then some [] else none
drop_space (a ∷ b ∷ c ∷ s) =
    if space_one a
    then some (b ∷ c ∷ s)
    else if space_two a b
    then some (c ∷ s)
    else if space_three a b c
    then some s
    else none

-- The same for a text that is turned round.
drop_space_back : Bytes → Option Bytes
drop_space_back [] = none
drop_space_back (a ∷ []) = if space_one a then some [] else none
drop_space_back (b ∷ a ∷ []) =
    if space_one b then some (a ∷ []) else if space_two a b then some [] else none
drop_space_back (c ∷ b ∷ a ∷ s) =
    if space_one c
    then some (b ∷ a ∷ s)
    else if space_two b c
    then some (a ∷ s)
    else if space_three a b c
    then some s
    else none

-- All spaces at the front; each takes a byte at least, so the length is fuel enough.
drop_spaces : ℕ → (Bytes → Option Bytes) → Bytes → Bytes
drop_spaces zero step s = s
drop_spaces (suc fuel) step s = elim (step s) [ none ↦ s | some rest ↦ drop_spaces fuel step rest ]

-- `strings.TrimSpace`
unfoldable pub trim_space : Bytes → Bytes
unfolding drop_spaces drop_space drop_space_back
trim_space s =
    let front = drop_spaces (length s) drop_space s in
    reverse (drop_spaces (length front) drop_space_back (reverse front))

drop_newlines : Bytes → Bytes
drop_newlines [] = []
drop_newlines (c ∷ s) = let rest = drop_newlines s in if c == 10 then rest else c ∷ s

-- `strings.TrimRight(s, "\n")`
unfoldable pub trim_newlines : Bytes → Bytes
unfolding drop_newlines
trim_newlines s = reverse (drop_newlines (reverse s))

-- `strings.Join`
unfoldable pub join : Bytes → List Bytes → Bytes
join sep [] = []
join sep (p ∷ []) = p
join sep (p ∷ q ∷ ps) = p ++ (sep ++ join sep (q ∷ ps))
