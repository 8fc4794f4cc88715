-- ===== src/Strings.antt =====
-- `appendString` and `readString` of handshake.go: a string behind its length. A Go string is the
-- list of its bytes.
pub mod RoundTrip
use aire_go.Base.{
  ltb, if◌then◌else◌, length, take, drop, Result, ◌>>=◌, short_buffer, sentinel, ok, err, ℕ, ◌+◌,
  ◌-◌, ◌++◌,
}
use aire_go.Varint.{Bytes, append_varint, read_varint}

unfoldable pub append_string : Bytes → Bytes → Result Bytes
append_string dst s = do dst' ← append_varint dst (length s); ok (dst' ++ s)

-- The string and the number of bytes read, its length field included.
unfoldable pub read_string : Bytes → Result (Bytes × ℕ)
read_string bytes = do
  (len, n) ← read_varint bytes
  if ltb (length bytes - n) len
      then err (sentinel short_buffer)
      else ok (take len (drop n bytes), n + len)
