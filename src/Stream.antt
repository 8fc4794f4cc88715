-- ===== src/Stream.antt =====
-- `readFrame` and `readVarintFrom` of conn.go, `SendFrame` and `RecvFrame` on a stream.
pub mod Varints
pub mod Frames
pub mod Sequence
use aire_go.Base.{
  ltb, ◌==◌, if◌then◌else◌, length, take, drop, Result, ◌>>=◌, frame_too_large, eof, unexpected_eof,
  sentinel, ok, err, panic, ℕ, ◌-◌, ◌/◌, ◌^◌, bit_and, [], ◌∷◌, ◌++◌,
}
use aire_go.Varint.{Bytes, read_varint}
use aire_go.Frame.{Frame, max_frame_size, encode}

-- `io.ReadFull(r, buf)` for a buffer of `n` bytes. The reader is the list of the bytes that the
-- peer still sends before it closes its side; the second part of the result is what is left.
-- `io.EOF` stands for no byte read, `io.ErrUnexpectedEOF` for some.
unfoldable pub read_full : ℕ → Bytes → Result (Bytes × Bytes)
read_full n r =
    if ltb (length r) n
    then if length r == 0 then err (sentinel eof) else err (sentinel unexpected_eof)
    else ok (take n r, drop n r)

-- The bytes of a number that has more than one, `first` among them.
read_sized : ℕ → ℕ → Bytes → Result (ℕ × Bytes)
read_sized size first r = do
  (buf, r') ← read_full (size - 1) r
  (v, _) ← read_varint (first ∷ buf)
  ok (v, r')

-- The switch over the length tag.
read_tagged : ℕ → Bytes → Result (ℕ × Bytes)
unfolding read_sized
read_tagged first r =
    if first / 2 ^ 6 == 0
    then ok (bit_and first 0x3F, r)
    else if first / 2 ^ 6 == 1
    then read_sized 2 first r
    else if first / 2 ^ 6 == 2
    then read_sized 4 first r
    else read_sized 8 first r

-- `first[0]` of the one-byte buffer; `ReadFull` never returns fewer bytes.
read_first : Bytes → Bytes → Result (ℕ × Bytes)
unfolding read_tagged
read_first (first ∷ _) r = read_tagged first r
read_first [] r = panic

unfoldable pub read_varint_from : Bytes → Result (ℕ × Bytes)
unfolding read_first
read_varint_from r = do (first, r') ← read_full 1 r; read_first first r'

pub read_payload : ℕ → Bytes → Result (Bytes × Bytes)
read_payload plen r = if ltb 0 plen then read_full plen r else ok ([], r)

-- The frame and what is left of the stream.
pub read_frame_body : ℕ → ℕ → Bytes → Result (Frame × Bytes)
unfolding read_payload
read_frame_body type flags r = do
  (op_id, r1) ← read_varint_from r
  (plen, r2) ← read_varint_from r1
  if ltb max_frame_size plen then err (sentinel frame_too_large) else do
    (payload, r3) ← read_payload plen r2
    ok (record { type = type; flags = flags; op_id = op_id; payload = payload }, r3)

-- `header[0]` and `header[1]`.
pub read_header : Bytes → Bytes → Result (Frame × Bytes)
unfolding read_frame_body
read_header (type ∷ flags ∷ _) r = read_frame_body type flags r
read_header _ r = panic

unfoldable pub read_frame : Bytes → Result (Frame × Bytes)
unfolding read_header
read_frame r = do (header, r') ← read_full 2 r; read_header header r'

-- `SendFrame` writes the encoding behind what the stream holds already.
unfoldable pub send_frame : Frame → Bytes → Result Bytes
send_frame f stream = do bytes ← encode f; ok (stream ++ bytes)
