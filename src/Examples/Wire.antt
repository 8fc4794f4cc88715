-- ===== src/Examples/Wire.antt =====
-- frame.go and conn.go at concrete inputs.
use aire_go.Base.{
  err, short_buffer, sentinel, All, length, take, drop, ok, panic, ◌^◌, ◌≤◌, ◌≡◌, refl, [], ◌∷◌,
  ◌++◌, arith,
}
use aire_go.Varint.{Bytes, IsByte, append_varint, read_varint, max_varint}
use aire_go.Frame.{Frame, encode, decode, append_encode}
use aire_go.Stream.{read_frame}
use aire_go.Stream.Varints.{Follows}
use aire_go.Stream.Frames.{read_frame-Follows}
use aire_go.Frame.RoundTrip.{decode-encode, decode_truncated}
use aire_go.Varint.RoundTrip.{read_varint-append_varint}

abbrev invoke : Frame
invoke = record { type = 0x03; flags = 0; op_id = 300; payload = 7 ∷ 8 ∷ 9 ∷ [] }

abbrev invoke_wire : Bytes
invoke_wire = 0x03 ∷ 0 ∷ 0x41 ∷ 0x2C ∷ 3 ∷ 7 ∷ 8 ∷ 9 ∷ []

encode-invoke : encode invoke ≡ ok invoke_wire
unfolding encode append_encode append_varint
encode-invoke = refl

decode-invoke : decode (invoke_wire ++ 0xFF ∷ []) ≡ ok (invoke, 8)
unfolding decode read_varint take drop
decode-invoke = refl

-- The 62-bit limit and the longer forms.
varint_max :
    append_varint [] max_varint ≡ ok (0xFF ∷ 0xFF ∷ 0xFF ∷ 0xFF ∷ 0xFF ∷ 0xFF ∷ 0xFF ∷ 0xFF ∷ [])
unfolding append_varint
varint_max = refl

varint_panics : append_varint [] (2 ^ 62) ≡ panic
unfolding append_varint
varint_panics = refl

varint_long : read_varint (0x80 ∷ 0 ∷ 0x40 ∷ 1 ∷ []) ≡ ok (16385, 4)
unfolding read_varint
varint_long = refl

decode-encode_example :
    (bytes : Bytes) × (encode invoke ≡ ok bytes)
    × (decode (bytes ++ 1 ∷ 2 ∷ []) ≡ ok (invoke, length bytes))
decode-encode_example = decode-encode invoke (1 ∷ 2 ∷ []) (omega arith) (omega arith)

decode_truncated_example :
    decode (0x03 ∷ 0 ∷ 0x41 ∷ 0x2C ∷ 3 ∷ 7 ∷ []) ≡ err (sentinel short_buffer)
decode_truncated_example =
    decode_truncated invoke 8 (0x03 ∷ 0 ∷ 0x41 ∷ 0x2C ∷ 3 ∷ 7 ∷ []) (9 ∷ []) (omega arith)
      (omega arith) encode-invoke

read_varint-append_varint_example :
    (enc : Bytes) × (append_varint (1 ∷ []) 16384 ≡ ok (1 ∷ enc))
    × (1 ≤ length enc)
    × (length enc ≤ 8)
    × All IsByte enc
    × (read_varint (enc ++ 5 ∷ []) ≡ ok (16384, length enc))
read_varint-append_varint_example = read_varint-append_varint (1 ∷ []) (5 ∷ []) 16384 (omega arith)

varint_300 : append_varint [] 300 ≡ ok (0x41 ∷ 0x2C ∷ [])
unfolding append_varint
varint_300 = refl

read_frame-Follows_example : Follows invoke_wire (decode invoke_wire) (read_frame invoke_wire)
read_frame-Follows_example = read_frame-Follows invoke_wire (omega arith)
