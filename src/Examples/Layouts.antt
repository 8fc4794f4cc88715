-- ===== src/Examples/Layouts.antt =====
-- The HELLO payload and the signature block at concrete inputs.
use aire_go.Base.{panic, ◌-◌, ◌^◌, ◌≡◌, [], ◌++◌, arith}
use aire_go.Base.Text.{codes}
use aire_go.Hello.{decode_hello_payload}
use aire_go.Hello.RoundTrip.{head_bytes, decode_hello_payload_huge_count}

-- With capabilities of 32 bytes and 2 ^ 48 bytes of address space; the count is 2 ^ 62 - 1.
decode_hello_payload_huge_count_example :
    decode_hello_payload
      (2 ^ 43)
      (head_bytes (record { major = 0; minor = 2 }) (codes "x") (2 ^ 62 - 1) ++ [])
    ≡ panic
decode_hello_payload_huge_count_example =
    decode_hello_payload_huge_count (2 ^ 43) (record { major = 0; minor = 2 }) (codes "x")
      (2 ^ 62 - 1) [] (omega arith) (omega arith) (omega arith) (omega arith) (omega arith)
