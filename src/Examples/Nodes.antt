-- ===== src/Examples/Nodes.antt =====
-- Two nodes with a toy signature scheme: a signature is the key and the sum of the message's bytes.
use aire_go.Base.{
  ltb, All, Result, ok, ℕ, ◌+◌, ◌%◌, ◌≡◌, Bool, true, false, ◌&&◌, List, [], ◌∷◌, ◌++◌, arith,
}
use aire_go.Base.Int.{pos}
use aire_go.Base.Text.{codes, bytes_eq}
use aire_go.Varint.{Bytes, IsByte}
use aire_go.Capability.{Capability}
use aire_go.Verifier.{Verifier}
use aire_go.Verifier.Time.{replay_window}
use aire_go.Handshake.{Signer, build_signed_hello}
use aire_go.Handshake.Exchange.{Part}

abbrev pub digest : Bytes → ℕ
digest [] = 0
digest (b ∷ bs) = (b + digest bs) % 256

abbrev pub one_key : Bytes → Result Bytes
one_key vmid = ok (9 ∷ [])

abbrev pub sum_verify : Bytes → Bytes → Bytes → Bool
sum_verify key m sig = bytes_eq sig (key ++ digest m ∷ [])

abbrev pub sum_signer : Bytes → Bytes → Signer
sum_signer did vmid = record { did = did; vmid = vmid; sign = λ m. 9 ∷ digest m ∷ [] }

abbrev pub some_nonce : ℕ → Bytes
some_nonce n = n ∷ 1 ∷ 2 ∷ 3 ∷ 4 ∷ 5 ∷ 6 ∷ 7 ∷ 8 ∷ 9 ∷ 10 ∷ 11 ∷ 12 ∷ 13 ∷ 14 ∷ 15 ∷ []

abbrev pub empty_verifier : Verifier
empty_verifier = record { window = replay_window; cache = [] }

abbrev pub alice : Part one_key sum_verify 100
alice = record {
  config = record {
    signer = sum_signer (codes "did:key:zA") (codes "did:key:zA#zA");
    verifier = empty_verifier;
    capabilities = record { name = codes "chat/1"; version = 3; required = true } ∷ [];
  };
  nonce = some_nonce 1;
  signed_at = pos 5000000000;
  now = pos 6000000000;
}

abbrev pub bob : Part one_key sum_verify 100
bob = record {
  config = record {
    signer = sum_signer (codes "did:key:zB") (codes "did:key:zB#zB");
    verifier = empty_verifier;
    capabilities = record { name = codes "chat/1"; version = 2; required = false } ∷ [];
  };
  nonce = some_nonce 2;
  signed_at = pos 5500000000;
  now = pos 6500000000;
}

abbrev pub value_of : Result Bytes → Bytes
value_of (ok bs) = bs
value_of _ = []

abbrev pub payload_of : Part one_key sum_verify 100 → Bytes
payload_of p =
    value_of (build_signed_hello p.config.signer p.config.capabilities p.nonce p.signed_at)

abbrev pub all_byte : Bytes → Bool
all_byte [] = true
all_byte (b ∷ bs) = ltb b 256 && all_byte bs

pub all_byte_sound : (bs : Bytes) → all_byte bs ≡ true → All IsByte bs
all_byte_sound [] h = tt
all_byte_sound (b ∷ bs) h = ground (arith, all_byte_sound bs)

abbrev pub chatting : List Capability
chatting = record { name = codes "chat/1"; version = 2; required = false } ∷ []
