-- ===== src/Compression/Tests.antt =====
-- A heap of 64 GB from 20 GB on, with objects aligned at 8, and an address in it.
use vmkit_core.Prelude.{◌*◌, ◌^◌, ◌≡◌, ◌≢◌, inr, refl, false, arith}
use vmkit_core.Compression.{init, encode, decode}
use vmkit_core.Compression.RoundTrip.{IsEncodable, decode-encode, init-IsEncodable}

init-IsEncodable_example : IsEncodable (init false 3 (20 * 2 ^ 30) (40 * 2 ^ 30)) (21 * 2 ^ 30)
init-IsEncodable_example =
    init-IsEncodable 3 (20 * 2 ^ 30) (40 * 2 ^ 30) (21 * 2 ^ 30) (omega arith) (omega arith) refl
      (omega arith, omega arith, omega arith) refl (inr (omega arith))

decode-encode_example :
    let ops = init false 3 (20 * 2 ^ 30) (40 * 2 ^ 30) in
    let v = 21 * 2 ^ 30 in (decode ops (encode ops v) ≡ v) × (v ≢ 0 → encode ops v ≢ 0)
decode-encode_example =
    decode-encode (init false 3 (20 * 2 ^ 30) (40 * 2 ^ 30)) (21 * 2 ^ 30) (inr encodable)
  where
    encodable : IsEncodable (init false 3 (20 * 2 ^ 30) (40 * 2 ^ 30)) (21 * 2 ^ 30)
    encodable =
        init-IsEncodable 3 (20 * 2 ^ 30) (40 * 2 ^ 30) (21 * 2 ^ 30) (omega arith) (omega arith)
          refl (omega arith, omega arith, omega arith) refl (inr (omega arith))
