-- ===== src/Util/Secrets.antt =====
-- src/util.rs: `secret_eq`, and `b64_decode`, which trims before the base64 library decodes.
use Prim.Native.Nat.{bit_or, bit_xor}
use smtp_relay.Prelude.{ℕ, Bool, false, Option, List, ◌∷◌, Text, length, ◌==◌, if◌then◌else◌}
use smtp_relay.Util.Strings.{trim}
use smtp_relay.Util.Utf8.{as_bytes}

-- The loop over two byte strings of one length.
abbrev difference : ℕ → List ℕ → List ℕ → ℕ
difference diff (x ∷ xs) (y ∷ ys) = difference (bit_or diff (bit_xor x y)) xs ys
difference diff _ _ = diff

unfoldable pub secret_eq : Text → Text → Bool
unfolding as_bytes
secret_eq a b =
    let x = as_bytes a in
    let y = as_bytes b in if length x == length y then difference 0 x y == 0 else false

-- `decode` is the base64 library's.
unfoldable pub b64_decode : (Text → Option (List ℕ)) → Text → Option (List ℕ)
unfolding trim
b64_decode decode text = decode (trim text)
