-- ===== src/Util/Utf8.antt =====
-- The standard library's UTF-8: `String::as_bytes`, and `String::from_utf8_lossy`, which puts U+FFFD
-- in place of each longest part of an ill-formed sequence.
use smtp_relay.Prelude.{
  ℕ, ◌+◌, ◌-◌, ◌*◌, ◌/◌, ◌%◌, ◌≡◌, ◌<◌, refl, ◌&&◌, List, [], ◌∷◌, ◌++◌, Text, zero, suc, ltb, leb,
  ◌==◌, if◌then◌else◌, arith, All,
}

abbrev replacement : ℕ
replacement = 0xfffd

abbrev trailing : ℕ → ℕ
trailing n = 0x80 + n % 64

-- The bytes of one character.
unfoldable pub encode_char : ℕ → List ℕ
encode_char c =
    if ltb c 0x80
    then c ∷ []
    else if ltb c 0x800
    then (0xc0 + c / 64) ∷ trailing c ∷ []
    else if ltb c 0x10000
    then (0xe0 + c / 4096) ∷ trailing (c / 64) ∷ trailing c ∷ []
    else (0xf0 + c / 262144) ∷ trailing (c / 4096) ∷ trailing (c / 64) ∷ trailing c ∷ []

unfoldable pub as_bytes : Text → List ℕ
unfolding encode_char
as_bytes [] = []
as_bytes (c ∷ s) = encode_char c ++ as_bytes s

-- The decoder inside a sequence: the value of the bytes so far, how many follow, and the interval of
-- the next one. Outside a sequence `needed` is 0.
record Decoder : Type 0 where
  value : ℕ
  needed : ℕ
  lower : ℕ
  upper : ℕ

abbrev idle : Decoder
idle = record { value = 0; needed = 0; lower = 0x80; upper = 0xbf }

abbrev begun : ℕ → ℕ → ℕ → ℕ → Text × Decoder
begun value needed lower upper =
    ([], record { value = value; needed = needed; lower = lower; upper = upper })

-- The first byte of a character.
unfoldable first_byte : ℕ → Text × Decoder
first_byte b =
    if ltb b 0x80
    then (b ∷ [], idle)
    else if leb 0xc2 b && leb b 0xdf
    then begun (b - 0xc0) 1 0x80 0xbf
    else if leb 0xe0 b && leb b 0xef
    then begun (b - 0xe0) 2 (if b == 0xe0 then 0xa0 else 0x80) (if b == 0xed then 0x9f else 0xbf)
    else if leb 0xf0 b && leb b 0xf4
    then begun (b - 0xf0) 3 (if b == 0xf0 then 0x90 else 0x80) (if b == 0xf4 then 0x8f else 0xbf)
    else (replacement ∷ [], idle)

abbrev continued : ℕ → ℕ → Text × Decoder
continued v zero = (v ∷ [], idle)
continued v (suc n) = begun v (suc n) 0x80 0xbf

unfoldable decode_byte : Decoder → ℕ → Text × Decoder
unfolding first_byte
decode_byte d b = elim d.needed [
  | zero ↦ first_byte b
  | suc n ↦
      let (cs, d') = first_byte b in
      if leb d.lower b && leb b d.upper
      then continued (d.value * 64 + (b - 0x80)) n
      else (replacement ∷ cs, d')
]

unfoldable decode : Decoder → List ℕ → Text
unfolding decode_byte
decode d [] = if d.needed == 0 then [] else replacement ∷ []
decode d (b ∷ bs) = let (cs, d') = decode_byte d b in cs ++ decode d' bs

unfoldable pub from_utf8_lossy : List ℕ → Text
unfolding decode
from_utf8_lossy bs = decode idle bs

abbrev pub IsAscii : List ℕ → Type 0
IsAscii = All (λ b. b < 0x80)

-- ASCII is the same in both directions.
pub as_bytes_ascii : (s : Text) → IsAscii s → as_bytes s ≡ s
unfolding as_bytes
as_bytes_ascii [] h = refl
as_bytes_ascii (c ∷ s) (hc, h) = ground (arith, as_bytes_ascii s h)

pub from_utf8_lossy_ascii : (s : Text) → IsAscii s → from_utf8_lossy s ≡ s
unfolding from_utf8_lossy
from_utf8_lossy_ascii [] h = refl
from_utf8_lossy_ascii (c ∷ s) (hc, h) = ground (arith, from_utf8_lossy_ascii s h)
