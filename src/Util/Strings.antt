-- ===== src/Util/Strings.antt =====
-- src/util.rs: `truncate`, `address_domain` and `looks_like_email`, and the methods of `str` that
-- the relay's code calls, over lists of code points.
use mathlib.Core.List.{reverse}
use smtp_relay.Prelude.{
  ℕ, zero, suc, ◌+◌, Bool, true, false, not, ◌&&◌, ◌||◌, Option, none, some, List, [], ◌∷◌, ◌++◌,
  map, Text, any, is_empty, length, ltb, leb, ◌==◌, to_lower, saturating_sub, if◌then◌else◌,
}

-- `char::is_whitespace`.
unfoldable pub is_whitespace : ℕ → Bool
is_whitespace c =
    (leb 9 c && leb c 13)
    || c == 0x20
    || c == 0x85
    || c == 0xa0
    || c == 0x1680
    || (leb 0x2000 c && leb c 0x200a)
    || c == 0x2028
    || c == 0x2029
    || c == 0x202f
    || c == 0x205f
    || c == 0x3000

-- `str::trim_start_matches` of a class of characters.
unfoldable pub trim_start_matches : (ℕ → Bool) → Text → Text
trim_start_matches p [] = []
trim_start_matches p (c ∷ s) = if p c then trim_start_matches p s else c ∷ s

unfoldable pub trim_end_matches : (ℕ → Bool) → Text → Text
unfolding trim_start_matches
trim_end_matches p s = reverse (trim_start_matches p (reverse s))

unfoldable pub trim : Text → Text
unfolding is_whitespace trim_start_matches trim_end_matches
trim s = trim_end_matches is_whitespace (trim_start_matches is_whitespace s)

unfoldable pub to_ascii_lowercase : Text → Text
unfolding to_lower
to_ascii_lowercase s = map to_lower s

unfoldable pub strip_prefix : Text → Text → Option Text
strip_prefix [] s = some s
strip_prefix (p ∷ ps) [] = none
strip_prefix (p ∷ ps) (c ∷ s) = if p == c then strip_prefix ps s else none

abbrev pub is_some {ℓ} : {A : Type ℓ} → Option A → Bool
is_some none = false
is_some (some a) = true

unfoldable pub starts_with : Text → Text → Bool
unfolding strip_prefix
starts_with s prefix = is_some (strip_prefix prefix s)

unfoldable pub ends_with : Text → Text → Bool
unfolding starts_with
ends_with s suffix = starts_with (reverse s) (reverse suffix)

-- `split_once` and `rsplit_once` at one character.
unfoldable pub split_once : ℕ → Text → Option (Text × Text)
split_once sep [] = none
split_once sep (c ∷ s) = elim (c == sep) [
  | true ↦ some ([], s)
  | false ↦ elim (split_once sep s) [ none ↦ none | some (a, b) ↦ some (c ∷ a, b) ]
]

unfoldable pub rsplit_once : ℕ → Text → Option (Text × Text)
rsplit_once sep [] = none
rsplit_once sep (c ∷ s) = elim (rsplit_once sep s) [
  | some (a, b) ↦ some (c ∷ a, b)
  | none ↦ if c == sep then some ([], s) else none
]

-- `chars().take(n)`.
abbrev pub take {ℓ} : {A : Type ℓ} → ℕ → List A → List A
take zero xs = []
take (suc n) [] = []
take (suc n) (x ∷ xs) = x ∷ take n xs

-- The character `…`.
abbrev pub ellipsis : ℕ
ellipsis = 0x2026

unfoldable pub truncate : Text → ℕ → Text
truncate input max_chars =
    if leb (length input) max_chars
    then input
    else take (saturating_sub max_chars 1) input ++ (ellipsis ∷ [])

abbrev pub localhost : Text
localhost = b'l' ∷ b'o' ∷ b'c' ∷ b'a' ∷ b'l' ∷ b'h' ∷ b'o' ∷ b's' ∷ b't' ∷ []

unfoldable pub address_domain : Text → Text
unfolding rsplit_once
address_domain address = elim (rsplit_once b'@' address) [
  | none ↦ localhost
  | some (_, domain) ↦ if is_empty domain then localhost else domain
]

abbrev pub contains : Text → ℕ → Bool
contains s c = any (λ x. x == c) s

abbrev pub dot : Text
dot = b'.' ∷ []

-- `addr.len()` counts bytes of UTF-8.
abbrev pub utf8_width : ℕ → ℕ
utf8_width c = if ltb c 0x80 then 1 else if ltb c 0x800 then 2 else if ltb c 0x10000 then 3 else 4

abbrev pub byte_len : Text → ℕ
byte_len [] = 0
byte_len (c ∷ s) = utf8_width c + byte_len s

abbrev forbidden : ℕ → Bool
forbidden c = is_whitespace c || c == b'<' || c == b'>' || c == b','

abbrev parts_ok : Option (Text × Text) → Bool
parts_ok none = false
parts_ok (some (local, domain)) =
    not (is_empty local)
    && not (is_empty domain)
    && not (starts_with domain dot)
    && not (ends_with domain dot)
    && not (contains domain b'@')

unfoldable pub looks_like_email : Text → Bool
unfolding trim split_once starts_with ends_with is_whitespace
looks_like_email address =
    let addr = trim address in
    not (is_empty addr)
    && leb (byte_len addr) 320
    && not (any forbidden addr)
    && parts_ok (split_once b'@' addr)
