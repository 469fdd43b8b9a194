-- ===== src/Smtp/Lines/Splitting.antt =====
-- Positions and splits at a byte: what the reader's index arithmetic computes.
use smtp_relay.Prelude.{
  ℕ, zero, suc, ◌+◌, ◌-◌, ◌≡◌, ◌≤◌, ◌<◌, refl, false, ◌&&◌, Option, none, some, List, [], ◌∷◌, ◌++◌,
  inl, inr, arith, Bool-cases, Option-cases, length, ltb, ◌==◌, if◌then◌else◌,
}
use smtp_relay.Util.Strings.{take, split_once}
use smtp_relay.Smtp.Lines.{position_of, drop, byte_at}

-- A trailing carriage return goes.
unfoldable pub strip_cr : List ℕ → List ℕ
strip_cr [] = []
strip_cr (c ∷ []) = if c == b'\r' then [] else c ∷ []
strip_cr (c ∷ d ∷ s) = c ∷ strip_cr (d ∷ s)

abbrev pub prefixed : List ℕ → Option (List ℕ × List ℕ) → Option (List ℕ × List ℕ)
prefixed s none = none
prefixed s (some (a, b)) = some (s ++ a, b)

pub position_of-none : (b : ℕ) (s : List ℕ) → position_of b s ≡ none → split_once b s ≡ none
unfolding position_of split_once
position_of-none b [] e = refl
position_of-none b (c ∷ s) e = ground (arith, position_of-none b s)

pub position_of-some :
    (b : ℕ) (s : List ℕ) (i : ℕ)
    → position_of b s ≡ some i
    → (split_once b s ≡ some (take i s, drop (suc i) s)) × (i < length s)
unfolding position_of split_once
position_of-some b [] i e = cc
position_of-some b (c ∷ s) zero e = ground arith
position_of-some b (c ∷ s) (suc i) e = ground (arith, position_of-some b s i)

pub split_once-append_none :
    (b : ℕ) (s t : List ℕ)
    → split_once b s ≡ none
    → split_once b (s ++ t) ≡ prefixed s (split_once b t)
unfolding split_once
split_once-append_none b [] t e = ground arith
split_once-append_none b (c ∷ s) t e = ground (arith, split_once-append_none b s t)

pub split_once-append_some :
    (b : ℕ) (s t x y : List ℕ)
    → split_once b s ≡ some (x, y)
    → split_once b (s ++ t) ≡ some (x, y ++ t)
unfolding split_once
split_once-append_some b [] t x y e = cc
split_once-append_some b (c ∷ s) t x y e = elim (Option-cases (split_once b s)) [
  | inl n ↦ ground arith
  | inr ((x', y'), n) ↦ ground (arith, split_once-append_some b s t x' y')
]

drop-nil {ℓ} : {A : Type ℓ} (n : ℕ) → drop {A = A} n [] ≡ []
drop-nil zero = refl
drop-nil (suc n) = refl

pub drop-add {ℓ} : {A : Type ℓ} (p n : ℕ) (xs : List A) → drop (p + n) xs ≡ drop n (drop p xs)
drop-add zero n xs = let e : zero + n ≡ n = omega arith in rw e refl
drop-add (suc p) n [] = let e : suc p + n ≡ suc (p + n) = omega arith in rw (e, drop-nil n) refl
drop-add (suc p) n (x ∷ xs) =
    let e : suc p + n ≡ suc (p + n) = omega arith in rw e (drop-add p n xs)

-- The first `n` bytes hold no `b`.
abbrev pub IsScanned : ℕ → ℕ → List ℕ → Type 0
IsScanned b zero s = Unit
IsScanned b (suc n) [] = Unit
IsScanned b (suc n) (c ∷ s) = ((c == b) ≡ false) × IsScanned b n s

pub position_of-drop :
    (b n : ℕ) (s : List ℕ)
    → IsScanned b n s
    → n ≤ length s
    → position_of b s ≡ (elim (position_of b (drop n s)) [ none ↦ none | some i ↦ some (n + i) ])
unfolding position_of
position_of-drop b zero s h l = ground arith
position_of-drop b (suc n) [] h l = elim l [ ]
position_of-drop b (suc n) (c ∷ s) h l = ground (arith, position_of-drop b n s h.1)

pub IsScanned-all : (b : ℕ) (s : List ℕ) → position_of b s ≡ none → IsScanned b (length s) s
unfolding position_of
IsScanned-all b [] e = tt
IsScanned-all b (c ∷ s) e = (ground arith, IsScanned-all b s (ground arith))

pub IsScanned-append :
    (b n : ℕ) (s t : List ℕ) → IsScanned b n s → n ≤ length s → IsScanned b n (s ++ t)
IsScanned-append b zero s t h l = tt
IsScanned-append b (suc n) [] t h l = elim l [ ]
IsScanned-append b (suc n) (c ∷ s) t h l = (h.0, IsScanned-append b n s t h.1 (omega arith))

pub byte_at-drop : (p k : ℕ) (s : List ℕ) → byte_at s (p + k) ≡ byte_at (drop p s) k
byte_at-drop zero k s = let e : zero + k ≡ k = omega arith in rw e refl
byte_at-drop (suc p) k [] = refl
byte_at-drop (suc p) k (c ∷ s) =
    let e : suc p + k ≡ suc (p + k) = omega arith in rw e (byte_at-drop p k s)

-- Ending a line one byte earlier when that byte is a carriage return strips it.
pub take-strip_cr :
    (n : ℕ) (s : List ℕ)
    → n ≤ length s
    → take (if ltb 0 n && byte_at s (n - 1) == b'\r' then n - 1 else n) s ≡ strip_cr (take n s)
unfolding strip_cr
take-strip_cr zero s l = ground arith
take-strip_cr (suc n) [] l = elim l [ ]
take-strip_cr (suc zero) (c ∷ s) l = ground arith
take-strip_cr (suc (suc n)) (c ∷ []) l = absurd (omega arith)
take-strip_cr (suc (suc n)) (c ∷ d ∷ s) l =
    let e : suc (suc n) - 1 ≡ suc n = omega arith in
    let f : suc n - 1 ≡ n = omega arith in
    let ih = take-strip_cr (suc n) (d ∷ s) (omega arith) in
    let ih' = rw f at ih in
    rw e (elim (Bool-cases (byte_at (d ∷ s) n == b'\r')) [
      | inl h ↦ rw h (ground (arith, rw h at ih'))
      | inr h ↦ rw h (ground (arith, rw h at ih'))
    ])

pub drop-length {ℓ} : {A : Type ℓ} (xs : List A) → drop (length xs) xs ≡ []
drop-length [] = refl
drop-length (x ∷ xs) = drop-length xs

pub length-drop {ℓ} : {A : Type ℓ} (n : ℕ) (xs : List A) → length (drop n xs) ≡ length xs - n
length-drop zero xs = omega arith
length-drop (suc n) [] = omega arith
length-drop (suc n) (x ∷ xs) = omega (arith, length-drop n xs)
