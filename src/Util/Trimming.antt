-- ===== src/Util/Trimming.antt =====
-- `trim` on texts without blanks at their ends.
use mathlib.Core.List.{reverse, reverse-cons, reverse-reverse, reverse-append}
use smtp_relay.Prelude.{
  ℕ, ◌≡◌, refl, sym, Bool, true, false, [], ◌∷◌, ◌++◌, Text, any, is_empty, arith,
}
use smtp_relay.Util.Strings.{trim, trim_start_matches, trim_end_matches, is_whitespace}

any-append :
    (p : ℕ → Bool) (s t : Text) → any p s ≡ false → any p t ≡ false → any p (s ++ t) ≡ false
any-append p [] t e f = f
any-append p (c ∷ s) t e f = ground (arith, any-append p s t)

any-reverse : (p : ℕ → Bool) (s : Text) → any p s ≡ false → any p (reverse s) ≡ false
any-reverse p [] e = refl
any-reverse p (c ∷ s) e =
    rw (reverse-cons c s)
      (any-append p (reverse s) (c ∷ []) (any-reverse p s (ground arith)) (ground arith))

trim_start_matches-none : (p : ℕ → Bool) (s : Text) → any p s ≡ false → trim_start_matches p s ≡ s
unfolding trim_start_matches
trim_start_matches-none p [] e = refl
trim_start_matches-none p (c ∷ s) e = ground arith

pub trim-none : (s : Text) → any is_whitespace s ≡ false → trim s ≡ s
unfolding trim trim_end_matches
trim-none s e =
    rw
      (
        trim_start_matches-none is_whitespace s e,
        trim_start_matches-none is_whitespace (reverse s) (any-reverse is_whitespace s e),
        reverse-reverse s,
      )
      refl

trim_start_matches-append :
    (p : ℕ → Bool) (s t : Text)
    → any p s ≡ false
    → is_empty s ≡ false
    → trim_start_matches p (s ++ t) ≡ s ++ t
unfolding trim_start_matches
trim_start_matches-append p [] t e n = absurd (ground arith)
trim_start_matches-append p (c ∷ s) t e n = ground arith

is_empty-reverse : (s : Text) → is_empty s ≡ false → is_empty (reverse s) ≡ false
is_empty-reverse [] n = n
is_empty-reverse (c ∷ s) n = rw (reverse-cons c s) (ends (reverse s) c)
  where
    ends : (s : Text) (c : ℕ) → is_empty (s ++ (c ∷ [])) ≡ false
    ends [] c = refl
    ends (d ∷ s) c = refl

trim_end_matches-append :
    (p : ℕ → Bool) (s t : Text)
    → any p t ≡ false
    → is_empty t ≡ false
    → trim_end_matches p (s ++ t) ≡ s ++ t
unfolding trim_end_matches
trim_end_matches-append p s t e n =
    rw
      (
        reverse-append s t,
        trim_start_matches-append p (reverse t) (reverse s) (any-reverse p t e)
            (is_empty-reverse t n),
        sym (reverse-append s t),
        reverse-reverse (s ++ t),
      )
      refl

-- A text that neither starts nor ends with a blank.
pub trim-ends :
    (c : ℕ) (s t : Text)
    → is_whitespace c ≡ false
    → any is_whitespace t ≡ false
    → is_empty t ≡ false
    → trim (c ∷ (s ++ t)) ≡ c ∷ (s ++ t)
unfolding trim trim_start_matches
trim-ends c s t b e n = rw b (trim_end_matches-append is_whitespace (c ∷ s) t e n)

-- A blank at the end is trimmed away.
pub trim-snoc :
    (c b : ℕ) (s : Text)
    → is_whitespace c ≡ false
    → is_whitespace b ≡ true
    → trim (c ∷ (s ++ (b ∷ []))) ≡ trim (c ∷ s)
unfolding trim trim_start_matches trim_end_matches
trim-snoc c b s e f = rw (e, reverse-append (c ∷ s) (b ∷ []), f) refl
