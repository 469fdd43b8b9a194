-- ===== src/Message/Mailboxes/Quoted.antt =====
-- A quoted display name, with any characters in it, is read back.
use mathlib.Core.List.{append_assoc, reverse-append}
use smtp_relay.Prelude.{
  ℕ, ◌+◌, ◌-◌, ◌≡◌, refl, sym, ap, ◌∙◌, Bool, true, false, some, [], ◌∷◌, ◌++◌, Text, any, is_empty,
  length, length-append, leb, if◌then◌else◌, arith,
}
use smtp_relay.Util.Strings.{
  trim, starts_with, ends_with, contains, take, is_whitespace, strip_prefix,
}
use smtp_relay.Util.Trimming.{trim-none, trim-ends, trim-snoc}
use smtp_relay.Message.Mailboxes.{
  strip_source_route, comments_from, strip_comments, slice, unquote, bracketed,
  parse_single_mailbox, entry_of, parse_mailbox,
}
use smtp_relay.Message.Mailboxes.Scanning.{
  escaped_name, AreAtoms, quoted_mailbox, comments_from-escaped, unescaped-escaped, take-append,
  skip-append, find_angle_addr-quoted, split_address_list-quoted,
}

quoted_mailbox-trim :
    (name address : Text) → trim (quoted_mailbox name address) ≡ quoted_mailbox name address
unfolding is_whitespace
quoted_mailbox-trim name address =
    let e = escaped_name name in
    let front = b'"' ∷ b' ' ∷ b'<' ∷ address in
    let whole : quoted_mailbox name address ≡ b'"' ∷ ((e ++ front) ++ (b'>' ∷ [])) =
      ap (λ x. b'"' ∷ x) (sym (append_assoc e front (b'>' ∷ []))) in
    ap trim whole ∙ trim-ends b'"' (e ++ front) (b'>' ∷ []) refl refl refl ∙ sym whole

strip_comments-quoted :
    (name : Text)
    → strip_comments (b'"' ∷ (escaped_name name ++ (b'"' ∷ b' ' ∷ [])))
      ≡ b'"' ∷ (escaped_name name ++ (b'"' ∷ b' ' ∷ []))
unfolding strip_comments comments_from
strip_comments-quoted name = ap (λ x. b'"' ∷ x) (comments_from-escaped name (b'"' ∷ b' ' ∷ []))

ends_with-snoc : (s : Text) (c : ℕ) → ends_with (s ++ (c ∷ [])) (c ∷ []) ≡ true
unfolding ends_with starts_with strip_prefix
ends_with-snoc s c = rw (reverse-append s (c ∷ [])) (ground arith)

unquote-quoted :
    (name : Text) → trim name ≡ name → unquote (b'"' ∷ (escaped_name name ++ (b'"' ∷ []))) ≡ name
unfolding unquote is_whitespace starts_with strip_prefix
unquote-quoted name t =
    let e = escaped_name name in
    let q = b'"' ∷ (e ++ (b'"' ∷ [])) in
    let l : leb 2 (length q) ≡ true = ground (arith, length-append e (b'"' ∷ [])) in
    let n : length q - 1 - 1 ≡ length e = omega (arith, length-append e (b'"' ∷ [])) in
    let whole : trim q ≡ q = trim-ends b'"' e (b'"' ∷ []) refl refl refl in
    let inner : slice 1 (length q - 1) q ≡ e = rw n (take-append e (b'"' ∷ [])) in
    rw (whole, l, ends_with-snoc (b'"' ∷ e) b'"', inner, unescaped-escaped name, unquote) t

solid : (s : Text) → AreAtoms s → any is_whitespace s ≡ false
unfolding is_whitespace
solid [] h = refl
solid (c ∷ s) (k, h) = ground (arith, solid s h)

address-kept :
    (address : Text)
    → AreAtoms address
    → starts_with address (b'@' ∷ []) ≡ false
    → strip_source_route (trim address) ≡ address
unfolding strip_source_route
address-kept address h a =
    let e = trim-none address (solid address h) in rw (e, e, a, strip_source_route) refl

-- The name before the brackets, and the address between them.
bracketed-quoted :
    (name address : Text)
    → trim name ≡ name
    → AreAtoms address
    → is_empty address ≡ false
    → starts_with address (b'@' ∷ []) ≡ false
    → bracketed
        (quoted_mailbox name address)
        (length (escaped_name name) + 3)
        (length (escaped_name name) + 4 + length address)
      ≡ some (record { display_name = name; address = address })
unfolding is_whitespace
bracketed-quoted name address t h n a =
    let e = escaped_name name in
    let q = b'"' ∷ (e ++ (b'"' ∷ [])) in
    let display = b'"' ∷ (e ++ (b'"' ∷ b' ' ∷ [])) in
    let before = b'"' ∷ (e ++ (b'"' ∷ b' ' ∷ b'<' ∷ [])) in
    let rest = b'<' ∷ (address ++ (b'>' ∷ [])) in
    let cut : quoted_mailbox name address ≡ display ++ rest =
      ap (λ x. b'"' ∷ x) (sym (append_assoc e (b'"' ∷ b' ' ∷ []) rest)) in
    let cut' : quoted_mailbox name address ≡ before ++ (address ++ (b'>' ∷ [])) =
      ap (λ x. b'"' ∷ x)
        (sym (append_assoc e (b'"' ∷ b' ' ∷ b'<' ∷ []) (address ++ (b'>' ∷ [])))) in
    let m : length e + 3 ≡ length display = omega (arith, length-append e (b'"' ∷ b' ' ∷ [])) in
    let m' : length e + 3 + 1 ≡ length before =
      omega (arith, length-append e (b'"' ∷ b' ' ∷ b'<' ∷ [])) in
    let w : length e + 4 + length address - (length e + 3 + 1) ≡ length address = omega arith in
    let shown : take (length e + 3) (quoted_mailbox name address) ≡ display =
      ap (take (length e + 3)) cut ∙ rw m (take-append display rest) in
    let sent : slice (length e + 3 + 1) (length e + 4 + length address)
          (quoted_mailbox name address)
        ≡ address =
      ap (slice (length e + 3 + 1) (length e + 4 + length address)) cut'
      ∙ rw (w, m', skip-append before (address ++ (b'>' ∷ []))) (take-append address (b'>' ∷ [])) in
    let trimmed : trim display ≡ q =
      ap trim (ap (λ x. b'"' ∷ x) (sym (append_assoc e (b'"' ∷ []) (b' ' ∷ []))))
      ∙ trim-snoc b'"' b' ' (e ++ (b'"' ∷ [])) refl refl
      ∙ trim-ends b'"' e (b'"' ∷ []) refl refl refl in
    rw
      (
        sent,
        shown,
        address-kept address h a,
        n,
        strip_comments-quoted name,
        trimmed,
        unquote-quoted name t,
      )
      refl

same : {A : Type 0} (b : Bool) (x : A) → (if b then x else x) ≡ x
same true x = refl
same false x = refl

parse_single_mailbox-quoted :
    (name address : Text)
    → trim name ≡ name
    → AreAtoms address
    → is_empty address ≡ false
    → starts_with address (b'@' ∷ []) ≡ false
    → parse_single_mailbox (quoted_mailbox name address)
      ≡ some (record { display_name = name; address = address })
unfolding parse_single_mailbox
parse_single_mailbox-quoted name address t h n a =
    rw
      (
        quoted_mailbox-trim name address,
        find_angle_addr-quoted name address h,
        parse_single_mailbox,
      )
      (bracketed-quoted name address t h n a)

-- A mailbox that is written as a display name in quotes, with a backslash before each quote and
-- backslash in it, and an address in angle brackets, is parsed to that name and that address,
-- whatever commas, brackets, parentheses or quotes the name has. The name has no blanks at its ends;
-- the address is not empty, is made of visible ASCII without the characters that structure
-- mailboxes, and does not start with an at sign.
pub parse_mailbox-quoted :
    (name address : Text)
    → trim name ≡ name
    → AreAtoms address
    → is_empty address ≡ false
    → starts_with address (b'@' ∷ []) ≡ false
    → parse_mailbox (quoted_mailbox name address)
      ≡ some (record { display_name = name; address = address })
unfolding parse_mailbox
parse_mailbox-quoted name address t h n a =
    let whole = quoted_mailbox-trim name address in
    let entry : entry_of (quoted_mailbox name address) ≡ quoted_mailbox name address ∷ [] =
      rw whole refl in
    rw (whole, split_address_list-quoted name address h, entry, parse_mailbox)
      (same (contains (quoted_mailbox name address) b'@') _
        ∙ parse_single_mailbox-quoted name address t h n a)
