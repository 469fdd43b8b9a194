-- ===== src/Message/Mailboxes/Scanning.antt =====
-- The scanners of the mailbox parser at a quoted display name.
use mathlib.Core.List.{append_assoc, append-nil}
use smtp_relay.Prelude.{
  ℕ, suc, ◌+◌, ◌≡◌, refl, ap, ◌∙◌, Bool, true, false, not, ◌&&◌, ◌||◌, Option, none, some, [], ◌∷◌,
  ◌++◌, Text, length, leb, ◌==◌, if◌then◌else◌, arith, All, inl, inr, Bool-cases,
}
use smtp_relay.Util.Strings.{take}
use smtp_relay.Smtp.Command.{skip}
use smtp_relay.Message.Mailboxes.{
  Angles, angle_step, angles_from, find_angle_addr, comments_from, unescaped, Splitter, split_step,
  is_separator, split_from, split_address_list, entry_of,
}

-- The name between the quotes.
abbrev pub escaped_name : Text → Text
escaped_name [] = []
escaped_name (c ∷ s) =
    if c == b'"' || c == b'\\' then b'\\' ∷ c ∷ escaped_name s else c ∷ escaped_name s

abbrev quoting : Text → Splitter
quoting current = record {
  current = current;
  in_quotes = true;
  escaped = false;
  angle_depth = 0;
  comment_depth = 0;
}

abbrev inside : Option ℕ → Option ℕ → Angles
inside o p = record { in_quotes = true; escaped = false; opening = o; closing = p }

-- In quotes nothing separates.
split_from-quoting :
    (c : ℕ) (current rest : Text)
    → (c == b'"' || c == b'\\') ≡ false
    → split_from (quoting current) (c ∷ rest) ≡ split_from (quoting (current ++ (c ∷ []))) rest
unfolding split_from
split_from-quoting c current rest e =
    let apart : is_separator c (quoting current) ≡ false = ground arith in
    let step : split_step c (quoting current) ≡ quoting (current ++ (c ∷ [])) = ground arith in
    rw apart (ap (λ t. split_from t rest) step)

split_from-escaped :
    (name rest current : Text)
    → split_from (quoting current) (escaped_name name ++ rest)
      ≡ split_from (quoting (current ++ escaped_name name)) rest
unfolding split_from
split_from-escaped [] rest current = rw (append-nil current) refl
split_from-escaped (c ∷ s) rest current = elim (Bool-cases (c == b'"' || c == b'\\')) [
  | inl e ↦ rw e (
      split_from-escaped s rest (current ++ (b'\\' ∷ []) ++ (c ∷ []))
      ∙ ap (λ x. split_from (quoting x) rest)
          (append_assoc (current ++ (b'\\' ∷ [])) (c ∷ []) (escaped_name s)
            ∙ append_assoc current (b'\\' ∷ []) (c ∷ escaped_name s)))
  | inr e ↦
      let one = split_from-quoting c current (escaped_name s ++ rest) e in
      rw (e, one)
        (split_from-escaped s rest (current ++ (c ∷ []))
          ∙ ap (λ x. split_from (quoting x) rest) (append_assoc current (c ∷ []) (escaped_name s)))
]

angles_from-inside :
    (c index : ℕ) (rest : Text) (o p : Option ℕ)
    → (c == b'"' || c == b'\\') ≡ false
    → angles_from index (c ∷ rest) (inside o p) ≡ angles_from (suc index) rest (inside o p)
unfolding angles_from
angles_from-inside c index rest o p e = ap (angles_from (suc index) rest) (ground arith)

angles_from-escaped :
    (name rest : Text) (index : ℕ) (o p : Option ℕ)
    → angles_from index (escaped_name name ++ rest) (inside o p)
      ≡ angles_from (index + length (escaped_name name)) rest (inside o p)
unfolding angles_from
angles_from-escaped [] rest index o p = let e : index + 0 ≡ index = omega arith in rw e refl
angles_from-escaped (c ∷ s) rest index o p = elim (Bool-cases (c == b'"' || c == b'\\')) [
  | inl e ↦
      let n : index + suc (suc (length (escaped_name s)))
          ≡ suc (suc index) + length (escaped_name s) =
        omega arith in
      rw (e, n) (angles_from-escaped s rest (suc (suc index)) o p)
  | inr e ↦
      let n : index + suc (length (escaped_name s)) ≡ suc index + length (escaped_name s) =
        omega arith in
      rw (e, n)
        (angles_from-inside c index (escaped_name s ++ rest) o p e
          ∙ angles_from-escaped s rest (suc index) o p)
]

pub comments_from-escaped :
    (name rest : Text)
    → comments_from
        (record { depth = 0; in_quotes = true; escaped = false })
        (escaped_name name ++ rest)
      ≡ escaped_name name
        ++ comments_from (record { depth = 0; in_quotes = true; escaped = false }) rest
unfolding comments_from
comments_from-escaped [] rest = refl
comments_from-escaped (c ∷ s) rest = ground (arith, comments_from-escaped s rest)

pub unescaped-escaped : (name : Text) → unescaped false (escaped_name name) ≡ name
unescaped-escaped [] = refl
unescaped-escaped (c ∷ s) = ground (arith, unescaped-escaped s)

pub take-append : (xs ys : Text) → take (length xs) (xs ++ ys) ≡ xs
take-append [] ys = refl
take-append (x ∷ xs) ys = ap (λ zs. x ∷ zs) (take-append xs ys)

pub skip-append : (xs ys : Text) → skip (length xs) (xs ++ ys) ≡ ys
skip-append [] ys = refl
skip-append (x ∷ xs) ys = skip-append xs ys

-- A character of the address: visible ASCII, and none that a mailbox is made of.
abbrev pub is_atom : ℕ → Bool
is_atom c =
    leb 33 c
    && leb c 126
    && not
        (c == b'"' || c == b'\\' || c == b'<' || c == b'>' || c == b'(' || c == b')' || c == b',')

abbrev pub AreAtoms : Text → Type 0
AreAtoms = All (λ c. is_atom c ≡ true)

-- A display name in quotes before an address in angle brackets.
abbrev pub quoted_mailbox : Text → Text → Text
quoted_mailbox name address =
    b'"' ∷ (escaped_name name ++ (b'"' ∷ b' ' ∷ b'<' ∷ (address ++ (b'>' ∷ []))))

abbrev angled : ℕ → Text → Splitter
angled depth current = record {
  current = current;
  in_quotes = false;
  escaped = false;
  angle_depth = depth;
  comment_depth = 0;
}

split_from-atoms :
    (address rest current : Text)
    → AreAtoms address
    → split_from (angled 1 current) (address ++ rest)
      ≡ split_from (angled 1 (current ++ address)) rest
unfolding split_from
split_from-atoms [] rest current h = rw (append-nil current) refl
split_from-atoms (c ∷ s) rest current (k, h) =
    let apart : is_separator c (angled 1 current) ≡ false = ground arith in
    let step : split_step c (angled 1 current) ≡ angled 1 (current ++ (c ∷ [])) = ground arith in
    rw apart (
      ap (λ t. split_from t (s ++ rest)) step
      ∙ split_from-atoms s rest (current ++ (c ∷ [])) h
      ∙ ap (λ x. split_from (angled 1 x) rest) (append_assoc current (c ∷ []) s))

abbrev outside : Option ℕ → Option ℕ → Angles
outside o p = record { in_quotes = false; escaped = false; opening = o; closing = p }

angles_from-atoms :
    (address rest : Text) (index : ℕ) (o p : Option ℕ)
    → AreAtoms address
    → angles_from index (address ++ rest) (outside o p)
      ≡ angles_from (index + length address) rest (outside o p)
unfolding angles_from
angles_from-atoms [] rest index o p h = let e : index + 0 ≡ index = omega arith in rw e refl
angles_from-atoms (c ∷ s) rest index o p (k, h) =
    let n : index + suc (length s) ≡ suc index + length s = omega arith in
    let step : angle_step index c (outside o p) ≡ outside o p = ground arith in
    rw n
      (ap (angles_from (suc index) (s ++ rest)) step ∙ angles_from-atoms s rest (suc index) o p h)

-- The brackets are found behind the name.
pub find_angle_addr-quoted :
    (name address : Text)
    → AreAtoms address
    → find_angle_addr (quoted_mailbox name address)
      ≡ some (length (escaped_name name) + 3, length (escaped_name name) + 4 + length address)
unfolding find_angle_addr angles_from
find_angle_addr-quoted name address h =
    let n = length (escaped_name name) in
    let start = suc (suc (1 + n)) in
    let found =
      angles_from-escaped name (b'"' ∷ b' ' ∷ b'<' ∷ (address ++ (b'>' ∷ []))) 1 none none
      ∙ angles_from-atoms address (b'>' ∷ []) (suc start) (some start) none h in
    rw found (ground arith)

pub split_address_list-quoted :
    (name address : Text)
    → AreAtoms address
    → split_address_list (quoted_mailbox name address) ≡ entry_of (quoted_mailbox name address)
unfolding split_address_list split_from
split_address_list-quoted name address h =
    let e = escaped_name name in
    split_from-escaped name (b'"' ∷ b' ' ∷ b'<' ∷ (address ++ (b'>' ∷ []))) (b'"' ∷ [])
    ∙ split_from-atoms address (b'>' ∷ []) ((b'"' ∷ e) ++ (b'"' ∷ []) ++ (b' ' ∷ []) ++ (b'<' ∷ []))
        h
    ∙ ap entry_of together
  where
    together :
        (b'"' ∷ escaped_name name)
          ++ (b'"' ∷ [])
          ++ (b' ' ∷ [])
          ++ (b'<' ∷ [])
          ++ address
          ++ (b'>' ∷ [])
        ≡ quoted_mailbox name address
    together =
        let e = escaped_name name in
        let tail : Text = b'"' ∷ b' ' ∷ b'<' ∷ [] in
        rw
          (
            append_assoc e (b'"' ∷ []) (b' ' ∷ []),
            append_assoc e (b'"' ∷ b' ' ∷ []) (b'<' ∷ []),
            append_assoc e tail address,
            append_assoc e (tail ++ address) (b'>' ∷ []),
          )
          refl
