-- ===== src/Message/Headers/Fields/Editing.antt =====
-- What the editing methods do to the fields of a name, and that they keep the others.
use smtp_relay.Prelude.{
  ◌+◌, ◌≡◌, refl, ap, true, false, not, none, some, List, [], ◌∷◌, ◌++◌, Text, text_eq_refl, any,
  length, inl, inr, arith, Bool-cases,
}
use smtp_relay.Util.Strings.{to_ascii_lowercase}
use smtp_relay.Message.Headers.{Header, Message, new, from_parts}
use smtp_relay.Message.Headers.Fields.{
  filter, is_named, find_named, get, count, retain_first, replace_first, set, remove_all,
}

-- The fields that have another name.
abbrev pub others : Text → List Header → List Header
others needle hs = filter (λ h. not (is_named needle h)) hs

retain_first_seen :
    (needle : Text) (hs : List Header) → retain_first needle true hs ≡ others needle hs
retain_first_seen needle [] = refl
retain_first_seen needle (h ∷ hs) = ground (arith, retain_first_seen needle hs)

filter-others :
    (needle : Text) (hs : List Header) → filter (is_named needle) (others needle hs) ≡ []
filter-others needle [] = refl
filter-others needle (h ∷ hs) = ground (arith, filter-others needle hs)

others-others :
    (needle : Text) (hs : List Header) → others needle (others needle hs) ≡ others needle hs
others-others needle [] = refl
others-others needle (h ∷ hs) = ground (arith, others-others needle hs)

-- What stands for the fields of a name after a change.
record IsOne (needle : Text) (replacement : Header) (hs res : List Header) : Type 0 where
  found : find_named needle res ≡ some replacement
  once : filter (is_named needle) res ≡ replacement ∷ []
  rest : others needle res ≡ others needle hs

replaced-IsOne :
    (needle : Text) (r : Header) (hs : List Header)
    → is_named needle r ≡ true
    → any (is_named needle) hs ≡ true
    → IsOne needle r hs (retain_first needle false (replace_first needle r hs))
replaced-IsOne needle r [] n e = absurd (ground arith)
replaced-IsOne needle r (h ∷ hs) n e = elim (Bool-cases (is_named needle h)) [
  | inl b ↦
      rw (b, n, retain_first_seen needle hs)
        (record {
          found = rw n refl;
          once = rw (n, filter-others needle hs) refl;
          rest = rw (n, b, others-others needle hs) refl;
        })
  | inr b ↦
      let k = replaced-IsOne needle r hs n (ground arith) in
      rw (b) (record {
        found = ground (arith, k.found);
        once = ground (arith, k.once);
        rest = ground (arith, k.rest);
      })
]

appended-IsOne :
    (needle : Text) (r : Header) (hs : List Header)
    → is_named needle r ≡ true
    → any (is_named needle) hs ≡ false
    → IsOne needle r hs (hs ++ (r ∷ []))
appended-IsOne needle r [] n e = record { found = rw n refl; once = rw n refl; rest = rw n refl }
appended-IsOne needle r (h ∷ hs) n e =
    let k = appended-IsOne needle r hs n (ground arith) in
    record {
      found = ground (arith, k.found);
      once = ground (arith, k.once);
      rest = ground (arith, k.rest);
    }

set-IsOne :
    (name text : Text) (m : Message)
    → IsOne (to_ascii_lowercase name) (new name text) m.headers (set name text m).headers
unfolding set new from_parts
set-IsOne name text m =
    let needle = to_ascii_lowercase name in
    let n = text_eq_refl needle in
    elim (Bool-cases (any (is_named needle) m.headers)) [
      | inl e ↦ rw e (replaced-IsOne needle (new name text) m.headers n e)
      | inr e ↦ rw e (appended-IsOne needle (new name text) m.headers n e)
    ]

-- After `set` the message has the name exactly once, with the new value, whatever the case of the
-- letters in which the name was written before. The fields of all other names, in their order, the
-- body and the line endings are as before.
pub set-get :
    (name text : Text) (m : Message)
    → (get (set name text m) name ≡ some (new name text))
      × (count (set name text m) name ≡ 1)
      × (others (to_ascii_lowercase name) (set name text m).headers
          ≡ others (to_ascii_lowercase name) m.headers)
      × ((set name text m).body ≡ m.body)
      × ((set name text m).was_lf_only ≡ m.was_lf_only)
unfolding get count set
set-get name text m =
    let k = set-IsOne name text m in (k.found, ap length k.once, k.rest, ground arith, ground arith)

find_named-others : (needle : Text) (hs : List Header) → find_named needle (others needle hs) ≡ none
find_named-others needle [] = refl
find_named-others needle (h ∷ hs) = ground (arith, find_named-others needle hs)

length-others :
    (needle : Text) (hs : List Header)
    → length (others needle hs) + length (filter (is_named needle) hs) ≡ length hs
length-others needle [] = refl
length-others needle (h ∷ hs) = ground (arith, length-others needle hs)

-- After `remove_all` the message has no field of the name, and the number that it returns is how
-- many there were; the other fields are as before.
pub remove_all-count :
    (name : Text) (m : Message)
    → (get (remove_all name m).0 name ≡ none)
      × ((remove_all name m).1 ≡ count m name)
      × ((remove_all name m).0.headers ≡ others (to_ascii_lowercase name) m.headers)
      × ((remove_all name m).0.body ≡ m.body)
unfolding get count remove_all
remove_all-count name m =
    let needle = to_ascii_lowercase name in
    (
      find_named-others needle m.headers,
      (let l = length-others needle m.headers in omega arith),
      refl,
      refl,
    )
