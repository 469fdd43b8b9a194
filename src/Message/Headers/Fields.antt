-- ===== src/Message/Headers/Fields.antt =====
-- src/message/headers.rs: the methods of `Message` that look fields up and edit them.
pub mod Editing
use smtp_relay.Prelude.{
  ℕ, ◌-◌, Bool, true, false, not, Option, none, some, List, [], ◌∷◌, ◌++◌, Text, text_eq, any,
  is_empty, length, if◌then◌else◌,
}
use smtp_relay.Util.Strings.{to_ascii_lowercase, starts_with, is_some}
use smtp_relay.Message.Headers.{Header, Message, new, unfold_value}

abbrev pub filter {ℓ} : {A : Type ℓ} → (A → Bool) → List A → List A
filter p [] = []
filter p (x ∷ xs) = let rest = filter p xs in if p x then x ∷ rest else rest

abbrev pub is_named : Text → Header → Bool
is_named needle h = text_eq h.lower needle

abbrev pub find_named : Text → List Header → Option Header
find_named needle [] = none
find_named needle (h ∷ hs) =
    let rest = find_named needle hs in if is_named needle h then some h else rest

unfoldable pub get : Message → Text → Option Header
unfolding to_ascii_lowercase
get m name = find_named (to_ascii_lowercase name) m.headers

unfoldable pub has : Message → Text → Bool
unfolding get
has m name = is_some (get m name)

abbrev pub unfolded_value : Option Header → Option Text
unfolded_value none = none
unfolded_value (some h) = some (unfold_value h.raw_value)

unfoldable pub value : Message → Text → Option Text
unfolding get unfold_value
value m name = unfolded_value (get m name)

unfoldable pub count : Message → Text → ℕ
unfolding to_ascii_lowercase
count m name = length (filter (is_named (to_ascii_lowercase name)) m.headers)

-- `retain`, and how many were dropped.
abbrev pub retain : (Header → Bool) → Message → Message × ℕ
retain p m =
    let kept = filter p m.headers in (record m { headers = kept }, length m.headers - length kept)

unfoldable pub remove_all : Text → Message → Message × ℕ
unfolding to_ascii_lowercase
remove_all name m = let needle = to_ascii_lowercase name in retain (λ h. not (is_named needle h)) m

unfoldable pub remove_prefix : Text → Message → Message × ℕ
unfolding to_ascii_lowercase starts_with
remove_prefix prefix m =
    let needle = to_ascii_lowercase prefix in retain (λ h. not (starts_with h.lower needle)) m

-- The first field of the name is replaced, the later ones are dropped, and `replacement` is put last
-- where there is none.
abbrev pub retain_first : Text → Bool → List Header → List Header
retain_first needle seen [] = []
retain_first needle seen (h ∷ hs) =
    let after = retain_first needle seen hs in
    let later = retain_first needle true hs in
    if not (is_named needle h) then h ∷ after else if seen then later else h ∷ later

abbrev pub replace_first : Text → Header → List Header → List Header
replace_first needle replacement [] = []
replace_first needle replacement (h ∷ hs) =
    let rest = replace_first needle replacement hs in
    if is_named needle h then replacement ∷ hs else h ∷ rest

unfoldable pub set : Text → Text → Message → Message
unfolding to_ascii_lowercase new
set name text m =
    let needle = to_ascii_lowercase name in
    let replacement = new name text in
    if any (is_named needle) m.headers
    then record m {
      headers = retain_first needle false (replace_first needle replacement m.headers);
    }
    else record m { headers = m.headers ++ (replacement ∷ []) }

unfoldable pub prepend : Text → Text → Message → Message
unfolding new
prepend name text m = record m { headers = new name text ∷ m.headers }

unfoldable pub append : Text → Text → Message → Message
unfolding new
append name text m = record m { headers = m.headers ++ (new name text ∷ []) }

abbrev pub set_body : List ℕ → Message → Message
set_body body m = record m { body = body }
