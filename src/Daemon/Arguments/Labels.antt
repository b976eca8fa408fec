-- ===== src/Daemon/Arguments/Labels.antt =====
-- The labels that a daemon takes from its arguments, and where it dials.
use sand_d.Prelude.{
  String, false, Option, none, some, List, [], ◌∷◌, ◌++◌, ◌≡◌, refl, arith, eqb, ◌==◌,
  if◌then◌else◌, ap, ◌∙◌,
}
use sand_d.Prelude.Dict.{Dict, lookup, lookup-insert, lookup-insert_self}
use sand_d.Prelude.Text.{append, any_char}
use sand_d.Daemon.Arguments.{split_once, insert_pair, parse_labels}

-- A key without `=`, then `=`, then any value.
pub split_once-append :
    (key value : String)
    → any_char (λ c. eqb c b'=') key ≡ false
    → split_once (append key (append "=" value)) ≡ some (key, value)
unfolding split_once append any_char
split_once-append String.[] value h = refl
split_once-append (String.◌∷◌ c key) value h =
    let ih = split_once-append key value (ground arith) in ground (arith, ih)

abbrev chosen : (key : String) → Option (String × String) → Option String → Option String
chosen key none found = found
chosen key (some (k, value)) found = if k == key then some value else found

-- The value that the last label with a key gives to it.
unfoldable pub last_value : (key : String) → List String → Option String → Option String
last_value key [] found = found
last_value key (label ∷ rest) found = last_value key rest (chosen key (split_once label) found)

lookup-insert_pair :
    (key : String) (pair : Option (String × String)) (labels : Dict String)
    → lookup key (insert_pair pair labels) ≡ chosen key pair (lookup key labels)
lookup-insert_pair key none labels = refl
lookup-insert_pair key (some (k, value)) labels = lookup-insert k key value labels

-- The labels of a daemon hold, for each key, the value of the last argument that has the form of that
-- key, `=` and a value, split at its first `=`; arguments without `=` count for nothing.
pub lookup-parse_labels :
    (key : String) (arguments : List String) (labels : Dict String)
    → lookup key (parse_labels arguments labels) ≡ last_value key arguments (lookup key labels)
unfolding parse_labels last_value
lookup-parse_labels key [] labels = refl
lookup-parse_labels key (label ∷ rest) labels =
    lookup-parse_labels key rest (insert_pair (split_once label) labels)
    ∙ ap (last_value key rest) (lookup-insert_pair key (split_once label) labels)

parse_labels-append :
    (a b : List String) (labels : Dict String)
    → parse_labels (a ++ b) labels ≡ parse_labels b (parse_labels a labels)
unfolding parse_labels
parse_labels-append [] b labels = refl
parse_labels-append (l ∷ a) b labels = parse_labels-append a b (insert_pair (split_once l) labels)

-- A label that is given last, as a key without `=`, then `=`, then any value, is read back: the daemon
-- has that value under that key, whatever the other arguments are.
pub label_read_back :
    (arguments : List String) (key value : String) (labels : Dict String)
    → any_char (λ c. eqb c b'=') key ≡ false
    → lookup key (parse_labels (arguments ++ append key (append "=" value) ∷ []) labels)
      ≡ some value
unfolding parse_labels
label_read_back arguments key value labels plain =
    ap (lookup key) (parse_labels-append arguments (append key (append "=" value) ∷ []) labels)
    ∙ rw (split_once-append key value plain)
        (lookup-insert_self key value (parse_labels arguments labels))
