-- ===== src/Prelude/Text.antt =====
-- The walks over the characters of a text that the program makes through `str`.
use Prim.Native.Nat.{ℕ, ◌+◌}
use Prim.Native.Char.{Char, code}
use Prim.Native.String.{String}
use mathlib.Core.Bool.{Bool, true, false, ◌&&◌, ◌||◌}
use mathlib.Core.Option.{Option, none, some}
use text.Mathlib.Text.{◌==◌}
use mathlib.Core.Path.{◌≡◌, refl}
use native.Mathlib.Omega.{arith}
use sand_d.Prelude.Tests.{ltb, eqb, if◌then◌else◌}

-- The bytes of a character in UTF-8.
abbrev utf8_len : ℕ → ℕ
utf8_len c = if ltb c 128 then 1 else if ltb c 2048 then 2 else if ltb c 65536 then 3 else 4

-- `str::len`: the bytes of a text.
unfoldable pub byte_len : String → ℕ
byte_len String.[] = 0
byte_len (String.◌∷◌ c s) = utf8_len (code c) + byte_len s

-- `chars().any(p)` and `chars().all(p)`
unfoldable pub any_char : (ℕ → Bool) → String → Bool
any_char p String.[] = false
any_char p (String.◌∷◌ c s) = p (code c) || any_char p s

unfoldable pub all_chars : (ℕ → Bool) → String → Bool
all_chars p String.[] = true
all_chars p (String.◌∷◌ c s) = p (code c) && all_chars p s

-- `String::push_str`, by the characters of the first text.
unfoldable pub append : String → String → String
append String.[] t = t
append (String.◌∷◌ c s) t = String.◌∷◌ c (append s t)

abbrev is_dot : Char → Bool
is_dot c = eqb (code c) b'.'

-- The part before the last dot.
unfoldable pub before_last_dot : String → Option String
before_last_dot String.[] = none
before_last_dot (String.◌∷◌ c s) = elim (before_last_dot s) [
  | some b ↦ some (String.◌∷◌ c b)
  | none ↦ (if is_dot c then some String.[] else none)
]

abbrev or_whole : String → Option String → String
or_whole name none = name
or_whole name (some String.[]) = name
or_whole name (some (String.◌∷◌ c s)) = String.◌∷◌ c s

-- The part after the last dot, or nothing.
unfoldable pub after_last_dot : String → Option String
after_last_dot String.[] = none
after_last_dot (String.◌∷◌ c s) = elim (after_last_dot s) [
  | some e ↦ some e
  | none ↦ (if is_dot c then some s else none)
]

-- `Path::file_stem` of a file name: a dot that begins the name starts no extension.
unfoldable pub file_stem : String → String
unfolding before_last_dot
file_stem name = if name == ".." then name else or_whole name (before_last_dot name)

abbrev unless_first : Option String → Option String → String
unless_first (some (String.◌∷◌ c s)) (some e) = e
unless_first _ _ = ""

-- `Path::extension` of a file name, where an empty one is as none.
unfoldable pub extension : String → String
unfolding before_last_dot after_last_dot
extension name =
    if name == ".." then "" else unless_first (before_last_dot name) (after_last_dot name)

-- `Path::with_extension("tmp")` on a file name: an extension that is there is replaced.
unfoldable pub with_tmp : String → String
unfolding file_stem append
with_tmp name = append (file_stem name) ".tmp"

pub all_chars-append :
    (p : ℕ → Bool) (s t : String) → all_chars p (append s t) ≡ (all_chars p s && all_chars p t)
unfolding all_chars append
all_chars-append p String.[] t = refl
all_chars-append p (String.◌∷◌ c s) t = ground (arith, all_chars-append p s t)
