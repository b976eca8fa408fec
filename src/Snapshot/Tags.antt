-- ===== src/Snapshot/Tags.antt =====
-- sandd/src/snapshot/manager.rs: the names of tags and their files under refs/tags.
pub mod Names
pub mod Refs
use Prim.Native.Char.{Char, code}
use sand_d.Prelude.{
  ℕ, String, Bool, true, false, Option, none, some, List, [], ◌∷◌, ◌&&◌, ◌||◌, ◌==◌, eqb, ltb, leb,
  if◌then◌else◌,
}
use sand_d.Prelude.Dict.{lookup}
use sand_d.Prelude.Text.{any_char, with_tmp}
use sand_d.Snapshot.Types.{
  Result, ok, err, SnapshotError, io, tag_empty, tag_absolute, tag_traversal, tag_separator,
  tag_reserved, tag_invalid,
}
use sand_d.Snapshot.Disk.{
  Disk, Io, ◌>>=◌, ◌>>◌, pure, raise, lift, Area, tag_files, write_text, rename_text, read_text,
  remove_text,
}
use sand_d.Snapshot.ObjectStore.{is_there}

abbrev is_dot : Char → Bool
is_dot c = eqb (code c) b'.'

abbrev starts_with_dot : String → Bool
starts_with_dot String.[] = false
starts_with_dot (String.◌∷◌ c s) = is_dot c

-- `contains("..")`
unfoldable pub has_dotdot : String → Bool
has_dotdot String.[] = false
has_dotdot (String.◌∷◌ c s) = (is_dot c && starts_with_dot s) || has_dotdot s

-- `Path::is_absolute` on unix
abbrev pub is_absolute : String → Bool
is_absolute String.[] = false
is_absolute (String.◌∷◌ c s) = eqb (code c) b'/'

abbrev pub is_separator : ℕ → Bool
is_separator c = eqb c b'/' || eqb c 92

-- `char::is_control`: the general category Cc.
abbrev pub is_control : ℕ → Bool
is_control c = ltb c 32 || (leb 127 c && ltb c 160)

unfoldable pub validate_tag_name : String → Result (Unit {0})
unfolding has_dotdot
validate_tag_name tag =
    if tag == ""
    then err tag_empty
    else if is_absolute tag
    then err (tag_absolute tag)
    else if has_dotdot tag
    then err (tag_traversal tag)
    else if any_char is_separator tag
    then err (tag_separator tag)
    else if tag == "." || tag == ".."
    then err (tag_reserved tag)
    else if any_char (λ c. is_control c || eqb c 0) tag
    then err (tag_invalid tag)
    else ok tt

-- A temporary file beside the tag's, renamed over it.
unfoldable pub add_tag : (snapshot_id tag : String) → Io (Unit {0})
unfolding write_text rename_text
add_tag snapshot_id tag = do
  write_text tag_files (with_tmp tag) snapshot_id
  rename_text tag_files (with_tmp tag) tag

unfoldable pub remove_tag : String → Io (Unit {0})
unfolding remove_text
remove_tag tag d = if is_there (lookup tag d.tags) then remove_text tag_files tag d else (ok tt, d)

-- `trim` takes white space from both ends; it is a parameter of the functions that read a tag's
-- file, as the ids that are written hold none.
unfoldable pub get_snapshot_by_tag : (trim : String → String) → String → Io (Option String)
unfolding read_text
get_snapshot_by_tag trim tag d =
    if is_there (lookup tag d.tags)
    then (do content ← read_text io tag_files tag; pure (some (trim content))) d
    else (ok none, d)
