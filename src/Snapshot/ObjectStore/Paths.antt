-- ===== src/Snapshot/ObjectStore/Paths.antt =====
-- `hash_to_path`: which hashes have a path, and that different objects have different paths, none
-- of them that of a temporary file.
use text.Mathlib.TextLemmas.{head-eq_of_cons-eq, tail-eq_of_cons-eq}
use Prim.Native.Char.{Char}
use sand_d.Prelude.{◌≤◌, ◌<◌, String, true, false, ◌≡◌, ◌≢◌, ◌↔◌, refl, sym, ap, ◌∙◌, arith}
use sand_d.Prelude.Text.{byte_len, all_chars, append, with_tmp, file_stem, all_chars-append}
use sand_d.Snapshot.Types.{ok}
use sand_d.Snapshot.ObjectStore.{
  is_ascii_hexdigit, ObjectPath, key, temp_key, split_hash, hash_to_path,
}

pub record IsPathOf (hash : String) (p : ObjectPath) : Type 0 where
  pub a : Char
  pub b : Char
  pub rest : String
  pub spelled : hash ≡ String.◌∷◌ a (String.◌∷◌ b rest)
  pub dir : p.dir ≡ String.◌∷◌ a (String.◌∷◌ b String.[])
  pub file : p.file ≡ rest
  pub hex : all_chars is_ascii_hexdigit hash ≡ true

-- A single hexadecimal digit is one byte long.
hex_byte_len :
    (c : Char)
    → all_chars is_ascii_hexdigit (String.◌∷◌ c String.[]) ≡ true
    → byte_len (String.◌∷◌ c String.[]) < 3
unfolding all_chars byte_len
hex_byte_len c h = ground arith

-- A hash that has a path consists of hexadecimal digits, of which the first two are the directory
-- and the others the file name.
pub hash_to_path-IsPathOf :
    (hash : String) {p : ObjectPath} → hash_to_path hash ≡ ok p → IsPathOf hash p
unfolding hash_to_path byte_len
hash_to_path-IsPathOf String.[] h = cc
hash_to_path-IsPathOf (String.◌∷◌ a String.[]) h = absurd (ground (arith, hex_byte_len a))
hash_to_path-IsPathOf (String.◌∷◌ a (String.◌∷◌ b rest)) h =
    let whole = String.◌∷◌ a (String.◌∷◌ b rest) in
    record {
      a = a;
      b = b;
      rest = rest;
      spelled = refl;
      dir = ground arith;
      file = ground arith;
      hex = ground arith;
    }

-- A hash has a path exactly if it has at least three bytes and only hexadecimal digits, so it can
-- hold no separator and no dot.
pub hash_to_path_iff :
    (hash : String)
    → ((p : ObjectPath) × (hash_to_path hash ≡ ok p))
      ↔ ((3 ≤ byte_len hash) × (all_chars is_ascii_hexdigit hash ≡ true))
unfolding hash_to_path
hash_to_path_iff hash =
    (λ (p, h). (ground arith, ground arith), λ (long, hex). (split_hash hash, ground arith))

key-IsPathOf :
    {hash : String} {p : ObjectPath} (v : IsPathOf hash p)
    → key p ≡ String.◌∷◌ v.a (String.◌∷◌ v.b (String.◌∷◌ "/" p.file))
unfolding append
key-IsPathOf {p = p} v = rw v.dir

-- Hashes that have one path are equal.
pub key_injective :
    {hash hash' : String} {p p' : ObjectPath}
    → IsPathOf hash p
    → IsPathOf hash' p'
    → key p ≡ key p'
    → hash ≡ hash'
key_injective {p = p} {p' = p'} v w e =
    let same : String.◌∷◌ v.a (String.◌∷◌ v.b (String.◌∷◌ "/" p.file))
        ≡ String.◌∷◌ w.a (String.◌∷◌ w.b (String.◌∷◌ "/" p'.file)) =
      sym (key-IsPathOf v) ∙ e ∙ key-IsPathOf w in
    let tails = tail-eq_of_cons-eq same in
    let files = tail-eq_of_cons-eq (tail-eq_of_cons-eq tails) in
    cc (
      v.spelled,
      w.spelled,
      v.file,
      w.file,
      files,
      head-eq_of_cons-eq same,
      head-eq_of_cons-eq tails,
    )

hex-with_tmp : (s : String) → all_chars is_ascii_hexdigit (with_tmp s) ≡ false
unfolding with_tmp all_chars
hex-with_tmp s = ground (arith, all_chars-append is_ascii_hexdigit (file_stem s) ".tmp")

hex_file :
    {hash : String} {p : ObjectPath} → IsPathOf hash p → all_chars is_ascii_hexdigit p.file ≡ true
unfolding all_chars
hex_file v = rw v.file (ground (arith, rw v.spelled at v.hex))

-- No object lies where a temporary file is written.
pub temp_key-ne-key :
    {hash hash' : String} {p p' : ObjectPath}
    → IsPathOf hash p
    → IsPathOf hash' p'
    → temp_key p ≢ key p'
unfolding append
temp_key-ne-key {p = p} {p' = p'} v w e =
    let same : String.◌∷◌ v.a (String.◌∷◌ v.b (String.◌∷◌ "/" (with_tmp p.file)))
        ≡ String.◌∷◌ w.a (String.◌∷◌ w.b (String.◌∷◌ "/" p'.file)) =
      sym (rw v.dir) ∙ e ∙ key-IsPathOf w in
    let files = tail-eq_of_cons-eq (tail-eq_of_cons-eq (tail-eq_of_cons-eq same)) in
    cc (hex-with_tmp p.file, hex_file w, ap (all_chars is_ascii_hexdigit) files)
