-- ===== src/Tests/Codec.antt =====
-- An encoding and a digest at which the theorems are applied: numbers in unary, texts by their
-- characters, lists by their lengths.
use Prim.Native.Char.{Char, char, code, IsLt, IsScalar}
use Prim.Native.Nat.{Ordering, compare}
use text.Mathlib.TextEquality.{Char-path}
use sand_d.Prelude.{
  ℕ, zero, suc, ◌+◌, ◌≤◌, String, true, false, Option, none, some, List, [], ◌∷◌, ◌++◌, Bytes, ◌≡◌,
  refl, sym, ap, ◌∙◌, arith, length, eqb,
}
use sand_d.Prelude.Text.{byte_len, all_chars}
use sand_d.Snapshot.Types.{
  EntryType, blob, tree, symlink, symlink_dir, WireEntry, Snapshot, Encoding,
}
use sand_d.Snapshot.ObjectStore.{Blake3, is_ascii_hexdigit}

abbrev Both : Ordering → Ordering → Type 0
Both Ordering.lt o = IsLt o
Both Ordering.eq _ = ⊥
Both Ordering.gt _ = ⊥

abbrev Scalar : Ordering → Ordering → Ordering → Type 0
Scalar Ordering.lt _ _ = Unit
Scalar Ordering.eq o p = Both o p
Scalar Ordering.gt o p = Both o p

dec_lt : (o : Ordering) → Dec (IsLt o)
dec_lt Ordering.lt = yes tt
dec_lt Ordering.eq = no (λ h. h)
dec_lt Ordering.gt = no (λ h. h)

dec_both : (o p : Ordering) → Dec (Both o p)
dec_both Ordering.lt p = dec_lt p
dec_both Ordering.eq p = no (λ h. h)
dec_both Ordering.gt p = no (λ h. h)

dec_scalar : (o p q : Ordering) → Dec (Scalar o p q)
dec_scalar Ordering.lt p q = yes tt
dec_scalar Ordering.eq p q = dec_both p q
dec_scalar Ordering.gt p q = dec_both p q

is_scalar : (n : ℕ) → Dec (IsScalar n)
is_scalar n = dec_scalar (compare n 55296) (compare 57343 n) (compare n 1114112)

abbrev char_or : (n : ℕ) → Dec (IsScalar n) → Char
char_or n (yes p) = char n p
char_or n (no _) = char 0 tt

char_or-code : (c : Char) (d : Dec (IsScalar (code c))) → char_or (code c) d ≡ c
char_or-code (char n p) (yes q) = Char-path (char n q) (char n p) refl
char_or-code (char n p) (no h) = absurd (h p)

abbrev codes : String → Bytes
codes String.[] = []
codes (String.◌∷◌ c s) = code c ∷ codes s

abbrev spell : Bytes → String
spell [] = String.[]
spell (n ∷ ns) = String.◌∷◌ (char_or n (is_scalar n)) (spell ns)

spell-codes : (s : String) → spell (codes s) ≡ s
spell-codes String.[] = refl
spell-codes (String.◌∷◌ c s) = rw (char_or-code c (is_scalar (code c)), spell-codes s) refl

-- A number as so many `1`, and a `0`.
abbrev digits : ℕ → String → String
digits zero s = String.◌∷◌ (char 48 tt) s
digits (suc n) s = String.◌∷◌ (char 49 tt) (digits n s)

unfoldable pub unary : Bytes → String
unary [] = String.[]
unary (n ∷ ns) = digits n (unary ns)

unfoldable count_ones : ℕ → String → Bytes
count_ones k String.[] = []
count_ones k (String.◌∷◌ c s) = elim (eqb (code c) 48) [
  | true ↦ k ∷ count_ones 0 s
  | false ↦ count_ones (suc k) s
]

record Codec (A : Type 0) : Type 1 where
  put : A → Bytes → Bytes
  get : Bytes → Option (A × Bytes)
  law : (a : A) (rest : Bytes) → get (put a rest) ≡ some (a, rest)

abbrev get_number : Bytes → Option (ℕ × Bytes)
get_number [] = none
get_number (n ∷ ns) = some (n, ns)

number : Codec ℕ
number = record { put = λ n rest. n ∷ rest; get = get_number; law = λ n rest. refl }

both_of : {A C : Type 0} → Codec A → Codec C → Codec (A × C)
both_of a c = record {
  put = λ (x, y) rest. a.put x (c.put y rest);
  get = λ bs. elim (a.get bs) [
    | none ↦ none
    | some (x, r) ↦ elim (c.get r) [ none ↦ none | some (y, r') ↦ some ((x, y), r') ]
  ];
  law = λ (x, y) rest. rw (a.law x (c.put y rest), c.law y rest) refl;
}

through :
    {A C : Type 0} (to : A → C) (from : C → A) → ((a : A) → from (to a) ≡ a) → Codec C → Codec A
through to from back c = record {
  put = λ a rest. c.put (to a) rest;
  get = λ bs. elim (c.get bs) [ none ↦ none | some (x, r) ↦ some (from x, r) ];
  law = λ a rest. rw (c.law (to a) rest, back a) refl;
}

abbrev put_all : {A : Type 0} → Codec A → List A → Bytes → Bytes
put_all c [] rest = rest
put_all c (x ∷ xs) rest = c.put x (put_all c xs rest)

abbrev get_all : {A : Type 0} → Codec A → ℕ → Bytes → Option (List A × Bytes)
get_all c zero bs = some ([], bs)
get_all c (suc n) bs = elim (c.get bs) [
  | none ↦ none
  | some (x, r) ↦ elim (get_all c n r) [ none ↦ none | some (xs, r') ↦ some (x ∷ xs, r') ]
]

get_all-put_all :
    {A : Type 0} (c : Codec A) (xs : List A) (rest : Bytes)
    → get_all c (length xs) (put_all c xs rest) ≡ some (xs, rest)
get_all-put_all c [] rest = refl
get_all-put_all c (x ∷ xs) rest = rw (c.law x (put_all c xs rest), get_all-put_all c xs rest) refl

abbrev get_list : {A : Type 0} → Codec A → Bytes → Option (List A × Bytes)
get_list c [] = none
get_list c (n ∷ ns) = get_all c n ns

list_of : {A : Type 0} → Codec A → Codec (List A)
list_of c = record {
  put = λ xs rest. length xs ∷ put_all c xs rest;
  get = get_list c;
  law = λ xs rest. get_all-put_all c xs rest;
}

a_text : Codec String
a_text = through codes spell spell-codes (list_of number)

abbrev type_code : EntryType → ℕ
type_code blob = 0
type_code tree = 1
type_code symlink = 2
type_code symlink_dir = 3

abbrev type_of : ℕ → EntryType
type_of zero = blob
type_of (suc zero) = tree
type_of (suc (suc zero)) = symlink
type_of (suc (suc (suc n))) = symlink_dir

type_of-type_code : (t : EntryType) → type_of (type_code t) ≡ t
type_of-type_code blob = refl
type_of-type_code tree = refl
type_of-type_code symlink = refl
type_of-type_code symlink_dir = refl

wire : Codec WireEntry
wire =
    through {C = String × (ℕ × (EntryType × (String × (ℕ × ℕ))))}
      (λ w. (w.name, (w.mode, (w.entry_type, (w.hash, (w.size, w.modified))))))
      (λ (name, (mode, (entry_type, (hash, (size, modified))))). record {
        name = name;
        mode = mode;
        entry_type = entry_type;
        hash = hash;
        size = size;
        modified = modified;
      })
      (λ w. refl)
      (both_of a_text (
        both_of number (
          both_of (through type_code type_of type_of-type_code number)
            (both_of a_text (both_of number number)))))

snapshot : Codec Snapshot
snapshot =
    through {C = String × (ℕ × (String × (String × (List String × (String × (ℕ × ℕ))))))}
      (λ s. (
        s.id,
        (
          s.created_at,
          (s.tree, (s.message, (s.tags, (s.workspace, (s.file_count, s.total_size))))),
        ),
      ))
      (λ (id, (created_at, (root, (message, (tags, (workspace, (file_count, total_size))))))).
        record {
          id = id;
          created_at = created_at;
          tree = root;
          message = message;
          tags = tags;
          workspace = workspace;
          file_count = file_count;
          total_size = total_size;
        })
      (λ s. refl)
      (both_of a_text (
        both_of number (
          both_of a_text
            (both_of a_text (both_of (list_of a_text) (both_of a_text (both_of number number)))))))

abbrev first : {A : Type 0} → Option (A × Bytes) → Option A
first none = none
first (some (a, rest)) = some a

count_ones-digits : (k n : ℕ) (s : String) → count_ones k (digits n s) ≡ (k + n) ∷ count_ones 0 s
unfolding count_ones
count_ones-digits k zero s = ap (λ i. i ∷ count_ones 0 s) (omega arith)
count_ones-digits k (suc n) s =
    count_ones-digits (suc k) n s ∙ ap (λ i. i ∷ count_ones 0 s) (omega arith)

count_ones-unary : (ns : Bytes) → count_ones 0 (unary ns) ≡ ns
unfolding unary count_ones
count_ones-unary [] = refl
count_ones-unary (n ∷ ns) =
    count_ones-digits 0 n (unary ns)
    ∙ ap (λ i. i ∷ count_ones 0 (unary ns)) (omega arith)
    ∙ ap (◌∷◌ n) (count_ones-unary ns)

pub encoding : Encoding
encoding = record {
  snapshot_to_json = λ s. unary (snapshot.put s []);
  snapshot_from_json = λ t. first (snapshot.get (count_ones 0 t));
  snapshot_json = λ s.
      ap (λ bs. first (snapshot.get bs)) (count_ones-unary (snapshot.put s []))
      ∙ ap first (snapshot.law s []);
  tree_to_json = λ ws. (list_of wire).put ws [];
  tree_from_json = λ bs. first ((list_of wire).get bs);
  tree_json = λ ws. ap first ((list_of wire).law ws []);
  as_bytes = codes;
  from_utf8 = λ bs. some (spell bs);
  utf8 = λ s. ap some (spell-codes s);
}

abbrev pub digest : Bytes → String
digest bs = String.◌∷◌ (char 97 tt) (String.◌∷◌ (char 98 tt) (String.◌∷◌ (char 99 tt) (unary bs)))

hex_digits :
    (n : ℕ) (s : String)
    → all_chars is_ascii_hexdigit s ≡ true
    → all_chars is_ascii_hexdigit (digits n s) ≡ true
unfolding all_chars
hex_digits zero s h = h
hex_digits (suc n) s h = hex_digits n s h

hex_unary : (bs : Bytes) → all_chars is_ascii_hexdigit (unary bs) ≡ true
unfolding unary all_chars
hex_unary [] = refl
hex_unary (n ∷ ns) = hex_digits n (unary ns) (hex_unary ns)

pub long_digest : (bs : Bytes) → 3 ≤ byte_len (digest bs)
unfolding byte_len
long_digest bs = omega arith

pub hex_digest : (bs : Bytes) → all_chars is_ascii_hexdigit (digest bs) ≡ true
unfolding all_chars
hex_digest bs = hex_unary bs

-- A digest without collisions.
abbrev pub blake3 : Blake3
blake3 = record {
  hash = digest;
  Hasher = Bytes;
  new = [];
  update = λ a b. a ++ b;
  finalize = digest;
  long = long_digest;
  hex = hex_digest;
  HasTaken = λ h taken. h ≡ taken;
  new-HasTaken = refl;
  update-HasTaken = λ h taken b e. ap (λ x. x ++ b) e;
  digests = λ h taken e. ap digest e;
}

abbrev tail3 : String → String
tail3 (String.◌∷◌ a (String.◌∷◌ b (String.◌∷◌ c s))) = s
tail3 _ = ""

pub digest_injective : (x y : Bytes) → digest x ≡ digest y → x ≡ y
digest_injective x y e =
    sym (count_ones-unary x) ∙ ap (λ s. count_ones 0 (tail3 s)) e ∙ count_ones-unary y
