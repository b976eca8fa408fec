-- ===== src/Snapshot/Tags/Names.antt =====
-- Which names of tags are accepted.
use Prim.Native.Char.{Char, char}
use text.Mathlib.TextEquality.{Char-path}
use sand_d.Prelude.{
  ℕ, String, Bool, true, false, ◌≡◌, ◌≢◌, refl, sym, ap, subst, ◌∙◌, arith, inl, inr, ◌==◌, eq_iff,
  ◌&&◌, ◌||◌, not, eqb, leb, Bool-cases, ◌↔◌,
}
use sand_d.Prelude.Text.{any_char, all_chars, append}
use sand_d.Snapshot.Types.{ok}
use sand_d.Snapshot.Tags.{
  validate_tag_name, has_dotdot, is_separator, is_control, is_absolute, starts_with_dot, is_dot,
}

-- No slash, no backslash (92), and no control character: none below 32, and none from 127 to 159.
abbrev pub is_plain : ℕ → Bool
is_plain c = not (eqb c b'/') && not (eqb c 92) && leb 32 c && not (leb 127 c && leb c 159)

-- A name without characters or dots that could lead out of the directory of tags.
pub record IsTagName (tag : String) : Type 0 where
  pub not_empty : tag ≢ ""
  pub not_dot : tag ≢ "."
  pub no_dotdot : (a b : String) → tag ≢ append a (append ".." b)
  pub plain : all_chars is_plain tag ≡ true

any-of-not-all :
    (tag : String)
    → (any_char is_separator tag || any_char (λ c. is_control c || eqb c 0) tag)
      ≡ not (all_chars is_plain tag)
unfolding any_char all_chars
any-of-not-all String.[] = refl
any-of-not-all (String.◌∷◌ c s) = ground (arith, any-of-not-all s)

has_dotdot-append : (a b : String) → has_dotdot (append a (append ".." b)) ≡ true
unfolding has_dotdot append
has_dotdot-append String.[] b = refl
has_dotdot-append (String.◌∷◌ c a) b = ground (arith, has_dotdot-append a b)

dots_begin :
    (c : Char) (s : String)
    → (is_dot c && starts_with_dot s) ≡ true
    → (a : String) × (b : String) × (String.◌∷◌ c s ≡ append a (append ".." b))
unfolding append
dots_begin c String.[] h = absurd (ground arith)
dots_begin c (String.◌∷◌ d s) h = (
  "",
  s,
  ap (λ x. String.◌∷◌ x (String.◌∷◌ d s)) (Char-path c (char 46 tt) (ground arith))
      ∙ ap (λ y. String.◌∷◌ (char 46 tt) (String.◌∷◌ y s))
          (Char-path d (char 46 tt) (ground arith)),
)

dotdot_split :
    (tag : String)
    → has_dotdot tag ≡ true
    → (a : String) × (b : String) × (tag ≡ append a (append ".." b))
unfolding has_dotdot append
dotdot_split String.[] h = absurd (cc)
dotdot_split (String.◌∷◌ c s) h = elim (Bool-cases (is_dot c && starts_with_dot s)) [
  | inl e ↦ dots_begin c s e
  | inr e ↦
      (let (a, b, e') = dotdot_split s (ground arith) in (String.◌∷◌ c a, b, ap (String.◌∷◌ c) e'))
]

is_absolute-plain : (tag : String) → all_chars is_plain tag ≡ true → is_absolute tag ≡ false
unfolding all_chars
is_absolute-plain String.[] h = refl
is_absolute-plain (String.◌∷◌ c s) h = ground arith

accepted-IsTagName : (tag : String) → validate_tag_name tag ≡ ok tt → IsTagName tag
unfolding validate_tag_name
accepted-IsTagName tag h = record {
  not_empty = λ e. ground (arith, eq_iff tag "");
  not_dot = λ e. ground (arith, eq_iff tag ".");
  no_dotdot = λ a b e.
      let dots = subst (λ t. has_dotdot t ≡ true) (sym e) (has_dotdot-append a b) in ground arith;
  plain = ground (arith, any-of-not-all tag);
}

ne_test : (s t : String) → s ≢ t → (s == t) ≡ false
ne_test s t h = ground (arith, eq_iff s t)

IsTagName-accepted : (tag : String) → IsTagName tag → validate_tag_name tag ≡ ok tt
unfolding validate_tag_name append
IsTagName-accepted tag n = elim (Bool-cases (has_dotdot tag)) [
  | inl e ↦ (let (a, b, e') = dotdot_split tag e in absurd (n.no_dotdot a b e'))
  | inr e ↦
      (let empty = ne_test tag "" n.not_empty in
        let dot = ne_test tag "." n.not_dot in
        let dots = ne_test tag ".." (λ e'. n.no_dotdot "" "" e') in
        let absolute = is_absolute-plain tag n.plain in ground (arith, any-of-not-all tag))
]

-- A name of a tag is accepted exactly if it is not empty, not `.`, nowhere has two dots in a row,
-- and has no slash, no backslash and no control character (below 32, or from 127 to 159).
pub validate_tag_name_iff : (tag : String) → (validate_tag_name tag ≡ ok tt) ↔ IsTagName tag
validate_tag_name_iff tag = (accepted-IsTagName tag, IsTagName-accepted tag)
