-- ===== src/Snapshot/Manager/Listing.antt =====
-- The order of what `list_snapshots` returns.
use Prim.Native.Char.{code}
use sand_d.Prelude.{
  String, true, false, Option, List, [], ◌∷◌, ◌≡◌, ◌⊎◌, ◌↔◌, ◌<◌, refl, sym, ap, ◌∙◌, ltb, eq_iff,
  subst, arith, inl, inr, ◌||◌, All, Bool-cases,
}
use sand_d.Protocol.{SnapshotInfo}
use sand_d.Snapshot.Types.{Result, ok, err, Encoding}
use sand_d.Snapshot.Disk.{Disk, ◌>>=◌, pure, resume}
use sand_d.Snapshot.Manager.Reads.{AreRead, get_all-AreRead}
use sand_d.Snapshot.Manager.{list_snapshots, ids_for, get_all}
use sand_d.Snapshot.Manager.Order.{
  str_leb, insert_by, sort_by, dedup_after, dedup_by, newest_first, same_id,
}

str_leb_total : (s t : String) → (str_leb s t || str_leb t s) ≡ true
unfolding str_leb
str_leb_total String.[] t = refl
str_leb_total (String.◌∷◌ c s) String.[] = refl
str_leb_total (String.◌∷◌ c s) (String.◌∷◌ c' t) = ground (arith, str_leb_total s t)

str_leb_trans : (s t u : String) → str_leb s t ≡ true → str_leb t u ≡ true → str_leb s u ≡ true
unfolding str_leb
str_leb_trans String.[] t u h h' = refl
str_leb_trans (String.◌∷◌ c s) String.[] u h h' = absurd (cc)
str_leb_trans (String.◌∷◌ c s) (String.◌∷◌ c' t) String.[] h h' = absurd (cc)
str_leb_trans (String.◌∷◌ c s) (String.◌∷◌ c' t) (String.◌∷◌ c'' u) h h' =
    ground (arith, str_leb_trans s t u)

newest_first_total : (a b : SnapshotInfo) → (newest_first a b || newest_first b a) ≡ true
unfolding newest_first
newest_first_total a b = ground (arith, str_leb_total a.id b.id)

newest_first_trans :
    (a b c : SnapshotInfo)
    → newest_first a b ≡ true
    → newest_first b c ≡ true
    → newest_first a c ≡ true
unfolding newest_first
newest_first_trans a b c h h' = ground (arith, str_leb_trans a.id b.id c.id)

-- In the order of the code.
abbrev Before : SnapshotInfo → List SnapshotInfo → Type 0
Before a = All (λ b. newest_first a b ≡ true)

abbrev IsSorted : List SnapshotInfo → Type 0
IsSorted [] = Unit
IsSorted (a ∷ rest) = Before a rest × IsSorted rest

-- No snapshot has the id of the next one.
abbrev pub IsApart : List SnapshotInfo → Type 0
IsApart [] = Unit
IsApart (a ∷ []) = Unit
IsApart (a ∷ b ∷ bs) = (same_id b a ≡ false) × IsApart (b ∷ bs)

Before-trans :
    (a b : SnapshotInfo) (cs : List SnapshotInfo)
    → newest_first a b ≡ true
    → Before b cs
    → Before a cs
Before-trans a b [] h h' = tt
Before-trans a b (c ∷ cs) h h' = (newest_first_trans a b c h h'.0, Before-trans a b cs h h'.1)

Before-insert_by :
    (a x : SnapshotInfo) (ys : List SnapshotInfo)
    → newest_first a x ≡ true
    → Before a ys
    → Before a (insert_by newest_first x ys)
unfolding insert_by
Before-insert_by a x [] h b = (h, tt)
Before-insert_by a x (y ∷ ys) h b = elim (Bool-cases (newest_first x y)) [
  | inl e ↦ rw e (h, b)
  | inr e ↦ rw e (b.0, Before-insert_by a x ys h b.1)
]

insert_by-IsSorted :
    (x : SnapshotInfo) (ys : List SnapshotInfo)
    → IsSorted ys
    → IsSorted (insert_by newest_first x ys)
unfolding insert_by
insert_by-IsSorted x [] s = (tt, tt)
insert_by-IsSorted x (y ∷ ys) s = elim (Bool-cases (newest_first x y)) [
  | inl e ↦ rw e ((e, Before-trans x y ys e s.0), s)
  | inr e ↦
      (let later : newest_first y x ≡ true = ground (arith, newest_first_total x y) in
        rw e (Before-insert_by y x ys later s.0, insert_by-IsSorted x ys s.1))
]

sort_by-IsSorted : (xs : List SnapshotInfo) → IsSorted (sort_by newest_first xs)
unfolding sort_by
sort_by-IsSorted [] = tt
sort_by-IsSorted (x ∷ xs) = insert_by-IsSorted x _ (sort_by-IsSorted xs)

Before-dedup_after :
    (a last : SnapshotInfo) (ys : List SnapshotInfo)
    → Before a ys
    → Before a (dedup_after same_id last ys)
unfolding dedup_after
Before-dedup_after a last [] b = tt
Before-dedup_after a last (y ∷ ys) b = elim (Bool-cases (same_id y last)) [
  | inl e ↦ rw (dedup_after, e) (Before-dedup_after a last ys b.1)
  | inr e ↦ rw (dedup_after, e) (b.0, Before-dedup_after a y ys b.1)
]

dedup_after_lem :
    (last : SnapshotInfo) (ys : List SnapshotInfo)
    → IsSorted ys
    → IsSorted (dedup_after same_id last ys) × IsApart (last ∷ dedup_after same_id last ys)
unfolding dedup_after
dedup_after_lem last [] s = (tt, tt)
dedup_after_lem last (y ∷ ys) s = elim (Bool-cases (same_id y last)) [
  | inl e ↦ rw (dedup_after, e) (dedup_after_lem last ys s.1)
  | inr e ↦
      (let (sorted, apart) = dedup_after_lem y ys s.1 in
        rw (dedup_after, e) ((Before-dedup_after y y ys s.0, sorted), (e, apart)))
]

dedup_by_lem :
    (xs : List SnapshotInfo)
    → IsSorted xs
    → IsSorted (dedup_by same_id xs) × IsApart (dedup_by same_id xs)
unfolding dedup_by
dedup_by_lem [] s = (tt, tt)
dedup_by_lem (x ∷ xs) s =
    let (sorted, apart) = dedup_after_lem x xs s.1 in
    ((Before-dedup_after x x xs s.0, sorted), apart)

-- The order of texts: by the first character that differs, a first part before the whole.
abbrev pub ComesFirst : String → String → Type 0
ComesFirst String.[] t = Unit
ComesFirst (String.◌∷◌ c s) String.[] = ⊥
ComesFirst (String.◌∷◌ c s) (String.◌∷◌ d t) =
    (code c < code d) ⊎ ((code c ≡ code d) × ComesFirst s t)

str_leb-ComesFirst : (s t : String) → str_leb s t ≡ true → ComesFirst s t
unfolding str_leb
str_leb-ComesFirst String.[] t h = tt
str_leb-ComesFirst (String.◌∷◌ c s) String.[] h = absurd (cc)
str_leb-ComesFirst (String.◌∷◌ c s) (String.◌∷◌ d t) h = elim (Bool-cases (ltb (code c) (code d))) [
  | inl e ↦ inl (ground arith)
  | inr e ↦ inr (ground arith, str_leb-ComesFirst s t (ground arith))
]

-- Newer, or of the same time and with an id that comes no later in the order of texts.
abbrev pub Precedes : SnapshotInfo → SnapshotInfo → Type 0
Precedes a b =
    (b.created_at < a.created_at) ⊎ ((a.created_at ≡ b.created_at) × ComesFirst a.id b.id)

-- Every snapshot precedes each that follows it.
abbrev pub IsNewestFirst : List SnapshotInfo → Type 0
IsNewestFirst [] = Unit
IsNewestFirst (a ∷ rest) = All (Precedes a) rest × IsNewestFirst rest

newest_first-Precedes : (a b : SnapshotInfo) → newest_first a b ≡ true → Precedes a b
unfolding newest_first
newest_first-Precedes a b h = elim (Bool-cases (ltb b.created_at a.created_at)) [
  | inl e ↦ inl (ground arith)
  | inr e ↦ inr (ground arith, str_leb-ComesFirst a.id b.id (ground arith))
]

Before-Precedes : (a : SnapshotInfo) (bs : List SnapshotInfo) → Before a bs → All (Precedes a) bs
Before-Precedes a [] h = tt
Before-Precedes a (b ∷ bs) h = (newest_first-Precedes a b h.0, Before-Precedes a bs h.1)

IsSorted-IsNewestFirst : (xs : List SnapshotInfo) → IsSorted xs → IsNewestFirst xs
IsSorted-IsNewestFirst [] h = tt
IsSorted-IsNewestFirst (x ∷ xs) h = (Before-Precedes x xs h.0, IsSorted-IsNewestFirst xs h.1)

-- What stands in a list, and which ids stand in it.
abbrev pub IsIn : SnapshotInfo → List SnapshotInfo → Type 0
IsIn x [] = ⊥
IsIn x (y ∷ ys) = (x ≡ y) ⊎ IsIn x ys

abbrev pub HasId : String → List SnapshotInfo → Type 0
HasId id ys = (y : SnapshotInfo) × IsIn y ys × (y.id ≡ id)

insert_by-IsIn :
    (z x : SnapshotInfo) (ys : List SnapshotInfo)
    → IsIn z (insert_by newest_first x ys) ↔ ((z ≡ x) ⊎ IsIn z ys)
unfolding insert_by
insert_by-IsIn z x [] = (λ h. h, λ h. h)
insert_by-IsIn z x (y ∷ ys) =
    let (to, from) = insert_by-IsIn z x ys in
    elim (Bool-cases (newest_first x y)) [
      | inl e ↦ rw e (λ h. h, λ h. h)
      | inr e ↦ rw e (
        λ h. elim h [
          | inl same ↦ inr (inl same)
          | inr later ↦ elim (to later) [ inl same ↦ inl same | inr old ↦ inr (inr old) ]
        ],
        λ h. elim h [
          | inl same ↦ inr (from (inl same))
          | inr old ↦ elim old [ inl same ↦ inl same | inr later ↦ inr (from (inr later)) ]
        ],
      )
    ]

sort_by-IsIn :
    (z : SnapshotInfo) (xs : List SnapshotInfo) → IsIn z (sort_by newest_first xs) ↔ IsIn z xs
unfolding sort_by
sort_by-IsIn z [] = (λ h. h, λ h. h)
sort_by-IsIn z (x ∷ xs) =
    let (to, from) = insert_by-IsIn z x (sort_by newest_first xs) in
    let (to', from') = sort_by-IsIn z xs in
    (
      λ h. elim (to h) [ inl same ↦ inl same | inr later ↦ inr (to' later) ],
      λ h. from (elim h [ inl same ↦ inl same | inr later ↦ inr (from' later) ]),
    )

dedup_after-IsIn :
    (z last : SnapshotInfo) (ys : List SnapshotInfo)
    → IsIn z (dedup_after same_id last ys)
    → IsIn z ys
unfolding dedup_after
dedup_after-IsIn z last [] = λ h. h
dedup_after-IsIn z last (y ∷ ys) = elim (Bool-cases (same_id y last)) [
  | inl e ↦ rw (dedup_after, e) (λ h. inr (dedup_after-IsIn z last ys h))
  | inr e ↦
      rw (dedup_after, e)
        (λ h. elim h [ inl same ↦ inl same | inr later ↦ inr (dedup_after-IsIn z y ys later) ])
]

dedup_by-IsIn :
    (z : SnapshotInfo) (xs : List SnapshotInfo) → IsIn z (dedup_by same_id xs) → IsIn z xs
unfolding dedup_by
dedup_by-IsIn z [] h = h
dedup_by-IsIn z (x ∷ xs) h = elim h [
  | inl same ↦ inl same
  | inr later ↦ inr (dedup_after-IsIn z x xs later)
]

HasId-later :
    (id : String) (y : SnapshotInfo) (ys : List SnapshotInfo) → HasId id ys → HasId id (y ∷ ys)
HasId-later id y ys (x, there, same) = (x, inr there, same)

HasId-dedup_after :
    (z last : SnapshotInfo) (ys : List SnapshotInfo)
    → IsIn z ys
    → HasId z.id (last ∷ dedup_after same_id last ys)
unfolding dedup_after
HasId-dedup_after z last [] h = absurd h
HasId-dedup_after z last (y ∷ ys) h = elim (Bool-cases (same_id y last)) [
  | inl e ↦
      rw (dedup_after, e)
        (elim h [
          | inl same ↦ (
            last,
            inl refl,
            sym ((eq_iff y.id last.id).0 e) ∙ ap (λ (s : SnapshotInfo). s.id) (sym same),
          )
          | inr later ↦ HasId-dedup_after z last ys later
        ])
  | inr e ↦
      rw (dedup_after, e)
        (elim h [
          | inl same ↦ (y, inr (inl refl), ap (λ (s : SnapshotInfo). s.id) (sym same))
          | inr later ↦
              HasId-later z.id last (y ∷ dedup_after same_id y ys) (HasId-dedup_after z y ys later)
        ])
]

HasId-dedup_by :
    (z : SnapshotInfo) (xs : List SnapshotInfo) → IsIn z xs → HasId z.id (dedup_by same_id xs)
unfolding dedup_by
HasId-dedup_by z [] h = absurd h
HasId-dedup_by z (x ∷ xs) h = elim h [
  | inl same ↦ (x, inl refl, ap (λ (s : SnapshotInfo). s.id) (sym same))
  | inr later ↦ HasId-dedup_after z x xs later
]

-- What is listed of the snapshots that were read.
pub record IsListing (all infos : List SnapshotInfo) : Type 0 where
  pub sorted : IsNewestFirst infos
  pub apart : IsApart infos
  pub sound : (x : SnapshotInfo) → IsIn x infos → IsIn x all
  pub complete : (x : SnapshotInfo) → IsIn x all → HasId x.id infos

listing_lem :
    (all : List SnapshotInfo) → IsListing all (dedup_by same_id (sort_by newest_first all))
listing_lem all =
    let sorted = sort_by newest_first all in
    let (s, a) = dedup_by_lem sorted (sort_by-IsSorted all) in
    record {
      sorted = IsSorted-IsNewestFirst (dedup_by same_id sorted) s;
      apart = a;
      sound = λ x h. (sort_by-IsIn x all).0 (dedup_by-IsIn x sorted h);
      complete = λ x h. HasId-dedup_by x sorted ((sort_by-IsIn x all).1 h);
    }

module _ (E : Encoding) (trim : String → String) where
  abbrev IsListed : Disk → List String → Result (List SnapshotInfo) → Type 0
  IsListed d ids (err e) = Unit
  IsListed d ids (ok infos) =
      (all : List SnapshotInfo) × AreRead E trim d ids all × IsListing all infos

  IsListed-at_end :
      (d : Disk) (ids : List String) (r : Result (List SnapshotInfo) × Disk)
      → ((all : List SnapshotInfo) → r.0 ≡ ok all → AreRead E trim d ids all)
      → IsListed d ids
          (resume r.0
            (λ (snapshots : List SnapshotInfo).
              pure (dedup_by same_id (sort_by newest_first snapshots)))
            r.1).0
  IsListed-at_end d ids (err e, d') h = tt
  IsListed-at_end d ids (ok all, d') h = (all, h all refl, listing_lem all)

  abbrev IsFound : (r : Result (List String) × Disk) → Result (List SnapshotInfo) → Type 0
  IsFound r (err e) = Unit
  IsFound r (ok infos) =
      (ids : List String) × (d : Disk) × (r ≡ (ok ids, d))
      × ((all : List SnapshotInfo) × AreRead E trim d ids all × IsListing all infos)

  IsFound-of_listed :
      (ids : List String) (d : Disk) (r : Result (List SnapshotInfo))
      → IsListed d ids r
      → IsFound (ok ids, d) r
  IsFound-of_listed ids d (err e) h = tt
  IsFound-of_listed ids d (ok infos) h = (ids, d, refl, h)

  IsFound-after_ids :
      (r : Result (List String) × Disk)
      → IsFound r
          (resume r.0
            (λ (ids : List String). do
              snapshots ← get_all E trim ids
              pure (dedup_by same_id (sort_by newest_first snapshots)))
            r.1).0
  IsFound-after_ids (err e, d) = tt
  IsFound-after_ids (ok ids, d) =
      IsFound-of_listed ids d _
        (IsListed-at_end d ids (get_all E trim ids d) (λ all h. get_all-AreRead E trim ids d h))

  -- If `list_snapshots` succeeds, it has read the metadata of each id that it looked up for the tags
  -- or among the files, from the files that were there after the look-up. What it returns is among
  -- these metadata, and holds every id of theirs; the newest snapshot comes first, in the order of the
  -- ids where the times are equal, and no two neighbours have one id.
  pub list_snapshots-IsListing :
      (tags : Option (List String)) (d : Disk) {infos : List SnapshotInfo}
      → (list_snapshots E trim tags d).0 ≡ ok infos
      → (ids : List String) × (d' : Disk) × (ids_for E trim tags d ≡ (ok ids, d'))
        × ((all : List SnapshotInfo) × AreRead E trim d' ids all × IsListing all infos)
  unfolding list_snapshots
  list_snapshots-IsListing tags d h =
      subst (IsFound (ids_for E trim tags d)) h (IsFound-after_ids (ids_for E trim tags d))
