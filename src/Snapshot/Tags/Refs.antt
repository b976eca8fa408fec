-- ===== src/Snapshot/Tags/Refs.antt =====
-- What `add_tag` does to the files under refs/tags.
use sand_d.Prelude.{
  ◌⊎◌, String, none, some, List, [], ◌∷◌, ◌≡◌, ◌≢◌, refl, sym, subst, ◌∙◌, inl, inr,
}
use sand_d.Prelude.Dict.{
  Dict, lookup, insert, remove, lookup-insert_self, lookup-insert_ne, lookup-remove_self,
  lookup-remove_ne,
}
use sand_d.Prelude.Text.{with_tmp}
use sand_d.Snapshot.Types.{Result, ok, err, io}
use sand_d.Snapshot.Disk.{Disk, Fault, passes, fails, write_text, rename_text}
use sand_d.Snapshot.Tags.{add_tag, get_snapshot_by_tag}

-- What is left of the tags: the temporary file is written and then renamed.
abbrev pub tags_after : (snapshot_id tag : String) → Dict String → Dict String
tags_after snapshot_id tag tags =
    insert tag snapshot_id (remove (with_tmp tag) (insert (with_tmp tag) snapshot_id tags))

add_tag_at_end :
    (snapshot_id tag : String) (d : Disk)
    → add_tag snapshot_id tag (record d { faults = [] })
      ≡ (ok tt, record d { tags = tags_after snapshot_id tag d.tags; faults = [] })
unfolding add_tag write_text rename_text
add_tag_at_end snapshot_id tag d = rw (lookup-insert_self (with_tmp tag) snapshot_id d.tags) refl

pub add_tag_calm :
    (snapshot_id tag : String) (d : Disk)
    → d.faults ≡ []
    → add_tag snapshot_id tag d ≡ (ok tt, record d { tags = tags_after snapshot_id tag d.tags })
add_tag_calm snapshot_id tag d calm =
    subst
      (λ fs.
        add_tag snapshot_id tag (record d { faults = fs })
        ≡ (ok tt, record d { tags = tags_after snapshot_id tag d.tags; faults = fs }))
      (sym calm) (add_tag_at_end snapshot_id tag d)

untouched :
    (snapshot_id tag : String) (tags : Dict String) (u : String)
    → u ≢ tag
    → u ≢ with_tmp tag
    → lookup u (tags_after snapshot_id tag tags) ≡ lookup u tags
untouched snapshot_id tag tags u h h' =
    lookup-insert_ne tag u snapshot_id _ (λ e. h (sym e))
    ∙ lookup-remove_ne (with_tmp tag) u _ (λ e. h' (sym e))
    ∙ lookup-insert_ne (with_tmp tag) u snapshot_id tags (λ e. h' (sym e))

abbrev IsAllOrNothing : (snapshot_id tag : String) → Disk → Result (Unit {0}) × Disk → Type 0
IsAllOrNothing snapshot_id tag d r =
    ((r.0 ≡ err io) × (lookup tag r.1.tags ≡ lookup tag d.tags))
    ⊎ ((r.0 ≡ ok tt) × (lookup tag r.1.tags ≡ some snapshot_id))

add_tag_on :
    (fs : List Fault) (snapshot_id tag : String) (d : Disk)
    → tag ≢ with_tmp tag
    → IsAllOrNothing snapshot_id tag d (add_tag snapshot_id tag (record d { faults = fs }))
unfolding add_tag write_text rename_text
add_tag_on [] snapshot_id tag d apart =
    rw (lookup-insert_self (with_tmp tag) snapshot_id d.tags)
      (inr (refl, lookup-insert_self tag snapshot_id _))
add_tag_on (passes ∷ []) snapshot_id tag d apart =
    rw (lookup-insert_self (with_tmp tag) snapshot_id d.tags)
      (inr (refl, lookup-insert_self tag snapshot_id _))
add_tag_on (passes ∷ passes ∷ fs) snapshot_id tag d apart =
    rw (lookup-insert_self (with_tmp tag) snapshot_id d.tags)
      (inr (refl, lookup-insert_self tag snapshot_id _))
add_tag_on (passes ∷ fails _ _ ∷ fs) snapshot_id tag d apart =
    inl (refl, lookup-insert_ne (with_tmp tag) tag snapshot_id d.tags (λ e. apart (sym e)))
add_tag_on (fails _ left ∷ fs) snapshot_id tag d apart =
    inl (refl, lookup-insert_ne (with_tmp tag) tag left d.tags (λ e. apart (sym e)))

-- With no failures ahead `add_tag` succeeds. The tag then names the snapshot; no other tag
-- changes, except that the file with the temporary name is gone if it is another one.
pub add_tag_effect :
    (snapshot_id tag : String) (d : Disk)
    → d.faults ≡ []
    → let r = add_tag snapshot_id tag d in
      (r.0 ≡ ok tt)
      × (lookup tag r.1.tags ≡ some snapshot_id)
      × ((u : String) → u ≢ tag → u ≢ with_tmp tag → lookup u r.1.tags ≡ lookup u d.tags)
      × (tag ≢ with_tmp tag → lookup (with_tmp tag) r.1.tags ≡ none)
add_tag_effect snapshot_id tag d calm = rw (add_tag_calm snapshot_id tag d calm) (
  refl,
  lookup-insert_self tag snapshot_id _,
  untouched snapshot_id tag d.tags,
  λ apart.
      lookup-insert_ne tag (with_tmp tag) snapshot_id _ apart ∙ lookup-remove_self (with_tmp tag) _,
)

-- Whatever fails, the file of a tag is never half written: it is unchanged and `add_tag` fails, or
-- it names the snapshot and `add_tag` succeeds. This is for a tag that is not its own temporary
-- name.
pub add_tag_atomic :
    (snapshot_id tag : String) (d : Disk)
    → tag ≢ with_tmp tag
    → let r = add_tag snapshot_id tag d in
      ((r.0 ≡ err io) × (lookup tag r.1.tags ≡ lookup tag d.tags))
      ⊎ ((r.0 ≡ ok tt) × (lookup tag r.1.tags ≡ some snapshot_id))
add_tag_atomic snapshot_id tag d apart = add_tag_on d.faults snapshot_id tag d apart

-- With no failures ahead, adding a tag deletes the file of another tag that has the tag's stem and
-- the extension `tmp`, and the tag that was deleted is then found no more.
pub add_tag_destroys :
    (trim : String → String) (snapshot_id tag other : String) (d : Disk)
    → d.faults ≡ []
    → other ≡ with_tmp tag
    → tag ≢ other
    → let r = add_tag snapshot_id tag d in
      (r.0 ≡ ok tt) × (get_snapshot_by_tag trim other r.1 ≡ (ok none, r.1))
unfolding get_snapshot_by_tag
add_tag_destroys trim snapshot_id tag other d calm e apart =
    let (done, _, _, gone) = add_tag_effect snapshot_id tag d calm in
    (done, rw (e, gone (λ e'. apart (e' ∙ sym e))) refl)
