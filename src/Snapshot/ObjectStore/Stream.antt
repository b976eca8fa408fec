-- ===== src/Snapshot/ObjectStore/Stream.antt =====
-- `put_file` hashes a file piece by piece, and stores what `put_blob` would store of its content.
use sand_d.Prelude.{
  ◌≡◌, ◌≢◌, refl, sym, subst, ap, append-nil, append_assoc, String, List, [], ◌∷◌, ◌++◌, Bytes, All,
  flatten, some,
}
use sand_d.Snapshot.ObjectStore.{
  Blake3, feed, until_empty, put_file, put_blob, copy_as, store_as, copy_object, write_new,
  write_object,
}

until_empty-append :
    (pieces rest : List Bytes)
    → All (λ piece. piece ≢ []) pieces
    → until_empty (pieces ++ [] ∷ rest) ≡ pieces
until_empty-append [] rest h = refl
until_empty-append ([] ∷ pieces) rest h = absurd (h.0 refl)
until_empty-append ((b ∷ bs) ∷ pieces) rest h =
    ap (λ t. (b ∷ bs) ∷ t) (until_empty-append pieces rest h.1)

feed-HasTaken :
    (B : Blake3) (pieces : List Bytes) (h : B.Hasher) (taken : Bytes)
    → B.HasTaken h taken
    → B.HasTaken (feed B.update h pieces) (taken ++ flatten pieces)
feed-HasTaken B [] h taken t = subst (B.HasTaken h) (sym (append-nil taken)) t
feed-HasTaken B (p ∷ pieces) h taken t =
    subst (B.HasTaken (feed B.update (B.update h p) pieces)) (append_assoc taken p (flatten pieces))
      (feed-HasTaken B pieces (B.update h p) (taken ++ p) (B.update-HasTaken h taken p t))

-- The digest of a file that is hashed in pieces.
streaming :
    (B : Blake3) (pieces : List Bytes)
    → B.finalize (feed B.update B.new pieces) ≡ B.hash (flatten pieces)
streaming B pieces =
    B.digests (feed B.update B.new pieces) (flatten pieces)
      (feed-HasTaken B pieces B.new [] B.new-HasTaken)

-- A copy goes into the store by the steps of a write.
copy_as-store_as : (hash : String) (content : Bytes) → copy_as hash content ≡ store_as hash content
unfolding copy_as store_as copy_object write_new write_object
copy_as-store_as hash content = refl

-- If the reads of a file give non-empty pieces that make up its content, and then an empty one,
-- `put_file`, which hashes piece by piece and copies the file, returns and leaves what `put_blob` of
-- the content does, whatever the sizes of the pieces and whatever fails.
pub put_file-eq-put_blob :
    (B : Blake3) (content : Bytes) (pieces rest : List Bytes)
    → All (λ piece. piece ≢ []) pieces
    → flatten pieces ≡ content
    → put_file B (some (pieces ++ [] ∷ rest, content)) ≡ put_blob B content
unfolding put_file put_blob
put_file-eq-put_blob B content pieces rest full whole =
    rw (until_empty-append pieces rest full, streaming B pieces, whole)
      (copy_as-store_as (B.hash content) content)
