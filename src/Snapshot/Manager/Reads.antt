-- ===== src/Snapshot/Manager/Reads.antt =====
-- What `get_all` reads for a list of ids, and that reading changes no file.
use sand_d.Prelude.{String, List, [], ◌∷◌, ◌≡◌, refl, subst, ◌∙◌, arith, inl, inr}
use sand_d.Protocol.{SnapshotInfo}
use sand_d.Snapshot.Types.{Result, Result-cases, ok, err, Encoding, snapshot_not_found}
use sand_d.Snapshot.Disk.{Disk, read_text, snapshot_files, resume, pure}
use sand_d.Snapshot.Keeps.{Frames, bind-Frames}
use sand_d.Snapshot.Manager.{load, get_snapshot, get_all, json_name}

-- The same list of snapshots is there.
read_text-Frames :
    (id : String) → Frames (read_text (snapshot_not_found id) snapshot_files (json_name id))
unfolding read_text
read_text-Frames id d = ground arith

module _ (E : Encoding) (trim : String → String) where
  get_snapshot-Frames : (id : String) → Frames (get_snapshot E trim id)
  unfolding get_snapshot load
  get_snapshot-Frames id =
      bind-Frames (load E trim id) _
        (bind-Frames (read_text _ snapshot_files (json_name id)) _ (read_text-Frames id)
          (λ json d. refl))
        (λ snapshot d. refl)

  -- The metadata of the id, as the disk `d` has it; the read can come later, with the same files.
  abbrev pub IsRead : Disk → String → SnapshotInfo → Type 0
  IsRead d id info =
      (d' : Disk) × (d'.snapshots ≡ d.snapshots) × ((get_snapshot E trim id d').0 ≡ ok info)

  -- One snapshot for each id.
  abbrev pub AreRead : Disk → List String → List SnapshotInfo → Type 0
  AreRead d [] [] = Unit
  AreRead d (id ∷ ids) (info ∷ infos) = IsRead d id info × AreRead d ids infos
  AreRead d _ _ = ⊥

  AreRead-same :
      (d d' : Disk) (ids : List String) (infos : List SnapshotInfo)
      → d'.snapshots ≡ d.snapshots
      → AreRead d' ids infos
      → AreRead d ids infos
  AreRead-same d d' [] [] e h = tt
  AreRead-same d d' [] (i ∷ is) e h = h
  AreRead-same d d' (id ∷ ids) [] e h = h
  AreRead-same d d' (id ∷ ids) (i ∷ is) e ((u, same, read), h) =
      ((u, same ∙ e, read), AreRead-same d d' ids is e h)

  abbrev ReadsTo : Disk → List String → Result (List SnapshotInfo) → Type 0
  ReadsTo d ids (err e) = Unit
  ReadsTo d ids (ok infos) = AreRead d ids infos

  ReadsTo-cons :
      (d : Disk) (id : String) (ids : List String) (info : SnapshotInfo)
      (r : Result (List SnapshotInfo) × Disk)
      → IsRead d id info
      → ReadsTo d ids r.0
      → ReadsTo d (id ∷ ids) (resume r.0 (λ (infos : List SnapshotInfo). pure (info ∷ infos)) r.1).0
  ReadsTo-cons d id ids info (err e, d') i h = tt
  ReadsTo-cons d id ids info (ok infos, d') i h = (i, h)

  ReadsTo-same :
      (d d' : Disk) (ids : List String) (r : Result (List SnapshotInfo))
      → d'.snapshots ≡ d.snapshots
      → ReadsTo d' ids r
      → ReadsTo d ids r
  ReadsTo-same d d' ids (err e) s h = tt
  ReadsTo-same d d' ids (ok infos) s h = AreRead-same d d' ids infos s h

  get_all-ReadsTo : (ids : List String) (d : Disk) → ReadsTo d ids (get_all E trim ids d).0
  unfolding get_all
  get_all-ReadsTo [] d = tt
  get_all-ReadsTo (id ∷ ids) d = elim (Result-cases (get_snapshot E trim id d).0) [
    | inl (e, r) ↦ rw (get_all, r) tt
    | inr (info, r) ↦
        (let d' = (get_snapshot E trim id d).1 in
          rw (get_all, r)
            (ReadsTo-cons d id ids info (get_all E trim ids d') (d, refl, r)
              (ReadsTo-same d d' ids (get_all E trim ids d').0 (get_snapshot-Frames id d)
                (get_all-ReadsTo ids d'))))
  ]

  pub get_all-AreRead :
      (ids : List String) (d : Disk) {infos : List SnapshotInfo}
      → (get_all E trim ids d).0 ≡ ok infos
      → AreRead d ids infos
  get_all-AreRead ids d h = subst (ReadsTo d ids) h (get_all-ReadsTo ids d)
