-- ===== src/Daemon/Messages/Lost.antt =====
-- The requests to create a snapshot that the daemon leaves without an answer.
use sand_d.Prelude.{ℕ, String, Bool, Option, List, [], ◌≡◌, ◌↔◌, inl, inr, refl, Bytes, arith}
use sand_d.Protocol.{Message}
use sand_d.Snapshot.Types.{Result, Result-cases, ok, err, SnapshotError, Encoding}
use sand_d.Snapshot.Disk.{Disk}
use sand_d.Snapshot.ObjectStore.{Blake3}
use sand_d.Snapshot.Workspace.{Meta}
use sand_d.Snapshot.Manager
use sand_d.Snapshot.Manager.{create_snapshot}
use sand_d.Daemon.Messages.{
  Daemon, Environment, answer_about, on_created, handle_snapshot, handle_message, respond_all,
  send_all,
}
use sand_d.Daemon.Messages.Answers.{to_string, answer_about-IsLost}

module _ (print : Message → String) (show : SnapshotError → String) (E : Encoding)
    (trim : String → String) where
  abbrev pub IsUnreadable : Result String × Disk → Type 0
  IsUnreadable r =
      (id : String) × (disk : Disk) × (e : SnapshotError) × (r ≡ (ok id, disk))
      × ((Manager.get_snapshot E trim id disk).0 ≡ err e)

  created_lost :
      (own id : String) (sends : List Bool) (d : Daemon) (disk : Disk)
      → sends ≡ []
      → (on_created (to_string print) show E trim own sends d (ok id, disk)).written ≡ []
      → (e : SnapshotError) × ((Manager.get_snapshot E trim id disk).0 ≡ err e)
  unfolding on_created answer_about respond_all send_all
  created_lost own id sends d disk s w =
      elim (Result-cases (Manager.get_snapshot E trim id disk).0) [
        | inl (e, r) ↦ (e, r)
        | inr (i, r) ↦ absurd (ground (arith, r, s))
      ]

  on_created_lost :
      (own : String) (sends : List Bool) (d : Daemon) (r : Result String × Disk)
      → sends ≡ []
      → ((on_created (to_string print) show E trim own sends d r).written ≡ []) ↔ IsUnreadable r
  unfolding on_created respond_all send_all
  on_created_lost own sends d (err x, disk) s =
      (λ w. absurd (ground (arith, s)), λ (_, _, _, e, _). absurd (cc))
  on_created_lost own sends d (ok id, disk) s = (
    λ w. let (e, r) = created_lost own id sends d disk s w in (id, disk, e, refl, r),
    λ (j, last, x, e, r).
        (answer_about-IsLost print show E trim id
          (λ i. Message.snapshot_created own id i.file_count i.total_size) sends
          (record d { disk = disk }) {e = x} (ground (arith, e, r))).0,
  )

  module _ (B : Blake3) (reads : Bytes → List Bytes) (target_is_dir : String → String → Bool)
      (fresh : Meta) (fuel : ℕ) where
    -- With the daemon's writes succeeding, a request to create a snapshot is left without an answer
    -- exactly if the snapshot was created and its metadata could then not be read.
    pub create_unanswered_iff :
        (env : Environment) (own path : String) (message : Option String)
        (tags : Option (List String)) (d : Daemon)
        → env.sends ≡ []
        → ((handle_message
              (to_string print)
              show
              E
              trim
              B
              reads
              target_is_dir
              fresh
              fuel
              env
              (Message.create_snapshot own path message tags)
              d).written
            ≡ [])
          ↔ IsUnreadable (
              create_snapshot B E reads target_is_dir fresh env.now env.fresh_id path env.workspace
                message tags d.disk)
    unfolding handle_message handle_snapshot
    create_unanswered_iff env own path message tags d s =
        on_created_lost own env.sends d
          (create_snapshot B E reads target_is_dir fresh env.now env.fresh_id path env.workspace
            message tags d.disk)
          s
