-- ===== src/Server/Api/RoundTrip.antt =====
-- `create_snapshot` and `restore_snapshot` from Python, through the controller and the daemon.
use sand_d.Prelude.{
  ℕ, suc, ◌≤◌, String, Bool, false, Option, none, some, List, [], ◌∷◌, ◌≡◌, refl, ◌∙◌, Bytes, All,
  ap,
}
use sand_d.Prelude.Dict.{lookup}
use sand_d.Protocol.{Message, SnapshotInfo}
use sand_d.Server.Connection.{DaemonConnection}
use sand_d.Server.Handler.{response_id}
use sand_d.Server.Handler.Laws.{IsReachable}
use sand_d.Server.Api.{returned, Controller}
use sand_d.Server.Api.Snapshots.{create_snapshot, created_result, restore_snapshot, restored_result}
use sand_d.Server.Api.EndToEnd.{first_on, daemon_side, IsServed, request-answered}
use sand_d.Server.Api.Calls.{handled}
use sand_d.Server.Api.Queries.{writes}
use sand_d.Snapshot.Types.{ok, SnapshotError, Encoding, serialize_time}
use sand_d.Snapshot.Disk.{Disk}
use sand_d.Snapshot.ObjectStore.{Blake3}
use sand_d.Snapshot.ObjectStore.Safety.{CollisionFree}
use sand_d.Snapshot.Tags.Names.{IsTagName}
use sand_d.Snapshot.Workspace.{Meta, Node, dir}
use sand_d.Snapshot.Restore.Run.{IsGood, Later-refl}
use sand_d.Snapshot.Restore.Spec.{kept_entries, depth_entries, AreProper}
use sand_d.Snapshot.Restore.RoundTrip.{IsReader}
use sand_d.Snapshot.Manager
use sand_d.Snapshot.Manager.{unique, or_default}
use sand_d.Snapshot.Manager.Calm.{get_snapshot_calm, get_snapshot-restore_snapshot}
use sand_d.Snapshot.Manager.RoundTrip.{restore_snapshot-create_snapshot}
use sand_d.Daemon.Messages.{
  Daemon, Environment, Handled, answer_about, on_created, on_restored, respond_all, send_all,
  handle_message, handle_snapshot,
}

module _ (print : Message → String) (show : SnapshotError → String) (E : Encoding)
    (trim : String → String) (B : Blake3) (reads : Bytes → List Bytes)
    (target_is_dir : String → String → Bool) (fresh : Meta) (fuel : ℕ) where
  abbrev json : Message → Option String
  json m = some (print m)

  answer_about-found :
      (id : String) (reply : SnapshotInfo → Message) (sends : List Bool) (d : Daemon)
      {info : SnapshotInfo}
      → sends ≡ []
      → (Manager.get_snapshot E trim id d.disk).0 ≡ ok info
      → d.disk.faults ≡ []
      → let h = answer_about json show E trim id reply sends d in
        (h.written ≡ reply info ∷ []) × (h.daemon ≡ d)
  unfolding answer_about respond_all send_all
  answer_about-found id reply sends d calm r still = (
    rw (answer_about, r, calm) refl,
    rw (answer_about, r)
        (ap (λ disk. record d { disk = disk }) (get_snapshot_calm E trim id d.disk still)),
  )

  -- What the daemon makes of a request to create a snapshot that it then finds.
  created_written :
      (env : Environment) (d : Daemon) (own path : String) (message : Option String)
      (tags : Option (List String)) (last : Disk) {info : SnapshotInfo}
      → env.sends ≡ []
      → Manager.create_snapshot B E reads target_is_dir fresh env.now env.fresh_id path
          env.workspace message tags d.disk
        ≡ (ok env.fresh_id, last)
      → (Manager.get_snapshot E trim env.fresh_id last).0 ≡ ok info
      → last.faults ≡ []
      → let h =
          handled print show E trim B reads target_is_dir fresh fuel env d
            (Message.create_snapshot own path message tags) in
        (h.written ≡ Message.snapshot_created own env.fresh_id info.file_count info.total_size ∷ [])
        × (h.daemon ≡ record d { disk = last })
  unfolding handle_message handle_snapshot on_created
  created_written env d own path message tags last calm e r still = rw e (
      answer_about-found env.fresh_id
        (λ s. Message.snapshot_created own env.fresh_id s.file_count s.total_size) env.sends
        (record d { disk = last }) calm r still)

  restored_written :
      (env : Environment) (d : Daemon) (own id dest : String) {node : Node} {info : SnapshotInfo}
      → env.sends ≡ []
      → Manager.restore_snapshot B E reads target_is_dir fresh trim fuel id dest env.there d.disk
        ≡ (ok node, d.disk)
      → (Manager.get_snapshot E trim id d.disk).0 ≡ ok info
      → d.disk.faults ≡ []
      → let h =
          handled print show E trim B reads target_is_dir fresh fuel env d
            (Message.restore_snapshot own id dest) in
        (h.written ≡ Message.snapshot_restored own info.file_count ∷ []) × (h.restored ≡ some node)
  unfolding handle_message handle_snapshot on_restored
  restored_written env d own id dest calm e r still = rw e (
    (answer_about-found id (λ s. Message.snapshot_restored own s.file_count) env.sends d calm r
        still).0,
    refl,
  )

-- A caller at the controller whose request can reach the daemon `id` and be answered on `tx`.
pub record CanAsk (s : Controller) (id : String) (arc tx : ℕ) (c : DaemonConnection) : Type 0 where
  pub reach : IsReachable s.world id arc c
  pub opened : s.is_closed c.request_tx ≡ false
  pub unused : first_on tx s.world.delivered ≡ none

module _ (print : Message → String) (show : SnapshotError → String) (E : Encoding)
    (trim : String → String) (B : Blake3) (reads : Bytes → List Bytes)
    (target_is_dir : String → String → Bool) (fresh : Meta) (fuel : ℕ) where
  abbrev pub answers : Environment → Daemon → Message → List Message
  answers env d m = writes print show E trim B reads target_is_dir fresh (suc fuel) env d m

  abbrev pub after_message : Environment → Daemon → Message → Handled
  after_message env d m = handled print show E trim B reads target_is_dir fresh (suc fuel) env d m

  -- For a digest without collisions and reads that make up each file: if the daemon's disk has no
  -- failures ahead and its objects are addressed by their hashes, the workspace has no name twice
  -- and no time before the epoch, the clock is not before the epoch, the tags are accepted and
  -- free, both ends can reach each other and answers come in time, and the directories are nested no
  -- deeper than the fuel,
  -- then `create_snapshot` returns the id of the new snapshot, `restore_snapshot` of that id
  -- returns a number of files, and where nothing stood the daemon has then put what a snapshot
  -- keeps of the workspace.
  pub snapshot_round_trip :
      CollisionFree B
      → IsReader reads
      → (env env' : Environment) (d : Daemon) (secs now now' : ℕ) (id path dest own own' : String)
        (message : Option String) (tags : Option (List String)) (tx tx' : ℕ) (s s' : Controller)
        {arc arc' : ℕ} {c c' : DaemonConnection}
      → IsGood B d.disk
      → AreProper [] env.workspace
      → serialize_time env.now ≡ some secs
      → All IsTagName (unique (or_default tags))
      → All (λ tag. lookup tag d.disk.tags ≡ none) (unique (or_default tags))
      → (env.sends ≡ []) × (env'.sends ≡ []) × (env'.there ≡ none)
      → depth_entries env.workspace ≤ fuel
      → CanAsk s id arc tx c
      → CanAsk s' id arc' tx' c'
      → let d' = (after_message env d (Message.create_snapshot own path message tags)).daemon in
        IsServed (answers env d) now id own arc (returned env.fresh_id) (
          create_snapshot id path message tags own tx
            (daemon_side (answers env d) now id c.request_tx tx)
            s)
        × ((count : ℕ) × IsServed (answers env' d') now' id own' arc' (returned count) (
              restore_snapshot id env.fresh_id dest own' tx'
                (daemon_side (answers env' d') now' id c'.request_tx tx')
                s'))
        × ((after_message env' d' (Message.restore_snapshot own' env.fresh_id dest)).restored
            ≡ some (dir fresh 0 (kept_entries fresh env.workspace)))
  unfolding create_snapshot created_result restore_snapshot restored_result response_id
  snapshot_round_trip free reader env env' d secs now now' id path dest own own' message tags tx tx'
        s s' {arc} {arc'} {c} {c'} g proper timed valid unused (calm, calm', empty) deep ask ask' =
      let (last, made, later, restores) =
        restore_snapshot-create_snapshot B E reads target_is_dir fresh free reader trim env.now secs
          env.fresh_id path env.workspace message tags d.disk g proper timed valid unused in
      let restored = restores dest last (Later-refl B last later.good) refl fuel deep in
      let (info, readable) =
        get_snapshot-restore_snapshot B E reads target_is_dir fresh trim (suc fuel) env.fresh_id
          dest none last (ap (λ r. r.0) restored) in
      let still = later.good.calm in
      let (wrote, state) =
        created_written print show E trim B reads target_is_dir fresh (suc fuel) env d own path
          message tags last calm made readable still in
      let d' : Daemon = record d { disk = last } in
      let (wrote', node) =
        restored_written print show E trim B reads target_is_dir fresh (suc fuel) env' d' own'
          env.fresh_id dest calm'
          (ap
              (λ o.
                Manager.restore_snapshot B E reads target_is_dir fresh trim (suc fuel) env.fresh_id
                  dest o last)
              empty
            ∙ restored)
          readable still in
      rw state (
        request-answered (answers env d) now id own tx 300 "Failed to send snapshot request: "
            (Message.create_snapshot own path message tags)
            (Message.snapshot_created own env.fresh_id info.file_count info.total_size)
            created_result s ask.reach ask.opened ask.unused wrote refl,
        (
          info.file_count,
          request-answered (answers env' d') now' id own' tx' 300 "Failed to send restore request: "
              (Message.restore_snapshot own' env.fresh_id dest)
              (Message.snapshot_restored own' info.file_count) restored_result s' ask'.reach
              ask'.opened ask'.unused wrote' refl,
        ),
        node,
      )
