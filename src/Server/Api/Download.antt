-- ===== src/Server/Api/Download.antt =====
-- `download_file` with the daemon's own handler at the other end.
use sand_d.Prelude.{
  ℕ, ◌*◌, ◌+◌, String, Bool, true, false, Option, none, some, List, [], ◌∷◌, ◌++◌, ◌≡◌, refl, sym,
  ap, ◌∙◌, Bytes, All, flatten, flatten-append, length, leb, append-nil,
}
use sand_d.Protocol.{Message}
use sand_d.Server.Connection.{DaemonConnection}
use sand_d.Server.Handler.Laws.{IsReachable}
use sand_d.Server.Api.{returned, Controller}
use sand_d.Server.Api.Files.{download_file}
use sand_d.Server.Api.EndToEnd.{daemon_side}
use sand_d.Server.Api.Transfers.{IsPiece, chunk, failure, download_file-pieces}
use sand_d.Snapshot.Types.{SnapshotError, Encoding}
use sand_d.Snapshot.ObjectStore.{Blake3}
use sand_d.Snapshot.Workspace.{Meta}
use sand_d.Daemon.Download.{chunk_size, chunks, chunk_messages, download}
use sand_d.Daemon.Download.Laws.{payloads, payloads-append}
use sand_d.Daemon.Messages.{Daemon, Environment, Handled, handle_message, respond_all, send_all}
use sand_d.Daemon.Messages.Invariant.{send_all-prefix, handle_message-download}

chunk_messages-pieces :
    (request_id : String) (size total i : ℕ) (cs : List Bytes)
    → All (IsPiece request_id) (chunk_messages request_id size total i cs)
unfolding chunk_messages
chunk_messages-pieces request_id size total i [] = tt
chunk_messages-pieces request_id size total i (c ∷ cs) = (
  chunk c (i * size) (leb total ((i + 1) * size)),
  chunk_messages-pieces request_id size total (i + 1) cs,
)

download-pieces :
    (size : ℕ) (request_id error : String) (content : Option Bytes)
    → All (IsPiece request_id) (download size request_id error content)
unfolding download
download-pieces size request_id error none = (failure error, tt)
download-pieces size request_id error (some content) =
    chunk_messages-pieces request_id size (length content) 0 (chunks size (length content) content)

All-first : (P : Message → Type 0) (xs ys : List Message) → All P (xs ++ ys) → All P xs
All-first P [] ys h = tt
All-first P (x ∷ xs) ys h = (h.0, All-first P xs ys h.1)

append-empty : (xs ys : Bytes) → xs ++ ys ≡ [] → xs ≡ []
append-empty [] ys e = refl
append-empty (x ∷ xs) ys e = absurd (cc)

module _ (to_string : Message → Option String) (show : SnapshotError → String) (E : Encoding)
    (trim : String → String) (B : Blake3) (reads : Bytes → List Bytes)
    (target_is_dir : String → String → Bool) (fresh : Meta) (fuel : ℕ) where
  abbrev pub served : Environment → Daemon → Message → Handled
  served env d m = handle_message to_string show E trim B reads target_is_dir fresh fuel env m d

  written-pieces :
      (env : Environment) (d : Daemon) (request_id path : String)
      → All
          (IsPiece request_id)
          (served env d (Message.file_download_start request_id path)).written
  unfolding handle_message respond_all
  written-pieces env d request_id path =
      let ms = download chunk_size request_id env.read_error env.content in
      let (rest, parts, _) = send_all-prefix to_string ms env.sends in
      All-first (IsPiece request_id) (send_all to_string ms env.sends).0 rest
        (rw parts (download-pieces chunk_size request_id env.read_error env.content))

  unreadable :
      (env : Environment) (d : Daemon) (request_id path : String)
      → env.content ≡ none
      → flatten (payloads (served env d (Message.file_download_start request_id path)).written) ≡ []
  unfolding handle_message respond_all download
  unreadable env d request_id path e =
      let ms = download chunk_size request_id env.read_error env.content in
      let (rest, parts, _) = send_all-prefix to_string ms env.sends in
      let written = (send_all to_string ms env.sends).0 in
      append-empty (flatten (payloads written)) (flatten (payloads rest)) (
        sym (flatten-append (payloads written) (payloads rest))
        ∙ ap flatten (sym (payloads-append written rest) ∙ ap payloads parts)
        ∙ ap (λ c. flatten (payloads (download chunk_size request_id env.read_error c))) e)

  -- With the daemon reachable and its channel open, `download_file` always returns bytes. They are a
  -- first part of the file, and the whole of it if the daemon sent all of it in time; if the daemon
  -- could not read the file, they are no bytes, and no error is raised.
  pub download_file-first_part :
      (env : Environment) (d : Daemon) (now : ℕ) (id path request_id : String) (tx : ℕ)
      (s : Controller) {arc : ℕ} {c : DaemonConnection}
      → IsReachable s.world id arc c
      → s.is_closed c.request_tx ≡ false
      → let got =
          (download_file id path request_id
            (daemon_side (λ m. (served env d m).written) now id c.request_tx tx)
            s).0 in
        ((content : Bytes)
          → env.content ≡ some content
          → (first : Bytes) × (rest : Bytes) × (got ≡ returned first)
            × (first ++ rest ≡ content)
            × ((served env d (Message.file_download_start request_id path)).finished ≡ true
                → got ≡ returned content))
        × (env.content ≡ none → got ≡ returned [])
  download_file-first_part env d now id path request_id tx s {arc} {c} reach opened =
      let m = Message.file_download_start request_id path in
      let base =
        download_file-pieces (λ m. (served env d m).written) now id path request_id tx s reach
          opened (written-pieces env d request_id path) in
      (
        λ content e.
            let (rest, parts, whole) =
              handle_message-download to_string show E trim B reads target_is_dir fresh fuel env
                request_id path content d e in
            let first = flatten (payloads (served env d m).written) in
            (
              first,
              rest,
              base,
              parts,
              λ f.
                  base
                  ∙ ap returned
                      (sym (append-nil first) ∙ ap (λ r. first ++ r) (sym (whole f)) ∙ parts),
            ),
        λ e. base ∙ ap returned (unreadable env d request_id path e),
      )
