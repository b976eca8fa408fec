-- ===== src/Server/Api/Upload.antt =====
-- `upload_file`, and what the daemon makes of what it sends.
use sand_d.Prelude.{
  ℕ, zero, suc, ◌+◌, ◌*◌, ◌≤◌, ◌<◌, String, Bool, true, false, Option, none, List, [], ◌∷◌, ◌++◌,
  ◌≡◌, refl, sym, ap, ◌∙◌, Bytes, All, flatten, length, arith, append_assoc, append-nil,
}
use sand_d.Protocol.{Message}
use sand_d.Server.Connection.{DaemonConnection}
use sand_d.Server.Handler.Laws.{IsReachable}
use sand_d.Server.Api.{returned, Controller}
use sand_d.Server.Api.Files.{upload_chunks, send_chunks, upload_file}
use sand_d.Server.Api.EndToEnd.{find_conn-IsReachable, send_message-open, sent_on}
use sand_d.Snapshot.Types.{SnapshotError, Encoding}
use sand_d.Snapshot.ObjectStore.{Blake3}
use sand_d.Snapshot.Workspace.{Meta}
use sand_d.Daemon.Download.{chunk_size, chunks, take, drop}
use sand_d.Daemon.Download.Laws.{flatten-chunks, length-drop}
use sand_d.Daemon.Messages.{Daemon, Environment, handle_message, quiet}

-- Chunks of one upload, none longer than 64 KiB, each at the place where the bytes before it end.
abbrev pub IsChunked : (request_id : String) (place : ℕ) → List Message → Type 0
IsChunked request_id place [] = Unit
IsChunked request_id place (Message.file_upload_chunk own b offset ∷ ms) =
    (own ≡ request_id)
    × (offset ≡ place)
    × (length b ≤ 65536)
    × IsChunked request_id (place + length b) ms
IsChunked request_id place (_ ∷ ms) = ⊥

length-take : (n : ℕ) (xs : Bytes) → length (take n xs) + length (drop n xs) ≡ length xs
length-take zero xs = omega arith
length-take (suc n) [] = omega arith
length-take (suc n) (x ∷ xs) = omega (arith, length-take n xs)

take_short : (n : ℕ) (xs : Bytes) → length (take n xs) ≤ n
take_short zero xs = omega arith
take_short (suc n) [] = omega arith
take_short (suc n) (x ∷ xs) = omega (arith, take_short n xs)

upload_chunks-IsChunked :
    (request_id : String) (i place fuel : ℕ) (xs : Bytes)
    → (0 < length xs → i * chunk_size ≡ place)
    → IsChunked request_id place (upload_chunks request_id chunk_size i (chunks chunk_size fuel xs))
unfolding upload_chunks chunks
upload_chunks-IsChunked request_id i place zero xs e = tt
upload_chunks-IsChunked request_id i place (suc fuel) [] e = tt
upload_chunks-IsChunked request_id i place (suc fuel) (x ∷ xs) e =
    let first = take chunk_size (x ∷ xs) in
    let rest = drop chunk_size (x ∷ xs) in
    (
      refl,
      e (omega arith),
      take_short chunk_size (x ∷ xs),
      upload_chunks-IsChunked request_id (i + 1) (place + length first) fuel rest (λ more. omega (
        arith,
        e (omega arith),
        length-take chunk_size (x ∷ xs),
        length-drop chunk_size (x ∷ xs),
      )),
    )

-- Messages on one channel.
abbrev pub on_channel : ℕ → List Message → List (ℕ × Message)
on_channel channel [] = []
on_channel channel (m ∷ ms) = (channel, m) ∷ on_channel channel ms

-- The bytes of the chunks of an upload.
abbrev pub upload_payloads : List Message → List Bytes
upload_payloads [] = []
upload_payloads (Message.file_upload_chunk _ b _ ∷ ms) = b ∷ upload_payloads ms
upload_payloads (_ ∷ ms) = upload_payloads ms

upload_payloads-upload_chunks :
    (request_id : String) (size i : ℕ) (cs : List Bytes)
    → upload_payloads (upload_chunks request_id size i cs) ≡ cs
unfolding upload_chunks
upload_payloads-upload_chunks request_id size i [] = refl
upload_payloads-upload_chunks request_id size i (c ∷ cs) =
    ap (◌∷◌ c) (upload_payloads-upload_chunks request_id size (i + 1) cs)

send_chunks-open :
    (c : DaemonConnection) (ms : List Message) (s : Controller)
    → s.is_closed c.request_tx ≡ false
    → send_chunks c ms s
      ≡ (returned tt, record s { frames = s.frames ++ on_channel c.request_tx ms })
unfolding send_chunks
send_chunks-open c [] s opened =
    ap (λ fs. (returned tt, record s { frames = fs })) (sym (append-nil s.frames))
send_chunks-open c (m ∷ ms) s opened =
    rw (send_message-open c m s opened, send_chunks-open c ms (sent_on c.request_tx m s) opened)
      (ap (λ fs. (returned tt, record s { frames = fs }))
        (append_assoc s.frames ((c.request_tx, m) ∷ []) (on_channel c.request_tx ms)))

upload_sent :
    (id path request_id : String) (content : Bytes) (s : Controller) {arc : ℕ}
    {c : DaemonConnection}
    → IsReachable s.world id arc c
    → s.is_closed c.request_tx ≡ false
    → upload_file id path content request_id s ≡ (
      returned tt,
      record s {
        frames =
            s.frames
            ++ on_channel c.request_tx (
                Message.file_upload_start request_id path (length content) none
                ∷ upload_chunks request_id chunk_size 0
                    (chunks chunk_size (length content) content));
      },
    )
unfolding upload_file
upload_sent id path request_id content s {arc} {c} reach opened =
    let start = Message.file_upload_start request_id path (length content) none in
    let ms = upload_chunks request_id chunk_size 0 (chunks chunk_size (length content) content) in
    rw
      (
        upload_file,
        find_conn-IsReachable s id reach,
        send_message-open c start s opened,
        send_chunks-open c ms (sent_on c.request_tx start s) opened,
      )
      (ap (λ fs. (returned tt, record s { frames = fs }))
        (append_assoc s.frames ((c.request_tx, start) ∷ []) (on_channel c.request_tx ms)))

module _ (to_string : Message → Option String) (show : SnapshotError → String) (E : Encoding)
    (trim : String → String) (B : Blake3) (reads : Bytes → List Bytes)
    (target_is_dir : String → String → Bool) (fresh : Meta) (fuel : ℕ) where
  -- The daemon writes nothing on a message and keeps its state.
  abbrev pub IsIgnored : Message → Type 0
  IsIgnored m =
      (env : Environment) (d : Daemon)
      → handle_message to_string show E trim B reads target_is_dir fresh fuel env m d
        ≡ quiet to_string true d

  upload_chunks-IsIgnored :
      (request_id : String) (size i : ℕ) (cs : List Bytes)
      → All IsIgnored (upload_chunks request_id size i cs)
  unfolding upload_chunks handle_message
  upload_chunks-IsIgnored request_id size i [] = tt
  upload_chunks-IsIgnored request_id size i (c ∷ cs) =
      ((λ env d. refl), upload_chunks-IsIgnored request_id size (i + 1) cs)

  -- With the daemon reachable and its channel open, `upload_file` returns, after it has put on the
  -- daemon's channel the start with the path and the length of the file, and then chunks of at most
  -- 64 KiB that make up the file, each with its place in it; but the daemon ignores all of them, so
  -- that no file is written.
  pub upload_file-IsIgnored :
      (id path request_id : String) (content : Bytes) (s : Controller) {arc : ℕ}
      {c : DaemonConnection}
      → IsReachable s.world id arc c
      → s.is_closed c.request_tx ≡ false
      → let start = Message.file_upload_start request_id path (length content) none in
        (ms : List Message) × (upload_file id path content request_id s
          ≡ (returned tt, record s { frames = s.frames ++ on_channel c.request_tx (start ∷ ms) }))
        × IsChunked request_id 0 ms
        × (flatten (upload_payloads ms) ≡ content)
        × All IsIgnored (start ∷ ms)
  unfolding handle_message
  upload_file-IsIgnored id path request_id content s {arc} {c} reach opened =
      let pieces = chunks chunk_size (length content) content in
      (
        upload_chunks request_id chunk_size 0 pieces,
        upload_sent id path request_id content s reach opened,
        upload_chunks-IsChunked request_id 0 0 (length content) content (λ _. refl),
        ap flatten (upload_payloads-upload_chunks request_id chunk_size 0 pieces)
            ∙ flatten-chunks chunk_size (length content) content (omega arith) (omega arith),
        ((λ env d. refl), upload_chunks-IsIgnored request_id chunk_size 0 pieces),
      )
