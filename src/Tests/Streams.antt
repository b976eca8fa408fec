-- ===== src/Tests/Streams.antt =====
-- The theorems of sessions, files and listings at a reachable daemon.
use sand_d.Prelude.{
  String, true, Option, none, some, List, [], ◌∷◌, ◌++◌, ◌≡◌, ◌≢◌, ◌↔◌, refl, Bytes, All, flatten,
  map,
}
use sand_d.Prelude.Dict.{lookup}
use sand_d.Protocol.{Message}
use sand_d.Server.Connection
use sand_d.Server.Connection.{DaemonConnection}
use sand_d.Server.Registry
use sand_d.Server.Registry.{list_all}
use sand_d.Server.Handler.{World, receive_all}
use sand_d.Server.Handler.Laws.{IsReachable}
use sand_d.Server.Api.{PyResult, returned, Controller}
use sand_d.Server.Api.EndToEnd.{daemon_side}
use sand_d.Server.Api.Files.{upload_file, download_file}
use sand_d.Server.Api.Sessions.{Session, write, new_session}
use sand_d.Server.Api.Daemons.{list_daemons}
use sand_d.Server.Api.Download.{served, download_file-first_part}
use sand_d.Server.Api.Upload.{
  on_channel, upload_payloads, IsIgnored, IsChunked, upload_file-IsIgnored,
}
use sand_d.Server.Api.Terminal.{session_of, handles_newest, new_session-write}
use sand_d.Server.Api.Listing.{IsTrue, list_daemons-list_all}
use sand_d.Daemon.Sessions
use sand_d.Daemon.Sessions.{done, Done, SessionManager, no_sessions, read_loop, send_input}
use sand_d.Daemon.Sessions.Laws.{IsOpening, new_session_iff}
use sand_d.Daemon.Sessions.Stream.{whole_run, read_loop-outputs}
use sand_d.Daemon.Messages.{Handled, handle_message}
use sand_d.Daemon.Messages.Invariant.{leaves_sessions, handle_message-sessions}
use sand_d.Tests.Codec.{blake3, encoding}
use sand_d.Tests.Manager.{reads, to_file, anew}
use sand_d.Tests.Server.{busy, builder, two, busy-IsReachable, two-IsWellFormed}
use sand_d.Tests.Calls.{controller, opening, calm, idle, printed, told, as_is}

abbrev json : Message → Option String
json m = some (printed m)

abbrev fetch : Message
fetch = Message.file_download_start "d1" "/f"

abbrev at_daemon : Message → Handled
at_daemon m = served json told encoding as_is blake3 reads to_file anew 3 calm idle m

abbrev got : PyResult Bytes
got =
    (download_file "builder" "/f" "d1" (daemon_side (λ m. (at_daemon m).written) 200 "builder" 7 11)
      controller).0

download_file-first_part_example :
    ((content : Bytes)
      → calm.content ≡ some content
      → (first : Bytes) × (rest : Bytes) × (got ≡ returned first)
        × (first ++ rest ≡ content)
        × ((at_daemon fetch).finished ≡ true → got ≡ returned content))
    × (calm.content ≡ none → got ≡ returned [])
download_file-first_part_example =
    download_file-first_part json told encoding as_is blake3 reads to_file anew 3 calm idle 200
      "builder" "/f" "d1" 11 controller busy-IsReachable refl

abbrev watched : DaemonConnection
watched = record builder { sessions = ("s1", 21) ∷ [] }

abbrev watching : World
watching = record busy { registry = record two { heap = watched ∷ [] } }

watching-IsReachable : IsReachable watching "builder" 0 watched
unfolding Registry.get
watching-IsReachable = record { entry = busy-IsReachable.entry; found = refl }

session_known : lookup "s1" watched.sessions ≡ some 21
unfolding lookup
session_known = refl

abbrev seen : World
seen =
    receive_all 200 "builder" 7 (read_loop json "s1" (whole_run ((1 ∷ []) ∷ (2 ∷ 3 ∷ []) ∷ [])))
      watching

read_loop-outputs_example :
    (seen.outputs ≡ (21, 1 ∷ []) ∷ (21, 2 ∷ 3 ∷ []) ∷ [])
    × (seen.delivered ≡ [])
    × IsReachable seen "builder" 0 (Connection.close_session "s1" watched)
    × (Connection.send_session_output "s1" (Connection.close_session "s1" watched) ≡ none)
read_loop-outputs_example =
    read_loop-outputs printed 200 "builder" "s1" 7 ((1 ∷ []) ∷ (2 ∷ 3 ∷ []) ∷ []) watching
      ((λ e. cc), ((λ e. cc), tt)) watching-IsReachable session_known

opening-IsOpening : IsOpening opening
opening-IsOpening = record { opens = refl; reads = refl; writes = refl; spawns = refl }

abbrev begun : PyResult Session × Controller
begun = new_session "builder" 24 80 "xterm" "s1" 21 controller

abbrev at_start : Handled
at_start =
    handles_newest printed told encoding as_is blake3 reads to_file anew 3 calm 7 begun.1 idle

abbrev typed : PyResult (Unit {0}) × Controller
typed = write (108 ∷ 115 ∷ []) (session_of "builder" "s1" 21) begun.1

new_session-write_example :
    (begun.0 ≡ returned (session_of "builder" "s1" 21))
    × ((c1 : DaemonConnection) × IsReachable begun.1.world "builder" 0 c1
        × (Connection.send_session_output "s1" c1 ≡ some 21))
    × (at_start.written ≡ Message.session_started "s1" true none ∷ [])
    × (typed.0 ≡ returned tt)
    × ((handles_newest printed told encoding as_is blake3 reads to_file anew 3 calm 7 typed.1
          at_start.daemon).daemon.sessions.inputs
        ≡ (5, 108 ∷ 115 ∷ []) ∷ [])
new_session-write_example =
    new_session-write printed told encoding as_is blake3 reads to_file anew 3 calm calm "builder" 24
      80 "xterm" "s1" 21 (108 ∷ 115 ∷ []) idle controller busy-IsReachable refl opening-IsOpening
      (refl, refl, refl)

abbrev first : Done × SessionManager
first = Sessions.new_session "s1" 24 80 5 opening no_sessions

new_session_iff_example :
    ((first.0 ≡ done) ↔ IsOpening opening)
    × ((e : String) → first.0 ≡ Done.failed e → first.1 ≡ no_sessions)
    × (first.0 ≡ done
        → (data_bytes : Bytes)
        → send_input "s1" data_bytes none none first.1
          ≡ (done, record first.1 { inputs = (5, data_bytes) ∷ [] }))
    × ((j : String) → "s1" ≢ j → lookup j first.1.sessions ≡ lookup j [])
new_session_iff_example = new_session_iff "s1" 24 80 5 opening no_sessions

abbrev after : Message → Handled
after m = handle_message json told encoding as_is blake3 reads to_file anew 3 calm m idle

handle_message-sessions_example :
    (IsOpening opening
      → lookup "s1" (after (Message.new_session "s1" 24 80 "xterm")).daemon.sessions.sessions
        ≡ some (record { session_id = "s1"; writer = 5; master = 5 }))
    × ((IsOpening opening → ⊥)
        → (after (Message.new_session "s1" 24 80 "xterm")).daemon.sessions.sessions ≡ [])
    × (lookup "s1" (after (Message.session_close "s1")).daemon.sessions.sessions ≡ none)
    × ((m : Message) → leaves_sessions m ≡ true → (after m).daemon.sessions.sessions ≡ [])
handle_message-sessions_example =
    handle_message-sessions json told encoding as_is blake3 reads to_file anew 3 calm "s1" "s1"
      "xterm" 24 80 idle

list_daemons-list_all_example :
    (map (λ info. info.id) (list_daemons none controller) ≡ list_all none two)
    × All (IsTrue controller) (list_daemons none controller)
list_daemons-list_all_example = list_daemons-list_all none controller two-IsWellFormed

upload_file-IsIgnored_example :
    let start = Message.file_upload_start "u1" "/f" 2 none in
    (ms : List Message) × (upload_file "builder" "/f" (1 ∷ 2 ∷ []) "u1" controller
      ≡ (returned tt, record controller { frames = on_channel 7 (start ∷ ms) }))
    × IsChunked "u1" 0 ms
    × (flatten (upload_payloads ms) ≡ 1 ∷ 2 ∷ [])
    × All (IsIgnored json told encoding as_is blake3 reads to_file anew 3) (start ∷ ms)
upload_file-IsIgnored_example =
    upload_file-IsIgnored json told encoding as_is blake3 reads to_file anew 3 "builder" "/f" "u1"
      (1 ∷ 2 ∷ []) controller busy-IsReachable refl
