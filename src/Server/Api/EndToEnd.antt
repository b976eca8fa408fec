-- ===== src/Server/Api/EndToEnd.antt =====
-- A request from Python, through the controller and the daemon, and back.
use sand_d.Prelude.{
  ℕ, String, false, Option, none, some, List, [], ◌∷◌, ◌++◌, ◌≡◌, refl, ap, eqb, leb, ◌*◌,
  if◌then◌else◌, arith, get_elem?-set_self,
}
use sand_d.Prelude.Dict.{lookup, insert, lookup-insert_self, lookup-remove_self}
use sand_d.Protocol.{Message}
use sand_d.Server.Connection.{DaemonConnection, register_request, complete_request}
use sand_d.Server.Registry
use sand_d.Server.Registry.{deref, modify}
use sand_d.Server.Handler.{World, receive_all, complete, response_id}
use sand_d.Server.Handler.Laws.{IsReachable, response-complete, complete-IsReachable}
use sand_d.Server.Api.{
  PyResult, Controller, Awaited, received, timed_out, Wait, send_message, find_conn, on_conn,
  request,
}

-- The message that was put last on a channel, and the first response on one.
abbrev pub newest : ℕ → List (ℕ × Message) → Option Message → Option Message
newest channel [] last = last
newest channel ((c, m) ∷ fs) last = newest channel fs (if eqb c channel then some m else last)

abbrev pub first_on : ℕ → List (ℕ × Message) → Option Message
first_on tx [] = none
first_on tx ((t, m) ∷ rest) = if eqb t tx then some m else first_on tx rest

abbrev awaited : Option Message → Awaited
awaited none = timed_out
awaited (some m) = received m

pub newest-push :
    (channel : ℕ) (fs : List (ℕ × Message)) (m : Message) (last : Option Message)
    → newest channel (fs ++ (channel, m) ∷ []) last ≡ some m
newest-push channel [] m last = ground arith
newest-push channel ((c, n) ∷ fs) m last = newest-push channel fs m _

first_on-push :
    (tx : ℕ) (rest : List (ℕ × Message)) (m : Message)
    → first_on tx rest ≡ none
    → first_on tx (rest ++ (tx, m) ∷ []) ≡ some m
first_on-push tx [] m h = ground arith
first_on-push tx ((t, n) ∷ rest) m h = ground (arith, first_on-push tx rest m)

pub find_conn-IsReachable :
    (s : Controller) (id : String) {arc : ℕ} {c : DaemonConnection}
    → IsReachable s.world id arc c
    → find_conn id s ≡ some (arc, c)
unfolding find_conn
find_conn-IsReachable s id r = rw (find_conn, r.entry, r.found) refl

-- What a method changes of a connection, those who look the daemon up find.
pub on_conn-IsReachable :
    (f : DaemonConnection → DaemonConnection) (s : Controller) (id : String) {arc : ℕ}
    {c : DaemonConnection}
    → IsReachable s.world id arc c
    → IsReachable (on_conn arc f s).world id arc (f c)
unfolding Registry.modify Registry.get
on_conn-IsReachable f s id {arc} {c} r = record {
  entry = r.entry;
  found = rw r.found (get_elem?-set_self s.world.registry.heap arc (f c) r.found);
}

-- The state after a message is put on an open channel.
abbrev pub sent_on : ℕ → Message → Controller → Controller
sent_on channel m s = record s { frames = s.frames ++ (channel, m) ∷ [] }

pub send_message-open :
    (c : DaemonConnection) (m : Message) (s : Controller)
    → s.is_closed c.request_tx ≡ false
    → send_message c m s ≡ (none, sent_on c.request_tx m s)
unfolding send_message
send_message-open c m s opened = rw (send_message, opened) refl

-- A request to a reachable daemon with an open channel is what the wait makes of the state in which
-- it is registered and sent.
pub request-sent {ℓ} :
    {A : Type ℓ} (id request_id : String) (tx secs : ℕ) (context : String) (m : Message)
    (finish : Awaited → PyResult A) (wait : Wait) (s : Controller) {arc : ℕ} {c : DaemonConnection}
    → IsReachable s.world id arc c
    → s.is_closed c.request_tx ≡ false
    → let t = sent_on c.request_tx m (on_conn arc (register_request request_id tx) s) in
      request id request_id tx secs context m finish wait s
      ≡ (finish (wait secs t).0, (wait secs t).1)
unfolding request
request-sent id request_id tx secs context m finish wait s {arc} {c} reach opened =
    rw
      (
        request,
        find_conn-IsReachable s id reach,
        send_message-open c m (on_conn arc (register_request request_id tx) s) opened,
      )
      refl

receive_all-response :
    (now : ℕ) (id request_id : String) (channel : ℕ) (r : Message) (w : World) {arc : ℕ}
    {c : DaemonConnection}
    → IsReachable w id arc c
    → response_id r ≡ some request_id
    → receive_all now id channel (r ∷ []) w ≡ complete request_id r arc c w
receive_all-response now id request_id channel r w reach answers =
    ap (λ h. h.world) (response-complete now r id request_id channel w answers reach)

complete-delivers :
    (request_id : String) (tx : ℕ) (r : Message) (c : DaemonConnection) (arc : ℕ) (w : World)
    → (complete request_id r arc (register_request request_id tx c) w).delivered
      ≡ w.delivered ++ (tx, r) ∷ []
unfolding complete complete_request register_request
complete-delivers request_id tx r c arc w =
    rw (complete_request, lookup-insert_self request_id tx c.pending_requests) refl

complete_request-forgets :
    (request_id : String) (tx : ℕ) (c : DaemonConnection)
    → lookup request_id
        (complete_request request_id (register_request request_id tx c)).0.pending_requests
      ≡ none
unfolding complete_request register_request
complete_request-forgets request_id tx c =
    rw (complete_request, lookup-insert_self request_id tx c.pending_requests)
      (lookup-remove_self request_id (insert request_id tx c.pending_requests))

-- A wait in which the answer takes a number of milliseconds: with the timeout over, the caller goes
-- on without it.
abbrev pub within : (took : ℕ) → Wait → Wait
within took wait secs s = if leb (secs * 1000) took then (timed_out, s) else wait secs s

-- What the daemon with the id `id` writes on a message, and the wait in which it takes the newest
-- message of its channel and the controller handles what it writes, all of it before the timeout.
module _ (handle : Message → List Message) (now : ℕ) (id : String) where
  abbrev served : (channel tx : ℕ) → Option Message → Controller → Awaited × Controller
  served channel tx none s = (timed_out, s)
  served channel tx (some m) s =
      let w = receive_all now id channel (handle m) s.world in
      (awaited (first_on tx w.delivered), record s { world = w })

  abbrev pub daemon_side : (channel tx : ℕ) → Wait
  daemon_side channel tx secs s = served channel tx (newest channel s.frames none) s

  -- What a method returns, and that its request is no longer pending.
  abbrev pub IsServed {ℓ} :
      {A : Type ℓ} → (request_id : String) (arc : ℕ) → PyResult A → PyResult A × Controller → Type ℓ
  IsServed request_id arc result (a, s) =
      (a ≡ result)
      × ((c : DaemonConnection) × IsReachable s.world id arc c
          × (lookup request_id c.pending_requests ≡ none))

  -- If the daemon is reachable and the one message that it writes responds to the request, then the
  -- method returns what it makes of that response, and the request is no longer pending.
  pub request-answered {ℓ} :
      {A : Type ℓ} (request_id : String) (tx secs : ℕ) (context : String) (m r : Message)
      (finish : Awaited → PyResult A) (s : Controller) {arc : ℕ} {c : DaemonConnection}
      → IsReachable s.world id arc c
      → s.is_closed c.request_tx ≡ false
      → first_on tx s.world.delivered ≡ none
      → handle m ≡ r ∷ []
      → response_id r ≡ some request_id
      → IsServed request_id arc
          (finish (received r))
          (request id request_id tx secs context m finish (daemon_side c.request_tx tx) s)
  request-answered request_id tx secs context m r finish s {arc} {c} reach opened unused writes
        answers =
      let t = on_conn arc (register_request request_id tx) s in
      let there = on_conn-IsReachable (register_request request_id tx) s id reach in
      rw
        (
          request-sent id request_id tx secs context m finish (daemon_side c.request_tx tx) s reach
              opened,
          newest-push c.request_tx t.frames m none,
          writes,
          receive_all-response now id request_id c.request_tx r t.world there answers,
          complete-delivers request_id tx r c arc t.world,
          first_on-push tx s.world.delivered r unused,
        )
        (
          refl,
          (
            (complete_request request_id (register_request request_id tx c)).0,
            (let done = complete-IsReachable r id request_id t.world there in
                record { entry = done.entry; found = done.found }),
            complete_request-forgets request_id tx c,
          ),
        )
