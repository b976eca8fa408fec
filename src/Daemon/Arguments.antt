-- ===== src/Daemon/Arguments.antt =====
-- sandd/src/main.rs: what `main` makes of its arguments, and `connect_and_serve`. URLs are parsed by
-- the http crate; what it finds in one is an argument.
pub mod Labels
use Prim.Native.Char.{Char, code}
use sand_d.Prelude.{
  ℕ, String, Bool, true, false, Option, none, some, List, [], ◌∷◌, ◌++◌, ◌≡◌, ◌↔◌, refl, sym, arith,
  eqb, ◌==◌, eq_iff, if◌then◌else◌, Option-cases, Bool-cases, inl, inr, ap, ◌∙◌, ◌||◌,
}
use sand_d.Prelude.Dict.{Dict, lookup, insert, lookup-insert}
use sand_d.Prelude.Text.{append, any_char}
use sand_d.Daemon.Serve.{ServeOutcome}
use sand_d.Daemon.Reconnect.{Attempt, unreachable, session}

-- `uuid` is the id that is made where none is given.
unfoldable pub daemon_id_or : (uuid : String) → Option String → String
daemon_id_or uuid none = uuid
daemon_id_or uuid (some id) = id

abbrev pub is_equals : Char → Bool
is_equals c = eqb (code c) b'='

abbrev pub keep_char : Char → Option (String × String) → Option (String × String)
keep_char c none = none
keep_char c (some (key, value)) = some (String.◌∷◌ c key, value)

-- `split_once('=')`: the parts before and after the first `=`.
unfoldable pub split_once : String → Option (String × String)
split_once String.[] = none
split_once (String.◌∷◌ c s) =
    let rest = split_once s in if is_equals c then some (String.[], s) else keep_char c rest

abbrev pub insert_pair : Option (String × String) → Dict String → Dict String
insert_pair none labels = labels
insert_pair (some (key, value)) labels = insert key value labels

-- A label without `=` is logged and left out.
unfoldable pub parse_labels : List String → Dict String → Dict String
unfolding split_once
parse_labels [] labels = labels
parse_labels (label ∷ rest) labels = parse_labels rest (insert_pair (split_once label) labels)

-- What the http crate finds in the URL of the server, if it is one.
pub record Uri : Type 0 where
  pub host : Option String
  pub port : Option ℕ
  pub scheme : Option String

abbrev is_wss : Option String → Bool
is_wss none = false
is_wss (some s) = s == "wss"

abbrev port_or : Option String → Option ℕ → ℕ
port_or scheme (some port) = port
port_or scheme none = if is_wss scheme then 443 else 80

-- Where the daemon dials.
pub data Dial : Type 0 where
  direct : Dial
  socks : (host : String) (port : ℕ) → Dial

-- Whether the proxy reaches the target, and the WebSocket handshake or the direct connection
-- succeeds.
pub record Network : Type 0 where
  pub proxied : Bool
  pub handshake : Bool

-- The dials, and how the attempt ends; `served` is how the session ends.
unfoldable pub connect_and_serve :
    (tunnel : Bool) → Option Uri → Network → (served : Option ServeOutcome) → List Dial × Attempt
connect_and_serve tunnel none net served = ([], unreachable)
connect_and_serve true (some uri) net served = elim uri.host [
  | none ↦ ([], unreachable)
  | some host ↦ (
    socks host (port_or uri.scheme uri.port) ∷ [],
    if net.proxied then (if net.handshake then session served else unreachable) else unreachable,
  )
]
connect_and_serve false (some uri) net served =
    (direct ∷ [], if net.handshake then session served else unreachable)
