-- ===== src/Server/Connection.antt =====
-- server/src/registry.rs, `DaemonConnection`: one connected daemon. A channel is known by a number;
-- a method that sends returns what it sends, and the caller's state keeps it. The clock is an
-- argument, in whole seconds since the epoch.
pub mod Laws
pub mod Transfer
use sand_d.Prelude.{
  ℕ, ◌+◌, ◌-◌, ◌%◌, String, Bool, not, true, false, Option, none, some, List, [], ◌∷◌, ◌++◌, Bytes,
  u64_mod, length, flatten,
}
use sand_d.Prelude.Dict.{Dict, lookup, insert, remove, adjust}
use sand_d.Protocol.{DaemonMetadata, Message}

pub record FileTransfer : Type 0 where
  pub path : String
  pub chunks : List Bytes
  pub total_size : ℕ
  pub received_size : ℕ

pub record DaemonConnection : Type 0 where
  pub id : String
  pub metadata : DaemonMetadata
  pub last_heartbeat : ℕ
  pub connected_at : ℕ
  pub request_tx : ℕ
  pub pending_requests : Dict ℕ
  pub sessions : Dict ℕ
  pub file_transfers : Dict FileTransfer

unfoldable pub new : (now : ℕ) → String → DaemonMetadata → (request_tx : ℕ) → DaemonConnection
new now id metadata request_tx = record {
  id = id;
  metadata = metadata;
  last_heartbeat = now;
  connected_at = now;
  request_tx = request_tx;
  pending_requests = [];
  sessions = [];
  file_transfers = [];
}

unfoldable pub update_heartbeat : (now : ℕ) → DaemonConnection → DaemonConnection
update_heartbeat now c = record c { last_heartbeat = now }

-- `saturating_sub`: a clock that steps back gives 0.
unfoldable pub seconds_since_heartbeat : (now : ℕ) → DaemonConnection → ℕ
seconds_since_heartbeat now c = now - c.last_heartbeat

unfoldable pub register_request : String → (tx : ℕ) → DaemonConnection → DaemonConnection
register_request request_id tx c = record c {
  pending_requests = insert request_id tx c.pending_requests;
}

-- The new state, and the channel on which the response goes.
unfoldable pub complete_request : String → DaemonConnection → DaemonConnection × Option ℕ
complete_request request_id c = elim (lookup request_id c.pending_requests) [
  | some tx ↦ (record c { pending_requests = remove request_id c.pending_requests }, some tx)
  | none ↦ (c, none)
]

abbrev pub is_empty {ℓ} : {A : Type ℓ} → List A → Bool
is_empty [] = true
is_empty (x ∷ xs) = false

unfoldable pub is_busy : DaemonConnection → Bool
is_busy c = not (is_empty c.pending_requests)

unfoldable pub register_session : String → (tx : ℕ) → DaemonConnection → DaemonConnection
register_session session_id tx c = record c { sessions = insert session_id tx c.sessions }

-- The channel on which the output goes, if the session is known.
unfoldable pub send_session_output : String → DaemonConnection → Option ℕ
send_session_output session_id c = lookup session_id c.sessions

unfoldable pub close_session : String → DaemonConnection → DaemonConnection
close_session session_id c = record c { sessions = remove session_id c.sessions }

unfoldable pub start_file_transfer :
    String → (path : String) → (total_size : ℕ) → DaemonConnection → DaemonConnection
start_file_transfer transfer_id path total_size c = record c {
  file_transfers =
      insert transfer_id
        (record { path = path; chunks = []; total_size = total_size; received_size = 0 })
        c.file_transfers;
}

-- `received_size` is a `u64`.
unfoldable pub add_chunk : Bytes → FileTransfer → FileTransfer
add_chunk bytes t = record t {
  received_size = (t.received_size + length bytes) % u64_mod;
  chunks = t.chunks ++ bytes ∷ [];
}

unfoldable pub add_file_chunk : String → Bytes → DaemonConnection → DaemonConnection
unfolding add_chunk
add_file_chunk transfer_id bytes c = record c {
  file_transfers = adjust transfer_id (add_chunk bytes) c.file_transfers;
}

unfoldable pub complete_file_transfer : String → DaemonConnection → DaemonConnection × Option Bytes
complete_file_transfer transfer_id c = elim (lookup transfer_id c.file_transfers) [
  | some t ↦
      (record c { file_transfers = remove transfer_id c.file_transfers }, some (flatten t.chunks))
  | none ↦ (c, none)
]
