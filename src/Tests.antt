-- ===== src/Tests.antt =====
-- The theorems at concrete inputs.
pub mod Codec
pub mod Server
pub mod Daemon
pub mod Store
pub mod Manager
pub mod Tunnel
pub mod Calls
pub mod Streams
pub mod Survival
use sand_d.Prelude.{String, false, ◌≡◌, ◌≢◌, ◌==◌, eq_iff, arith}

pub differ : (s t : String) → (s == t) ≡ false → s ≢ t
differ s t h = λ e. ground (arith, eq_iff s t)
