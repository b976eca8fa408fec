-- ===== src/Daemon/Download.antt =====
-- sandd/src/main.rs, `handle_message`, the answer to `FileDownloadStart`: the chunks of a file.
pub mod Laws
use sand_d.Prelude.{
  ℕ, zero, suc, ◌+◌, ◌*◌, String, Bool, Option, none, some, List, [], ◌∷◌, ◌++◌, Bytes, length, leb,
}
use sand_d.Protocol.{Message}

abbrev pub chunk_size : ℕ
chunk_size = 65536

abbrev pub take : ℕ → Bytes → Bytes
take zero xs = []
take (suc n) [] = []
take (suc n) (x ∷ xs) = x ∷ take n xs

abbrev pub drop : ℕ → Bytes → Bytes
drop zero xs = xs
drop (suc n) [] = []
drop (suc n) (x ∷ xs) = drop n xs

-- `data.chunks(size)`; the fuel is at least the number of the bytes.
unfoldable pub chunks : (size : ℕ) → (fuel : ℕ) → Bytes → List Bytes
chunks size zero xs = []
chunks size (suc fuel) [] = []
chunks size (suc fuel) (x ∷ xs) = take size (x ∷ xs) ∷ chunks size fuel (drop size (x ∷ xs))

unfoldable pub chunk_messages :
    (request_id : String) (size total : ℕ) → (i : ℕ) → List Bytes → List Message
chunk_messages request_id size total i [] = []
chunk_messages request_id size total i (c ∷ cs) =
    Message.file_download_chunk request_id c (i * size) (leb total ((i + 1) * size))
    ∷ chunk_messages request_id size total (i + 1) cs

-- The messages that answer `FileDownloadStart`, for the bytes of the file or the error of reading
-- it.
unfoldable pub download :
    (size : ℕ) → (request_id : String) → (error : String) → Option Bytes → List Message
unfolding chunks chunk_messages
download size request_id error none = Message.file_download_error request_id error ∷ []
download size request_id error (some data_bytes) =
    chunk_messages request_id size (length data_bytes) 0
      (chunks size (length data_bytes) data_bytes)
