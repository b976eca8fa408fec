-- ===== src/Server/Connection/Transfer.antt =====
-- The buffering of a file download: `start_file_transfer`, `add_file_chunk`,
-- `complete_file_transfer`.
use sand_d.Prelude.{
  ℕ, ◌+◌, ◌%◌, ◌<◌, String, ◌≡◌, sym, ◌∙◌, none, some, List, [], ◌∷◌, ◌++◌, Bytes, arith, u64_mod,
  length, flatten, append_assoc, append-nil, length-append,
}
use sand_d.Prelude.Dict.{lookup, lookup-insert_self, lookup-remove_self, lookup-adjust_self}
use sand_d.Server.Connection.{
  DaemonConnection, FileTransfer, start_file_transfer, add_chunk, add_file_chunk,
  complete_file_transfer,
}

-- The chunks of one transfer, in the order in which they arrive.
abbrev pub add_file_chunks : String → List Bytes → DaemonConnection → DaemonConnection
add_file_chunks transfer_id [] c = c
add_file_chunks transfer_id (b ∷ bs) c =
    add_file_chunks transfer_id bs (add_file_chunk transfer_id b c)

add_chunks : List Bytes → FileTransfer → FileTransfer
add_chunks [] t = t
add_chunks (b ∷ bs) t = add_chunks bs (add_chunk b t)

chunks-add_chunks : (bs : List Bytes) (t : FileTransfer) → (add_chunks bs t).chunks ≡ t.chunks ++ bs
unfolding add_chunks add_chunk
chunks-add_chunks [] t = sym (append-nil t.chunks)
chunks-add_chunks (b ∷ bs) t =
    chunks-add_chunks bs (add_chunk b t) ∙ append_assoc t.chunks (b ∷ []) bs

received_size-add_chunks :
    (bs : List Bytes) (t : FileTransfer)
    → t.received_size < u64_mod
    → (add_chunks bs t).received_size ≡ (t.received_size + length (flatten bs)) % u64_mod
unfolding add_chunks add_chunk
received_size-add_chunks [] t h = omega arith
received_size-add_chunks (b ∷ bs) t h =
    omega (
      arith,
      received_size-add_chunks bs (add_chunk b t) (omega arith),
      length-append b (flatten bs),
    )

lookup-add_file_chunks :
    (transfer_id : String) (bs : List Bytes) (c : DaemonConnection) (t : FileTransfer)
    → lookup transfer_id c.file_transfers ≡ some t
    → lookup transfer_id (add_file_chunks transfer_id bs c).file_transfers ≡ some (add_chunks bs t)
unfolding add_file_chunk add_chunks
lookup-add_file_chunks transfer_id [] c t h = h
lookup-add_file_chunks transfer_id (b ∷ bs) c t h =
    lookup-add_file_chunks transfer_id bs (add_file_chunk transfer_id b c) (add_chunk b t)
      (lookup-adjust_self transfer_id (add_chunk b) c.file_transfers h)

abbrev fresh_transfer : String → ℕ → FileTransfer
fresh_transfer path total_size = record {
  path = path;
  chunks = [];
  total_size = total_size;
  received_size = 0;
}

-- A transfer that was started gives back the bytes of its chunks in the order of arrival, and is
-- then forgotten. While it runs, `received_size` is the number of bytes so far, modulo 2^64.
pub complete-add_file_chunks :
    (transfer_id path : String) (total_size : ℕ) (bs : List Bytes) (c : DaemonConnection)
    → let d = add_file_chunks transfer_id bs (start_file_transfer transfer_id path total_size c) in
      ((complete_file_transfer transfer_id d).1 ≡ some (flatten bs))
      × (lookup transfer_id (complete_file_transfer transfer_id d).0.file_transfers ≡ none)
      × ((t : FileTransfer) × (lookup transfer_id d.file_transfers ≡ some t)
          × (t.received_size ≡ length (flatten bs) % u64_mod))
unfolding complete_file_transfer start_file_transfer
complete-add_file_chunks transfer_id path total_size bs c =
    let start = fresh_transfer path total_size in
    let d = add_file_chunks transfer_id bs (start_file_transfer transfer_id path total_size c) in
    let found =
      lookup-add_file_chunks transfer_id bs (start_file_transfer transfer_id path total_size c)
        start (lookup-insert_self transfer_id start c.file_transfers) in
    (
      ground (arith, found, chunks-add_chunks bs start),
      ground (arith, found, lookup-remove_self transfer_id d.file_transfers),
      (add_chunks bs start, found, omega (arith, received_size-add_chunks bs start (omega arith))),
    )
