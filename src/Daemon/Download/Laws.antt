-- ===== src/Daemon/Download/Laws.antt =====
-- What arrives of a file that is downloaded.
use sand_d.Prelude.{
  ℕ, zero, suc, ◌+◌, ◌*◌, ◌-◌, ◌≤◌, ◌<◌, String, true, false, some, List, [], ◌∷◌, ◌++◌, Bytes,
  length, leb, ◌≡◌, refl, ap, ◌∙◌, arith, flatten,
}
use native.Mathlib.Nat.{add-mul, one-mul, zero-mul}
use sand_d.Protocol.{Message}
use sand_d.Server.Connection.{DaemonConnection, start_file_transfer, complete_file_transfer}
use sand_d.Server.Connection.Transfer.{add_file_chunks, complete-add_file_chunks}
use sand_d.Daemon.Download.{take, drop, chunks, chunk_messages, download}

-- The bytes and the marks of the chunks among messages.
abbrev pub payloads : List Message → List Bytes
payloads [] = []
payloads (Message.file_download_chunk _ b _ _ ∷ ms) = b ∷ payloads ms
payloads (_ ∷ ms) = payloads ms

pub payloads-append : (xs ys : List Message) → payloads (xs ++ ys) ≡ payloads xs ++ payloads ys
payloads-append [] ys = refl
payloads-append (Message.file_download_chunk _ b _ _ ∷ xs) ys = ap (◌∷◌ b) (payloads-append xs ys)
payloads-append (m ∷ xs) ys = payloads-append xs ys

take-drop : (n : ℕ) (xs : Bytes) → take n xs ++ drop n xs ≡ xs
take-drop zero xs = refl
take-drop (suc n) [] = refl
take-drop (suc n) (x ∷ xs) = ap (◌∷◌ x) (take-drop n xs)

pub length-drop : (n : ℕ) (xs : Bytes) → length (drop n xs) ≡ length xs - n
length-drop zero xs = omega arith
length-drop (suc n) [] = omega arith
length-drop (suc n) (x ∷ xs) = omega (arith, length-drop n xs)

pub flatten-chunks :
    (size fuel : ℕ) (xs : Bytes) → 0 < size → length xs ≤ fuel → flatten (chunks size fuel xs) ≡ xs
unfolding chunks
flatten-chunks size zero [] h f = refl
flatten-chunks size zero (x ∷ xs) h f = absurd (omega arith)
flatten-chunks size (suc fuel) [] h f = refl
flatten-chunks size (suc fuel) (x ∷ xs) h f =
    rw (flatten-chunks size fuel (drop size (x ∷ xs)) h (omega (arith, length-drop size (x ∷ xs))))
      (take-drop size (x ∷ xs))

payloads-chunk_messages :
    (request_id : String) (size total i : ℕ) (cs : List Bytes)
    → payloads (chunk_messages request_id size total i cs) ≡ cs
unfolding chunk_messages
payloads-chunk_messages request_id size total i [] = refl
payloads-chunk_messages request_id size total i (c ∷ cs) =
    ap (◌∷◌ c) (payloads-chunk_messages request_id size total (i + 1) cs)

pub flatten-payloads-download :
    (size : ℕ) (request_id error : String) (content : Bytes)
    → 0 < size
    → flatten (payloads (download size request_id error (some content))) ≡ content
unfolding download
flatten-payloads-download size request_id error content h =
    let pieces = chunks size (length content) content in
    ap flatten (payloads-chunk_messages request_id size (length content) 0 pieces)
    ∙ flatten-chunks size (length content) content h (omega arith)

-- Adding the chunks that the daemon sends of a file to a transfer that the controller has started
-- yields the bytes of the file, for every size of a chunk but zero.
pub complete-download :
    (size : ℕ) (request_id error transfer_id path : String) (total_size : ℕ) (content : Bytes)
    (c : DaemonConnection)
    → 0 < size
    → let sent = payloads (download size request_id error (some content)) in
      (complete_file_transfer transfer_id
        (add_file_chunks transfer_id sent (start_file_transfer transfer_id path total_size c))).1
      ≡ some content
complete-download size request_id error transfer_id path total_size content c h =
    let sent = payloads (download size request_id error (some content)) in
    (complete-add_file_chunks transfer_id path total_size sent c).0
    ∙ ap some (flatten-payloads-download size request_id error content h)

-- No message but the last one is marked as the last.
abbrev pub IsMarked : List Message → Type 0
IsMarked [] = Unit
IsMarked (Message.file_download_chunk _ _ _ is_last ∷ []) = is_last ≡ true
IsMarked (Message.file_download_chunk _ _ _ is_last ∷ m ∷ ms) =
    (is_last ≡ false) × IsMarked (m ∷ ms)
IsMarked (_ ∷ ms) = ⊥

succ_mul : (i size : ℕ) → (i + 1) * size ≡ i * size + size
succ_mul i size = add-mul i 1 size ∙ ap (◌+◌ (i * size)) (one-mul size)

marks-cons :
    (request_id : String) (b : Bytes) (size total i fuel here : ℕ) (rest : Bytes)
    → total ≡ i * size + here
    → length rest ≡ here - size
    → length rest ≤ fuel
    → IsMarked (chunk_messages request_id size total (i + 1) (chunks size fuel rest))
    → IsMarked (
        Message.file_download_chunk request_id b (i * size) (leb total ((i + 1) * size))
        ∷ chunk_messages request_id size total (i + 1) (chunks size fuel rest))
unfolding chunks chunk_messages
marks-cons request_id b size total i zero here [] e e' f ih = ground (arith, succ_mul i size)
marks-cons request_id b size total i (suc fuel) here [] e e' f ih = ground (arith, succ_mul i size)
marks-cons request_id b size total i zero here (y ∷ ys) e e' f ih = absurd (omega arith)
marks-cons request_id b size total i (suc fuel) here (y ∷ ys) e e' f ih =
    (ground (arith, succ_mul i size), ih)

marks :
    (request_id : String) (size total i fuel : ℕ) (xs : Bytes)
    → 0 < size
    → length xs ≤ fuel
    → (0 < length xs → total ≡ i * size + length xs)
    → IsMarked (chunk_messages request_id size total i (chunks size fuel xs))
unfolding chunks chunk_messages
marks request_id size total i zero xs h f e = tt
marks request_id size total i (suc fuel) [] h f e = tt
marks request_id size total i (suc fuel) (x ∷ xs) h f e =
    let rest = drop size (x ∷ xs) in
    let shorter = length-drop size (x ∷ xs) in
    let here = e (omega arith) in
    marks-cons request_id (take size (x ∷ xs)) size total i fuel (length (x ∷ xs)) rest here shorter
      (omega arith)
      (marks request_id size total (i + 1) fuel rest h (omega arith)
        (λ more. omega (arith, succ_mul i size)))

-- Of the chunks that the daemon sends of a file, the final one is marked as the last and no other
-- is, for every size of a chunk but zero.
pub download-IsMarked :
    (size : ℕ) (request_id error : String) (content : Bytes)
    → 0 < size
    → IsMarked (download size request_id error (some content))
unfolding download
download-IsMarked size request_id error content h =
    marks request_id size (length content) 0 (length content) content h (omega arith)
      (λ _. omega (arith, zero-mul size))
