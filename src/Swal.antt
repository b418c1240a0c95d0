-- ===== src/Swal.antt =====
-- The replication log on disk with its cache in memory: src/repl/swal.c. Both are rings of bytes. The
-- descriptor's own offset, which the calls of `write` and `lseek` keep at `log_file_pos`, is not kept
-- apart; a call of `write` writes all that it is given. Offsets are below 2 ^ 64.
use ardb.Prelude.{
  ℕ, zero, suc, ◌+◌, ◌-◌, ◌==◌, ltb, leb, min, Bool, true, false, Option, none, some, List, [], ◌∷◌,
  ◌++◌, ◌&&◌, if◌then◌else◌, length, take, drop,
}
pub mod Ring
pub mod Window
pub mod Replay
pub mod Log
pub mod Deliver

pub record SwalOptions : Type 0 where
  pub max_file_size : ℕ
  pub ring_cache_size : ℕ
  pub cksm_func : Option (ℕ → List ℕ → ℕ)

pub record SwalMeta : Type 0 where
  pub log_start_offset : ℕ
  pub log_end_offset : ℕ
  pub log_file_pos : ℕ
  pub cksm : ℕ

-- `file` is the log file, `ring_cache` the cache where there is one.
pub record Swal : Type 0 where
  pub meta : SwalMeta
  pub options : SwalOptions
  pub file : List ℕ
  pub ring_cache : Option (List ℕ)
  pub ring_cache_start_offset : ℕ
  pub ring_cache_idx : ℕ

-- `write` and `memcpy`: some bytes put at a place of a block.
unfoldable pub write_at : ℕ → List ℕ → List ℕ → List ℕ
write_at pos bytes block = take pos block ++ (bytes ++ drop (pos + length bytes) block)

-- The place behind some bytes, which is the front at the end of the block.
unfoldable pub next_pos : ℕ → ℕ → ℕ
next_pos size pos = if pos == size then 0 else pos

-- The loops of `swal_append`, over the file and over the cache: each round writes up to the end of the
-- block. The first argument bounds the number of rounds.
unfoldable pub write_ring : ℕ → ℕ → ℕ → List ℕ → List ℕ → ℕ × List ℕ
write_ring zero size pos bytes block = (pos, block)
write_ring (suc fuel) size pos bytes block =
    let thislen = min (size - pos) (length bytes) in
    let rest =
      write_ring fuel size (next_pos size (pos + thislen)) (drop thislen bytes)
        (write_at pos (take thislen bytes) block) in
    if length bytes == 0 then (pos, block) else rest

-- The first offset of a ring of `size` bytes that ends at `last`.
unfoldable pub window_start : ℕ → ℕ → ℕ → ℕ
window_start size first last = if leb size (last - first) then last - size else first

unfoldable pub append_cache : List ℕ → ℕ → Swal → Swal
append_cache log last w = elim w.ring_cache [
  | none ↦ w
  | some block ↦
      let size = w.options.ring_cache_size in
      let (idx, block') = write_ring (length log) size w.ring_cache_idx log block in
      record w {
        ring_cache = some block';
        ring_cache_idx = idx;
        ring_cache_start_offset = window_start size w.ring_cache_start_offset last;
      }
]

-- The file's part of an append, with the metadata.
unfoldable pub append_file : List ℕ → Swal → Swal
append_file log w =
    let m = w.meta in
    let (pos, file') = write_ring (length log) w.options.max_file_size m.log_file_pos log w.file in
    let last = m.log_end_offset + length log in
    let m' : SwalMeta = record {
      log_start_offset = window_start w.options.max_file_size m.log_start_offset last;
      log_end_offset = last;
      log_file_pos = pos;
      cksm = elim w.options.cksm_func [ none ↦ m.cksm | some f ↦ f m.cksm log ];
    } in
    record w { meta = m'; file = file' }

unfoldable pub swal_append : List ℕ → Swal → Swal
swal_append log w = append_cache log (w.meta.log_end_offset + length log) (append_file log w)

-- The callback of a replay gets its state and some bytes, and gives the number that it consumed.
-- Two pieces: what the callback left of the first is given again, in front of the second.
unfoldable pub replay_two : {A : Type 0} → (A → List ℕ → A × ℕ) → A → List ℕ → List ℕ → A
replay_two func a front back =
    let (a', consumed) = func a front in
    if length front == consumed then (func a' back).0 else (func a' (drop consumed front ++ back)).0

-- The cache's branch of `swal_replay`.
unfoldable pub replay_cache : {A : Type 0} → (A → List ℕ → A × ℕ) → A → ℕ → ℕ → ℕ → ℕ → List ℕ → A
replay_cache func a size idx data_len total block =
    let start_pos = (size - data_len) + idx in
    if leb data_len idx
    then (func a (take total (drop (idx - data_len) block))).0
    else if leb total (size - start_pos)
    then (func a (take total (drop start_pos block))).0
    else replay_two func a (take (size - start_pos) (drop start_pos block))
        (take ((start_pos + total) - size) block)

-- The file's.
unfoldable pub replay_file : {A : Type 0} → (A → List ℕ → A × ℕ) → A → ℕ → ℕ → ℕ → ℕ → List ℕ → A
replay_file func a size pos data_len total block =
    let start_pos = if leb data_len pos then pos - data_len else (size - data_len) + pos in
    if ltb (start_pos + total) size
    then (func a (take total (drop start_pos block))).0
    else replay_two func a (take (size - start_pos) (drop start_pos block))
        (take ((total + start_pos) - size) block)

-- A limit that is not positive is none. `none` is the result -1.
unfoldable pub replay_total : ℕ → ℕ → ℕ
replay_total limit_len data_len =
    if ltb 0 limit_len && ltb limit_len data_len then limit_len else data_len

unfoldable pub swal_replay : {A : Type 0} → (A → List ℕ → A × ℕ) → A → ℕ → ℕ → Swal → Option A
swal_replay func a offset limit_len w =
    let m = w.meta in
    let data_len = m.log_end_offset - offset in
    let total = replay_total limit_len data_len in
    let from_file =
      replay_file func a w.options.max_file_size m.log_file_pos data_len total w.file in
    let replayed = elim w.ring_cache as (λ o. _) [
      | none ↦ from_file
      | some block ↦
          if leb w.ring_cache_start_offset offset
          then replay_cache func a w.options.ring_cache_size w.ring_cache_idx data_len total block
          else from_file
    ] in
    if ltb offset m.log_start_offset
    then none
    else if ltb m.log_end_offset offset
    then none
    else some replayed

unfoldable pub swal_reset : ℕ → ℕ → Swal → Swal
swal_reset offset cksm w =
    let m : SwalMeta = record {
      log_start_offset = offset;
      log_end_offset = offset;
      log_file_pos = 0;
      cksm = cksm;
    } in
    elim w.ring_cache [
      | none ↦ record w { meta = m }
      | some block ↦ record w { meta = m; ring_cache_start_offset = offset; ring_cache_idx = 0 }
    ]

unfoldable pub swal_cksm : Swal → ℕ
swal_cksm w = w.meta.cksm

unfoldable pub swal_start_offset : Swal → ℕ
swal_start_offset w = w.meta.log_start_offset

unfoldable pub swal_end_offset : Swal → ℕ
swal_end_offset w = w.meta.log_end_offset
