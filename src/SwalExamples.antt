-- ===== src/SwalExamples.antt =====
-- The theorems about the replication log, src/repl/swal.c, at concrete inputs: a file of four bytes, with
-- a cache of two, to which six bytes were appended.
use ardb.Prelude.{ℕ, ◌+◌, ◌-◌, ◌≤◌, ◌≡◌, refl, some, List, [], ◌∷◌, ◌++◌, length, arith}
use ardb.Swal.{
  Swal, write_ring, append_file, append_cache, swal_append, replay_total, swal_replay, swal_reset,
}
use ardb.Swal.Ring.{Written, write_ring-Written}
use ardb.Swal.Window.{window}
use ardb.Swal.Replay.{Delivered}
use ardb.Swal.Log.{Represents, IsReady, Represents-swal_append, Represents-swal_reset}
use ardb.Swal.Deliver.{swal_replay-Delivered}

abbrev new_log : Swal
new_log = record {
  meta = record { log_start_offset = 0; log_end_offset = 0; log_file_pos = 0; cksm = 0 };
  options = record {
    max_file_size = 4;
    ring_cache_size = 2;
    cksm_func = some (λ cksm log. cksm + length log);
  };
  file = 0 ∷ 0 ∷ 0 ∷ 0 ∷ [];
  ring_cache = some (0 ∷ 0 ∷ []);
  ring_cache_start_offset = 0;
  ring_cache_idx = 0;
}

new_log-IsReady : IsReady new_log
new_log-IsReady = record {
  file_full = refl;
  file_some = omega arith;
  cache_full = (refl, omega arith);
}

abbrev six_bytes : List ℕ
six_bytes = 11 ∷ 12 ∷ 13 ∷ 14 ∷ 15 ∷ 16 ∷ []

abbrev written_log : Swal
written_log = swal_append six_bytes (swal_reset 100 0 new_log)

reset_there : Represents (swal_reset 100 0 new_log) 100 []
reset_there = Represents-swal_reset 100 0 new_log new_log-IsReady

Represents-swal_append_example : Represents written_log 100 six_bytes
Represents-swal_append_example =
    Represents-swal_append six_bytes [] 100 (swal_reset 100 0 new_log) reset_there

written_there : Represents written_log 100 six_bytes
written_there = Represents-swal_append six_bytes [] 100 (swal_reset 100 0 new_log) reset_there

abbrev gather : List ℕ → List ℕ → List ℕ × ℕ
gather seen bytes = (seen ++ bytes, length bytes)

gather-modest : (seen bytes : List ℕ) → (gather seen bytes).1 ≤ length bytes
gather-modest seen bytes = omega arith

swal_replay-Delivered_example :
    (result : List ℕ) × (swal_replay gather [] 103 2 written_log ≡ some result)
    × Delivered gather []
        (window
          (written_log.meta.log_end_offset - 103)
          (replay_total 2 (written_log.meta.log_end_offset - 103))
          six_bytes)
        result
unfolding swal_append append_file append_cache swal_reset
swal_replay-Delivered_example =
    swal_replay-Delivered gather gather-modest [] 103 2 100 six_bytes written_log written_there
      (omega (arith, written_there.begins)) (omega (arith, written_there.ends))

write_ring-Written_example :
    Written 4 3 six_bytes (1 ∷ 2 ∷ 3 ∷ 4 ∷ []) (write_ring 6 4 3 six_bytes (1 ∷ 2 ∷ 3 ∷ 4 ∷ []))
write_ring-Written_example =
    write_ring-Written 6 4 3 six_bytes (1 ∷ 2 ∷ 3 ∷ 4 ∷ []) (omega arith)
      (record { full = refl; inside = omega arith })
