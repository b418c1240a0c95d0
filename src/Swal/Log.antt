-- ===== src/Swal/Log.antt =====
-- The replication log against its specification: the bytes that were appended since an offset. The file
-- holds the newest of them, the cache the newest of those since it was made.
use ardb.Prelude.{
  ℕ, ◌+◌, ◌-◌, ◌<◌, ◌≡◌, refl, sym, ap, ap₂, subst, ◌∙◌, inl, inr, Option, none, some, List, [],
  ◌++◌, length, arith, length-append, append_assoc, Option-cases,
}
use ardb.Swal.{
  SwalMeta, Swal, write_ring, window_start, append_cache, append_file, swal_append, swal_reset,
}
use ardb.Swal.Window.{Holds, Holds-write_ring}

-- A cache that begins at the offset `first`, with the bytes appended from `base` on.
pub record IsCache (size idx first base : ℕ) (block written : List ℕ) : Type 0 where
  pub old : List ℕ
  pub recent : List ℕ
  pub split : written ≡ old ++ recent
  pub holds : Holds size idx block recent
  pub begins : first ≡ (base + length old) + (length recent - size)

abbrev pub CacheHolds : Option (List ℕ) → ℕ → ℕ → ℕ → ℕ → List ℕ → Type 0
CacheHolds none size idx first base written = Unit {0}
CacheHolds (some block) size idx first base written = IsCache size idx first base block written

abbrev pub CacheOf : Swal → ℕ → List ℕ → Option (List ℕ) → Type 0
CacheOf w base written o =
    CacheHolds o w.options.ring_cache_size w.ring_cache_idx w.ring_cache_start_offset base written

-- The log stands for the bytes that were appended from the offset `base` on.
pub record Represents (w : Swal) (base : ℕ) (written : List ℕ) : Type 0 where
  pub in_file : Holds w.options.max_file_size w.meta.log_file_pos w.file written
  pub ends : w.meta.log_end_offset ≡ base + length written
  pub begins : w.meta.log_start_offset ≡ base + (length written - w.options.max_file_size)
  pub in_cache :
      CacheHolds w.ring_cache w.options.ring_cache_size w.ring_cache_idx w.ring_cache_start_offset
        base written

-- How the first offset of a ring moves when bytes are appended.
window_start_lem :
    (size base n m : ℕ)
    → window_start size (base + (n - size)) (base + n + m) ≡ base + ((n + m) - size)
unfolding window_start
window_start_lem size base n m = ground arith

IsCache-write_ring :
    (size idx first base : ℕ) (block written log : List ℕ)
    → IsCache size idx first base block written
    → let (idx', block') = write_ring (length log) size idx log block in
      IsCache size idx'
        (window_start size first (base + length written + length log))
        base
        block'
        (written ++ log)
IsCache-write_ring size idx first base block written log c = record {
  old = c.old;
  recent = c.recent ++ log;
  split = ap (λ l. l ++ log) c.split ∙ append_assoc c.old c.recent log;
  holds = Holds-write_ring size idx log block c.recent c.holds;
  begins =
      ap₂ (window_start size) {v = (base + length c.old) + length c.recent + length log} c.begins
        (omega (arith, ap length c.split, length-append c.old c.recent))
      ∙ window_start_lem size (base + length c.old) (length c.recent) (length log)
      ∙ ap (λ k. (base + length c.old) + (k - size)) (sym (length-append c.recent log));
}

append_no_cache :
    (log : List ℕ) (last : ℕ) (w : Swal) → w.ring_cache ≡ none → append_cache log last w ≡ w
unfolding append_cache
append_no_cache log last w e = ground arith

append_cached :
    (log block : List ℕ) (last : ℕ) (w : Swal)
    → w.ring_cache ≡ some block
    → let (idx, block') =
        write_ring (length log) w.options.ring_cache_size w.ring_cache_idx log block in
      append_cache log last w ≡ record w {
        ring_cache = some block';
        ring_cache_idx = idx;
        ring_cache_start_offset =
            window_start w.options.ring_cache_size w.ring_cache_start_offset last;
      }
unfolding append_cache
append_cached log block last w e = ground arith

-- The file's part of an append, then the cache's.
Represents-append_cache :
    (log written : List ℕ) (base : ℕ) (w : Swal)
    → Holds w.options.max_file_size w.meta.log_file_pos w.file (written ++ log)
    → w.meta.log_end_offset ≡ base + length (written ++ log)
    → w.meta.log_start_offset ≡ base + (length (written ++ log) - w.options.max_file_size)
    → CacheHolds w.ring_cache w.options.ring_cache_size w.ring_cache_idx w.ring_cache_start_offset
        base written
    → Represents (append_cache log (base + length written + length log) w) base (written ++ log)
Represents-append_cache log written base w f e b c = elim (Option-cases w.ring_cache) [
  | inl n ↦ rw (append_no_cache log (base + length written + length log) w n) (record {
    in_file = f;
    ends = e;
    begins = b;
    in_cache = subst (CacheOf w base (written ++ log)) (sym n) tt;
  })
  | inr (block, s) ↦ rw (append_cached log block (base + length written + length log) w s) (record {
    in_file = f;
    ends = e;
    begins = b;
    in_cache =
        IsCache-write_ring w.options.ring_cache_size w.ring_cache_idx w.ring_cache_start_offset base
          block written log (subst (CacheOf w base written) s c);
  })
]

-- Appending to a log that represents some bytes gives one that represents these bytes with the
-- appended ones behind them: the file's ring, and the cache's where there is one, hold the newest
-- of the bytes, and the start offsets and the end offset are those of these windows.
pub Represents-swal_append :
    (log written : List ℕ) (base : ℕ) (w : Swal)
    → Represents w base written
    → Represents (swal_append log w) base (written ++ log)
unfolding swal_append append_file
Represents-swal_append log written base w r =
    let size = w.options.max_file_size in
    let total = length-append written log in
    subst (λ last. Represents (append_cache log last (append_file log w)) base (written ++ log))
      (ap (λ k. k + length log) (sym r.ends))
      (Represents-append_cache log written base (append_file log w)
        (Holds-write_ring size w.meta.log_file_pos log w.file written r.in_file)
        (omega (arith, r.ends, total))
        (ap₂ (window_start size) {v = base + length written + length log} r.begins
            (ap (λ k. k + length log) r.ends)
          ∙ window_start_lem size base (length written) (length log)
          ∙ ap (λ k. base + (k - size)) (sym total))
        r.in_cache)

-- A cache, where there is one, is a block of its size.
abbrev pub CacheSize : ℕ → Option (List ℕ) → Type 0
CacheSize size none = Unit {0}
CacheSize size (some block) = (length block ≡ size) × (0 < size)

-- The blocks have their sizes, and are not empty.
pub record IsReady (w : Swal) : Type 0 where
  pub file_full : length w.file ≡ w.options.max_file_size
  pub file_some : 0 < w.options.max_file_size
  pub cache_full : CacheSize w.options.ring_cache_size w.ring_cache

Holds-start : (size : ℕ) (block : List ℕ) → length block ≡ size → 0 < size → Holds size 0 block []
Holds-start size block e h = record {
  ring = record { full = e; inside = h };
  first = block;
  first_full = e;
  newest = refl;
}

IsCache-start :
    (size offset : ℕ) (block : List ℕ)
    → length block ≡ size
    → 0 < size
    → IsCache size 0 offset offset block []
IsCache-start size offset block e h = record {
  old = [];
  recent = [];
  split = refl;
  holds = Holds-start size block e h;
  begins = omega arith;
}

reset_meta : ℕ → ℕ → SwalMeta
reset_meta offset cksm = record {
  log_start_offset = offset;
  log_end_offset = offset;
  log_file_pos = 0;
  cksm = cksm;
}

reset_no_cache :
    (offset cksm : ℕ) (w : Swal)
    → w.ring_cache ≡ none
    → swal_reset offset cksm w ≡ record w { meta = reset_meta offset cksm }
unfolding swal_reset reset_meta
reset_no_cache offset cksm w e = ground arith

reset_cached :
    (offset cksm : ℕ) (block : List ℕ) (w : Swal)
    → w.ring_cache ≡ some block
    → swal_reset offset cksm w ≡ record w {
      meta = reset_meta offset cksm;
      ring_cache_start_offset = offset;
      ring_cache_idx = 0;
    }
unfolding swal_reset reset_meta
reset_cached offset cksm block w e = ground arith

pub Represents-swal_reset :
    (offset cksm : ℕ) (w : Swal) → IsReady w → Represents (swal_reset offset cksm w) offset []
unfolding reset_meta
Represents-swal_reset offset cksm w r = elim (Option-cases w.ring_cache) [
  | inl n ↦ rw (reset_no_cache offset cksm w n) (record {
    in_file = Holds-start w.options.max_file_size w.file r.file_full r.file_some;
    ends = omega arith;
    begins = omega arith;
    in_cache = subst (CacheOf w offset []) (sym n) tt;
  })
  | inr (block, s) ↦
      let sized = subst (CacheSize w.options.ring_cache_size) s r.cache_full in
      rw (reset_cached offset cksm block w s) (record {
        in_file = Holds-start w.options.max_file_size w.file r.file_full r.file_some;
        ends = omega arith;
        begins = omega arith;
        in_cache =
            subst (λ o. CacheHolds o w.options.ring_cache_size 0 offset offset []) (sym s)
              (IsCache-start w.options.ring_cache_size offset block sized.0 sized.1);
      })
]
