-- ===== src/Extstore.antt =====
-- exstore/extstore.c: what happens to a page after its objects were written: flushes, reads, deletes, and
-- the maintenance thread that frees and evicts pages. What pread and pwrite give is not modelled.
mod State
pub mod Ages
pub mod Stale
pub mod Room
pub mod Laid
pub mod Objects
pub mod Held
pub mod Init
mod Tests
unfoldable pub use State.*
use analysis_memcached.Prelude.{
  ℕ, zero, suc, ◌+◌, ◌-◌, Bool, true, false, not, ◌&&◌, ◌||◌, Option, none, some, List, [], ◌∷◌,
  length, take, drop, ltb, leb, ◌==◌, if◌then◌else◌, sub32, sub64,
}
use analysis_memcached.Prelude.Memory.{update, read}

-- The buffer has been flushed: the page may go on with another, and is done when it is written whole.
unfoldable pub flushed_page : Engine → ℕ → Wbuf → Engine
flushed_page e p w =
    let page = e.pages p in
    let written = page.written + w.size in
    record (set_page e p (record page {
      written = written;
      wbuf = none;
      active = if written == e.page_size then false else page.active;
    })) { wbuf_stack = record w { flushed = true } ∷ e.wbuf_stack; io_stack = e.io_stack + 1 }

-- The assertion of _wbuf_cb is that the page has the buffer that was flushed.
unfoldable pub wbuf_cb : Engine → ℕ → Engine
wbuf_cb e p = elim (e.pages p).wbuf [ none ↦ e | some w ↦ flushed_page e p w ]

abbrev pub floor_sub : ℕ → ℕ → ℕ
floor_sub a b = if leb b a then a - b else 0

-- The result tells whether the page was still the one that is meant.
unfoldable pub extstore_delete : Engine → ℕ → ℕ → ℕ → ℕ → Engine × Bool
extstore_delete e p page_version count bytes =
    let page = e.pages p in
    if not page.closed && page.version == page_version
    then (
      record (set_page e p (record page {
        bytes_used = floor_sub page.bytes_used bytes;
        obj_count = floor_sub page.obj_count count;
      })) {
        stats = record (e.stats) {
          bytes_used = sub64 e.stats.bytes_used bytes;
          objects_used = sub64 e.stats.objects_used count;
        };
      },
      true,
    )
    else (e, false)

unfoldable pub extstore_check : Engine → ℕ → ℕ → Bool
extstore_check e p page_version = (e.pages p).version == page_version

unfoldable pub extstore_close_page : Engine → ℕ → ℕ → Engine
extstore_close_page e p page_version =
    let page = e.pages p in
    if not page.closed && page.version == page_version
    then set_page e p (record page { closed = true })
    else e

-- A batch of at most io_depth IOs, of one at least, leaves the queue.
unfoldable pub pull_batch : Engine → ℕ → Engine × List Io
pull_batch e t =
    let thread = e.io_threads t in
    let most = if e.io_depth == 0 then 1 else e.io_depth in
    let batch = take most thread.queue in
    (
      record e {
        io_threads = update e.io_threads t (record thread {
          queue = drop most thread.queue;
          depth = sub32 thread.depth (length batch);
        });
      },
      batch,
    )

-- What a read finds: the page is not the one that is meant any more, the bytes are in its buffer, or
-- they are on the disk, for the time of which the page is held.
pub data ReadPlan : Type 0 where
  gone : ReadPlan
  in_wbuf : List ℕ → ReadPlan
  on_disk : ReadPlan

-- The bytes of the buffer from a place in the page on.
unfoldable pub read_from_wbuf : Wbuf → Io → List ℕ
read_from_wbuf w io = read w.buf (io.offset - w.offset) io.len

abbrev count_read : Engine → ℕ → Engine
count_read e len = record e {
  stats = record (e.stats) {
    bytes_read = e.stats.bytes_read + len;
    objects_read = e.stats.objects_read + 1;
  };
}

-- An active page past what was flushed of it has a buffer: the assertion of _read_from_wbuf.
unfoldable pub read_start : Engine → Io → Engine × ReadPlan
read_start e io =
    let page = e.pages io.page_id in
    let held = set_page e io.page_id (record page { refcount = page.refcount + 1 }) in
    if not page.free && not page.closed && page.version == io.page_version
    then (if page.active && leb page.written io.offset
        then (
          count_read e io.len,
          elim page.wbuf [ none ↦ in_wbuf [] | some w ↦ in_wbuf (read_from_wbuf w io) ],
        )
        else (count_read held io.len, on_disk))
    else (e, gone)

unfoldable pub read_done : Engine → ℕ → Engine
read_done e p =
    let page = e.pages p in set_page e p (record page { refcount = sub32 page.refcount 1 })

-- The list without the page.
unfoldable pub unlink_page : ℕ → List ℕ → List ℕ
unlink_page p [] = []
unlink_page p (x ∷ xs) = if x == p then xs else x ∷ unlink_page p xs

abbrev pub reset_page : StorePage → StorePage
reset_page page = record page {
  version = 0;
  obj_count = 0;
  bytes_used = 0;
  allocated = 0;
  written = 0;
  bucket = 0;
  active = false;
  closed = false;
  free = true;
}

unfoldable pub free_page : Engine → ℕ → Engine
free_page e p =
    let page = e.pages p in
    let fb = page.free_bucket in
    record (set_page e p (reset_page page)) {
      page_buckets = update e.page_buckets page.bucket (unlink_page p (e.page_buckets page.bucket));
      free_page_buckets =
          if fb == 0
          then e.free_page_buckets
          else update e.free_page_buckets fb (p ∷ e.free_page_buckets fb);
      page_freelist = if fb == 0 then p ∷ e.page_freelist else e.page_freelist;
      page_free = e.page_free + 1;
      stats = record (e.stats) {
        objects_used = sub64 e.stats.objects_used page.obj_count;
        bytes_used = sub64 e.stats.bytes_used page.bytes_used;
        page_reclaims = e.stats.page_reclaims + 1;
      };
    }

-- What a pass over the pages keeps; `low` is the oldest page that can be evicted, with its version.
pub record Pass : Type 0 where
  pub engine : Engine
  pub do_evict : Bool
  pub low : Option (ℕ × ℕ)
  pub data_of : ℕ → PageData

abbrev pub older : Option (ℕ × ℕ) → ℕ → Bool
older none version = true
older (some (p, low)) version = ltb version low

unfoldable pub maint_page : Pass → ℕ → Pass
maint_page s p =
    let page = s.engine.pages p in
    let seen = record (s.data_of p) { free_bucket = page.free_bucket } in
    let live = ltb 0 page.obj_count && not page.closed in
    let marked =
      if live
      then record s {
        data_of = update s.data_of p (record seen {
          version = page.version;
          bytes_used = page.bytes_used;
          bucket = page.bucket;
        });
        low =
            if page.free_bucket == 0 && older s.low page.version
            then some (p, page.version)
            else s.low;
      }
      else record s { data_of = update s.data_of p seen } in
    if page.active || page.free
    then record s { data_of = update s.data_of p seen }
    else if (page.obj_count == 0 || page.closed) && page.refcount == 0
    then record marked { engine = free_page s.engine p; do_evict = false }
    else marked

-- The pages from `p` on.
unfoldable pub maint_pages : ℕ → ℕ → Pass → Pass
maint_pages p zero s = s
maint_pages p (suc left) s = maint_pages (suc p) left (maint_page s p)

unfoldable pub evict_page : Engine → ℕ → Engine
evict_page e p =
    let page = e.pages p in
    let evicted = record (set_page e p (record page { closed = true })) {
      stats = record (e.stats) {
        page_evictions = e.stats.page_evictions + 1;
        objects_evicted = e.stats.objects_evicted + page.obj_count;
        bytes_evicted = e.stats.bytes_evicted + page.bytes_used;
      };
    } in
    if page.closed then e else if page.refcount == 0 then free_page evicted p else evicted

unfoldable pub evict_low : Pass → Engine
evict_low s =
    if s.do_evict
    then elim s.low [ none ↦ s.engine | some (p, version) ↦ evict_page s.engine p ]
    else s.engine

abbrev no_page_data : PageData
no_page_data = record { version = 0; bytes_used = 0; bucket = 0; free_bucket = 0 }

-- A round of the maintenance thread.
unfoldable pub maint_round : Engine → Engine
maint_round e =
    let start : Pass = record {
      engine = e;
      do_evict = e.page_free == 0 || length e.page_freelist == 0;
      low = none;
      data_of = λ p. no_page_data;
    } in
    let pass = maint_pages 0 e.page_count start in
    let after = evict_low pass in
    record after { stats = record (after.stats) { page_data = pass.data_of } }
