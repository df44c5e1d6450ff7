-- ===== src/Extstore/Tests.antt =====
-- An engine of two pages, the first one with a buffer that objects are written to.
use analysis_memcached.Prelude.{
  ℕ, ◌+◌, ◌^◌, ◌≤◌, ◌<◌, ◌≡◌, ◌≢◌, inr, refl, sym, true, false, none, some, List, [], ◌∷◌, ◌==◌,
  if◌then◌else◌, arith,
}
use analysis_memcached.Prelude.Memory.{update}
use analysis_memcached.Extstore.{
  Wbuf, StorePage, Io, Engine, io_read, no_page_data, free_page, extstore_write_request,
  allocate_page, take_free, activate, request_page, is_spent, ensure_wbuf, flush_small,
  allocate_wbuf, give_wbuf, has_room, unlink_page, extstore_check, read_start, gone, in_wbuf,
  write_object, fill_wbuf,
}
use analysis_memcached.Extstore.Stale.{here, next, request}
use analysis_memcached.Extstore.Room.{Laid, PageLaid, update_all}
use analysis_memcached.Extstore.Held.{write, unwritten, write-read}
use analysis_memcached.Extstore.Init.{
  Conf, ConfFile, check_conf, check_files, first_left, next_file, lay_pages, stack_pages,
  calloc_page, init_pages, blank_engine, extstore_init, init_devices, init_engine,
}
use analysis_memcached.Extstore.Init.Freed.{freed-forgotten}
use analysis_memcached.Extstore.Init.Started.{
  AllListed, extstore_init-returns, extstore_init-Laid, extstore_init-AllListed,
}

-- Everything that a start computes with.
program : Unit {0}
unfolding extstore_init init_devices init_engine check_conf check_files lay_pages next_file
    first_left stack_pages
program = tt

-- What the requests of a page compute with.
run_pages : Unit {0}
unfolding extstore_write_request allocate_page take_free activate request_page is_spent ensure_wbuf
    flush_small allocate_wbuf give_wbuf has_room free_page unlink_page
run_pages = tt

abbrev buffer : Wbuf
buffer = record {
  buf = λ i. 0;
  buf_pos = 8;
  free = 24;
  size = 32;
  offset = 32;
  full = false;
  flushed = false;
}

abbrev unused : StorePage
unused = record {
  obj_count = 0;
  bytes_used = 0;
  version = 0;
  refcount = 0;
  allocated = 0;
  written = 0;
  bucket = 0;
  free_bucket = 0;
  active = false;
  closed = false;
  free = true;
  wbuf = none;
}

abbrev in_use : StorePage
in_use = record unused {
  version = 5;
  obj_count = 1;
  bytes_used = 8;
  allocated = 64;
  written = 32;
  active = true;
  free = false;
  wbuf = some buffer;
}

abbrev engine : Engine
engine = record {
  pages = update (λ p. unused) 0 in_use;
  wbuf_stack = record buffer { offset = 0; buf_pos = 0; free = 32 } ∷ [];
  io_stack = 1;
  io_threads = λ t. record { queue = []; depth = 0 };
  page_freelist = 1 ∷ [];
  page_buckets = λ b. if b == 0 then 0 ∷ [] else [];
  free_page_buckets = λ b. [];
  page_size = 64;
  version = 6;
  io_threadcount = 1;
  page_count = 2;
  page_free = 1;
  page_bucketcount = 1;
  io_depth = 1;
  stats = record {
    page_allocs = 1;
    page_evictions = 0;
    page_reclaims = 0;
    objects_evicted = 0;
    objects_read = 0;
    objects_written = 1;
    objects_used = 1;
    bytes_evicted = 0;
    bytes_written = 8;
    bytes_read = 0;
    bytes_used = 8;
    page_data = λ p. no_page_data;
  };
}

engine-Laid : Laid 32 engine
engine-Laid = record {
  pages =
      update_all (PageLaid 64 32) (λ p. unused) 0 in_use
        (λ p. record { fits = omega arith; parts = (0, refl); buffer = refl })
        (record { fits = omega arith; parts = (2, refl); buffer = (refl, refl, refl, refl, refl) });
  stack = (refl, tt);
  whole = (2, refl);
}

abbrev object : List ℕ
object = 1 ∷ 2 ∷ 3 ∷ []

-- Behind the object another one is written.
abbrev after_object : Engine
after_object = (write_object engine 0 3 (fill_wbuf buffer object)).0

abbrev second_buffer : Wbuf
second_buffer = record (fill_wbuf buffer object) { buf_pos = 11; free = 21 }

abbrev after_second : Engine
after_second = (write_object after_object 0 2 (fill_wbuf second_buffer (4 ∷ 5 ∷ []))).0

second_here : (after_object.pages 0).wbuf ≡ some second_buffer
unfolding write_object fill_wbuf
second_here = refl

second_fits : 2 ≤ second_buffer.free
second_fits = omega arith

write-read_example :
    let io = (write_object engine 0 3 (fill_wbuf buffer object)).1 in
    (32 ≤ io.offset) × (io.offset + io.len ≤ 64) × ((read_start after_second io).1 ≡ in_wbuf object)
write-read_example =
    write-read 32 engine after_second 0 object buffer engine-Laid refl (omega arith) refl refl
      (write 0 (4 ∷ 5 ∷ []) second_buffer unwritten second_here second_fits)

-- Two devices: two pages for all uses, and one of bucket 1.
abbrev devices : List ConfFile
devices =
    record { page_count = 2; free_bucket = 0; opened = true }
    ∷ record { page_count = 1; free_bucket = 1; opened = true }
    ∷ []

abbrev conf : Conf
conf = record {
  page_size = 4194304;
  page_buckets = 2;
  wbuf_size = 2097152;
  wbuf_count = 4;
  io_threadcount = 1;
  io_depth = 1;
}

abbrev laid_pages : ℕ → StorePage
laid_pages = elim (init_pages devices) [ none ↦ (λ p. calloc_page) | some pages ↦ pages ]

abbrev fresh : Engine
fresh = stack_pages (blank_engine devices conf laid_pages) 2

started : extstore_init devices conf true true true ≡ some (inr fresh)
unfolding program
started = refl

extstore_init-returns_example : extstore_init devices conf true true true ≢ none
extstore_init-returns_example = extstore_init-returns devices conf true true (omega arith)

fresh_versions : fresh.version + 2 < 2 ^ 32
unfolding program
fresh_versions = omega arith

extstore_init-Laid_example : Laid 2097152 (extstore_write_request fresh 0 0 8).0
extstore_init-Laid_example =
    extstore_init-Laid devices conf true true true fresh (extstore_write_request fresh 0 0 8).0
      started (next here (request fresh 0 0 8 fresh_versions))

extstore_init-AllListed_example : AllListed fresh
extstore_init-AllListed_example = extstore_init-AllListed devices conf true true true fresh started

-- Page 2 is given to bucket 0, under version 1, and freed; then the bucket asks for room again.
abbrev given : Engine
given = (extstore_write_request fresh 0 0 8).0

abbrev again : Engine
again = (extstore_write_request (free_page given 2) 0 0 8).0

abbrev old : Io
old = record { mode = io_read; page_id = 2; page_version = 1; offset = 0; len = 8 }

given_version : (given.pages 2).version ≡ 1
unfolding program run_pages
given_version = refl

again_version : (again.pages 2).version ≡ 2
unfolding program run_pages
again_version = refl

given_versions : (free_page given 2).version + 2 < 2 ^ 32
unfolding program run_pages
given_versions = omega arith

freed-forgotten_example : (extstore_check again 2 1 ≡ false) × ((read_start again old).1 ≡ gone)
freed-forgotten_example =
    freed-forgotten devices conf true true true fresh given again 2 old started
      (next here (request fresh 0 0 8 fresh_versions)) (λ e. omega (arith, e, given_version)) refl
      (sym given_version) (next here (request (free_page given 2) 0 0 8 given_versions))
