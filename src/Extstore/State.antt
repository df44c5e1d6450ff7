-- ===== src/Extstore/State.antt =====
-- exstore/extstore.c: the engine's state, and the way of an object into a page's write buffer. A stack
-- of pages or buffers along `next` is a list; a page is its index. The mutexes are those that the
-- functions hold, and a signal to the maintenance thread changes no state. Numbers wrap at their widths
-- where the code takes away what it has not tested before; the counts that only grow do not reach
-- theirs.
use analysis_memcached.Prelude.{
  ℕ, zero, suc, ◌+◌, ◌-◌, ◌%◌, ◌^◌, Bool, true, false, not, ◌&&◌, ◌||◌, Option, none, some, List,
  [], ◌∷◌, ◌++◌, length, ltb, leb, ◌==◌, if◌then◌else◌,
}
use analysis_memcached.Prelude.Memory.{update, memcpy}

-- _store_wbuf: `buf` is a function from places in it, and `buf_pos` the place that is written next.
pub record Wbuf : Type 0 where
  pub buf : ℕ → ℕ
  pub buf_pos : ℕ
  pub free : ℕ
  pub size : ℕ
  pub offset : ℕ
  pub full : Bool
  pub flushed : Bool

pub record StorePage : Type 0 where
  pub obj_count : ℕ
  pub bytes_used : ℕ
  pub version : ℕ
  pub refcount : ℕ
  pub allocated : ℕ
  pub written : ℕ
  pub bucket : ℕ
  pub free_bucket : ℕ
  pub active : Bool
  pub closed : Bool
  pub free : Bool
  pub wbuf : Option Wbuf

pub record PageData : Type 0 where
  pub version : ℕ
  pub bytes_used : ℕ
  pub bucket : ℕ
  pub free_bucket : ℕ

pub record Stats : Type 0 where
  pub page_allocs : ℕ
  pub page_evictions : ℕ
  pub page_reclaims : ℕ
  pub objects_evicted : ℕ
  pub objects_read : ℕ
  pub objects_written : ℕ
  pub objects_used : ℕ
  pub bytes_evicted : ℕ
  pub bytes_written : ℕ
  pub bytes_read : ℕ
  pub bytes_used : ℕ
  pub page_data : ℕ → PageData

pub data IoMode : Type 0 where
  io_read : IoMode
  io_write : IoMode

-- obj_io, without its buffer and its callback.
pub record Io : Type 0 where
  pub mode : IoMode
  pub page_id : ℕ
  pub page_version : ℕ
  pub offset : ℕ
  pub len : ℕ

pub record IoThread : Type 0 where
  pub queue : List Io
  pub depth : ℕ

-- `io_stack` is the number of the IOs on the stack of that name.
pub record Engine : Type 0 where
  pub pages : ℕ → StorePage
  pub wbuf_stack : List Wbuf
  pub io_stack : ℕ
  pub io_threads : ℕ → IoThread
  pub page_freelist : List ℕ
  pub page_buckets : ℕ → List ℕ
  pub free_page_buckets : ℕ → List ℕ
  pub page_size : ℕ
  pub version : ℕ
  pub io_threadcount : ℕ
  pub page_count : ℕ
  pub page_free : ℕ
  pub page_bucketcount : ℕ
  pub io_depth : ℕ
  pub stats : Stats

abbrev pub set_page : Engine → ℕ → StorePage → Engine
set_page e p page = record e { pages = update e.pages p page }

-- The first page of a list, where there is one.
abbrev pub first_page : List ℕ → Option ℕ
first_page [] = none
first_page (p ∷ ps) = some p

abbrev pub other_pages : List ℕ → List ℕ
other_pages [] = []
other_pages (p ∷ ps) = ps

-- The free page for a bucket: of the special free list that is asked for, else of the common one.
unfoldable pub take_free : Engine → ℕ → Engine × Option ℕ
take_free e free_bucket =
    let special = e.free_page_buckets free_bucket in
    if not (free_bucket == 0) && ltb 0 (length special)
    then (
      record e { free_page_buckets = update e.free_page_buckets free_bucket (other_pages special) },
      first_page special,
    )
    else (record e { page_freelist = other_pages e.page_freelist }, first_page e.page_freelist)

-- The page becomes the first of its bucket, under a new version.
unfoldable pub activate : Engine → ℕ → ℕ → Engine
activate e bucket p = record e {
  pages = update e.pages p (record (e.pages p) {
    active = true;
    free = false;
    closed = false;
    version = e.version;
    bucket = bucket;
  });
  version = (e.version + 1) % 2 ^ 32;
  page_buckets = update e.page_buckets bucket (p ∷ e.page_buckets bucket);
  page_free = e.page_free - 1;
  stats = record (e.stats) { page_allocs = e.stats.page_allocs + 1 };
}

unfoldable pub allocate_page : Engine → ℕ → ℕ → Engine × Option ℕ
allocate_page e bucket free_bucket =
    let (taken, tmp) = take_free e free_bucket in
    elim tmp [
      | none ↦ (taken, none)
      | some p ↦ ((if ltb 0 e.page_free then activate taken bucket p else taken), some p)
    ]

-- A free buffer at the end of what the page has allocated, if there is one.
unfoldable pub give_wbuf : List Wbuf → Engine → ℕ → Engine
give_wbuf [] e p = e
give_wbuf (w ∷ ws) e p =
    let page = e.pages p in
    record (set_page e p (record page {
      allocated = page.allocated + w.size;
      wbuf = some (record w {
        offset = page.allocated;
        free = w.size;
        buf_pos = 0;
        full = false;
        flushed = false;
      });
    })) { wbuf_stack = ws }

unfoldable pub allocate_wbuf : Engine → ℕ → Engine
allocate_wbuf e p = give_wbuf e.wbuf_stack e p

-- The thread with the smallest queue among the first ones, the first one with an empty queue at
-- once; `low` is none for LLONG_MAX.
unfoldable pub least_depth : (ℕ → IoThread) → ℕ → ℕ → Option (ℕ × ℕ) → Option ℕ
least_depth threads x zero none = none
least_depth threads x zero (some (tid, low)) = some tid
least_depth threads x (suc left) none =
    let more = least_depth threads (x + 1) left (some (x, (threads x).depth)) in
    if (threads x).depth == 0 then some x else more
least_depth threads x (suc left) (some (tid, low)) =
    let found = if ltb (threads x).depth low then (x, (threads x).depth) else (tid, low) in
    let more = least_depth threads (x + 1) left (some found) in
    if (threads x).depth == 0 then some x else more

unfoldable pub get_io_thread : Engine → Option ℕ
get_io_thread e = least_depth e.io_threads 0 e.io_threadcount none

-- A stack of IOs goes to the end of the thread's queue.
unfoldable pub enqueue : IoThread → List Io → IoThread
enqueue t ios = record t { queue = t.queue ++ ios; depth = t.depth + length ios }

-- Without threads the code writes before its array.
unfoldable pub extstore_submit : Engine → List Io → Engine
extstore_submit e ios = elim (get_io_thread e) [
  | none ↦ e
  | some t ↦ record e { io_threads = update e.io_threads t (enqueue (e.io_threads t) ios) }
]

-- memset(b + i, 0, n)
unfoldable pub clear : (ℕ → ℕ) → ℕ → ℕ → ℕ → ℕ
clear b i zero = b
clear b i (suc n) = clear (update b i 0) (suc i) n

-- The page's buffer is sent off, its rest cleared, and takes no more objects.
unfoldable pub submit_wbuf : Engine → ℕ → Wbuf → Engine
submit_wbuf e p w =
    let io : Io = record {
      mode = io_write;
      page_id = p;
      page_version = 0;
      offset = w.offset;
      len = w.size;
    } in
    let sealed = record w { buf = clear w.buf (w.size - w.free) w.free; full = true } in
    extstore_submit
      (record (set_page e p (record (e.pages p) { wbuf = some sealed })) {
        io_stack = e.io_stack - 1;
      })
      (io ∷ [])

abbrev pub takes_none : Option Wbuf → Bool
takes_none none = true
takes_none (some w) = w.full

-- Whether a page can take no buffer and no object.
unfoldable pub is_spent : Engine → StorePage → Bool
is_spent e page = not page.active || takes_none page.wbuf && leb e.page_size page.allocated

unfoldable pub flush_small : Engine → ℕ → ℕ → Engine
flush_small e p len = elim (e.pages p).wbuf [
  | none ↦ e
  | some w ↦ if ltb w.free len && not w.full then submit_wbuf e p w else e
]

unfoldable pub ensure_wbuf : Engine → ℕ → Engine
ensure_wbuf e p = elim (e.pages p).wbuf [
  | none ↦ if ltb (e.pages p).allocated e.page_size then allocate_wbuf e p else e
  | some w ↦ e
]

unfoldable pub has_room : StorePage → ℕ → Bool
has_room page len = elim page.wbuf [ none ↦ false | some w ↦ not w.full && leb len w.free ]

-- The page is asked for room; `none` is the result -1, else the page that the object goes into.
unfoldable pub request_page : Engine → ℕ → ℕ → ℕ → ℕ → Engine × Option ℕ
request_page e bucket free_bucket len p =
    let ready = ensure_wbuf (flush_small e p len) p in
    if is_spent e (e.pages p)
    then ((allocate_page e bucket free_bucket).0, none)
    else (ready, if has_room (ready.pages p) len then some p else none)

unfoldable pub extstore_write_request : Engine → ℕ → ℕ → ℕ → Engine × Option ℕ
extstore_write_request e bucket free_bucket len =
    let (made, fresh) = allocate_page e bucket free_bucket in
    if leb e.page_bucketcount bucket then (e, none) else elim (first_page (e.page_buckets bucket)) [
      | some p ↦ request_page e bucket free_bucket len p
      | none ↦ elim fresh [
        | none ↦ (made, none)
        | some p ↦ request_page made bucket free_bucket len p
      ]
    ]

-- What the caller copies to where the object goes.
unfoldable pub fill_wbuf : Wbuf → List ℕ → Wbuf
fill_wbuf w bytes = record w { buf = memcpy w.buf w.buf_pos bytes }

-- extstore_write of an object whose bytes were copied; the IO gets its place and its page's version.
unfoldable pub write_object : Engine → ℕ → ℕ → Wbuf → Engine × Io
write_object e p len w =
    let page = e.pages p in
    (
      record (set_page e p (record page {
        wbuf = some (record w { buf_pos = w.buf_pos + len; free = w.free - len });
        bytes_used = page.bytes_used + len;
        obj_count = page.obj_count + 1;
      })) {
        stats = record (e.stats) {
          bytes_written = e.stats.bytes_written + len;
          bytes_used = e.stats.bytes_used + len;
          objects_written = e.stats.objects_written + 1;
          objects_used = e.stats.objects_used + 1;
        };
      },
      record {
        mode = io_read;
        page_id = p;
        page_version = page.version;
        offset = w.offset + (w.size - w.free);
        len = len;
      },
    )

-- A page without a buffer is a null dereference.
unfoldable pub extstore_write : Engine → ℕ → List ℕ → Option (Engine × Io)
extstore_write e p bytes = elim (e.pages p).wbuf [
  | none ↦ none
  | some w ↦ some (write_object e p (length bytes) (fill_wbuf w bytes))
]
