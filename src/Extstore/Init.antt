-- ===== src/Extstore/Init.antt =====
-- exstore/extstore.c: extstore_init. The answers of open and calloc are arguments; the devices' files
-- and the places of the pages in them are not modelled, nor is the start of the threads.
pub mod Laying
pub mod Started
pub mod Freed
use analysis_memcached.Prelude.{
  ℕ, zero, suc, ◌+◌, ◌-◌, ◌*◌, ◌%◌, Bool, true, false, not, ◌&&◌, ◌||◌, ◌⊎◌, inl, inr, Option, none,
  some, List, [], ◌∷◌, length, ltb, leb, ◌==◌, if◌then◌else◌,
}
use analysis_memcached.Prelude.Memory.{update}
use analysis_memcached.Extstore.State.{Wbuf, StorePage, Engine}
use analysis_memcached.Extstore.{no_page_data}

pub record Conf : Type 0 where
  pub page_size : ℕ
  pub page_buckets : ℕ
  pub wbuf_size : ℕ
  pub wbuf_count : ℕ
  pub io_threadcount : ℕ
  pub io_depth : ℕ

-- `opened` tells whether its open succeeds.
pub record ConfFile : Type 0 where
  pub page_count : ℕ
  pub free_bucket : ℕ
  pub opened : Bool

pub data InitError : Type 0 where
  bad_wbuf_size : InitError
  need_more_wbuf : InitError
  need_more_buckets : InitError
  page_wbuf_alignment : InitError
  too_many_pages : InitError
  no_memory : InitError
  open_fail : InitError

abbrev block_size : ℕ
block_size = 1024 * 1024 * 2

-- The tests of the sizes, where those of the buffers are not 0.
unfoldable pub check_conf : Conf → Option InitError
check_conf cf =
    if not (cf.page_size % cf.wbuf_size == 0)
    then some bad_wbuf_size
    else if ltb cf.wbuf_count cf.page_buckets
    then some need_more_wbuf
    else if ltb cf.page_buckets 1
    then some need_more_buckets
    else if not (cf.page_size % block_size == 0) || not (cf.wbuf_size % block_size == 0)
    then some page_wbuf_alignment
    else none

abbrev pub temp_page_count : List ConfFile → ℕ
temp_page_count [] = 0
temp_page_count (f ∷ fs) = f.page_count + temp_page_count fs

abbrev pub all_opened : List ConfFile → Bool
all_opened [] = true
all_opened (f ∷ fs) = f.opened && all_opened fs

unfoldable pub check_files : List ConfFile → Bool → Bool → Option InitError
check_files files engine_made pages_made =
    if not engine_made
    then some no_memory
    else if not (all_opened files)
    then some open_fail
    else if leb 65535 (temp_page_count files)
    then some too_many_pages
    else if not pages_made
    then some no_memory
    else none

abbrev no_file : ConfFile
no_file = record { page_count = 0; free_bucket = 0; opened = false }

abbrev pub file_at : List ConfFile → ℕ → ConfFile
file_at [] i = no_file
file_at (f ∷ fs) zero = f
file_at (f ∷ fs) (suc i) = file_at fs i

-- The first device with pages left among `k` devices from `i` on.
unfoldable pub first_left : (ℕ → ℕ) → ℕ → ℕ → Option ℕ
first_left left i zero = none
first_left left i (suc k) =
    let more = first_left left (suc i) k in if left i == 0 then more else some i

-- The next device with pages left, from `at` on and then from the start; `none` if there is none,
-- where the code would look for one for ever.
unfoldable pub next_file : (ℕ → ℕ) → ℕ → ℕ → Option ℕ
next_file left n at = elim (first_left left at (n - at)) [
  | some i ↦ some i
  | none ↦ first_left left 0 n
]

abbrev pub calloc_page : StorePage
calloc_page = record {
  obj_count = 0;
  bytes_used = 0;
  version = 0;
  refcount = 0;
  allocated = 0;
  written = 0;
  bucket = 0;
  free_bucket = 0;
  active = false;
  closed = false;
  free = false;
  wbuf = none;
}

abbrev pub init_page : ℕ → StorePage
init_page free_bucket = record calloc_page { free_bucket = free_bucket; free = true }

-- The pages from `i` on, interleaved between the devices; `left` counts the pages that a device has left.
unfoldable pub lay_pages :
    List ConfFile → ℕ → ℕ → ℕ → (ℕ → ℕ) → (ℕ → StorePage) → Option (ℕ → StorePage)
unfolding next_file first_left
lay_pages files zero i at left pages = some pages
lay_pages files (suc k) i at left pages = elim (next_file left (length files) at) [
  | none ↦ none
  | some j ↦
      lay_pages files k (suc i) (suc j) (update left j (left j - 1))
        (update pages i (init_page (file_at files j).free_bucket))
]

abbrev pub stack_page : Engine → ℕ → Engine
stack_page e p =
    let fb = (e.pages p).free_bucket in
    record e {
      page_free = e.page_free + 1;
      page_freelist = if fb == 0 then p ∷ e.page_freelist else e.page_freelist;
      free_page_buckets =
          if fb == 0
          then e.free_page_buckets
          else update e.free_page_buckets fb (p ∷ e.free_page_buckets fb);
    }

-- The loop that fills the free lists, from page `i` down to page 1.
unfoldable pub stack_pages : Engine → ℕ → Engine
stack_pages e zero = e
stack_pages e (suc i) = stack_pages (stack_page e (suc i)) i

abbrev wbuf_new : ℕ → Wbuf
wbuf_new size = record {
  buf = λ i. 0;
  buf_pos = 0;
  free = size;
  size = size;
  offset = 0;
  full = false;
  flushed = false;
}

abbrev pub wbufs_new : ℕ → ℕ → List Wbuf
wbufs_new size zero = []
wbufs_new size (suc n) = wbuf_new size ∷ wbufs_new size n

-- The engine in front of the loop that fills the free lists.
abbrev pub blank_engine : List ConfFile → Conf → (ℕ → StorePage) → Engine
blank_engine files cf pages = record {
  pages = pages;
  wbuf_stack = wbufs_new cf.wbuf_size cf.wbuf_count;
  io_stack = cf.wbuf_count;
  io_threads = λ t. record { queue = []; depth = 0 };
  page_freelist = [];
  page_buckets = λ b. [];
  free_page_buckets = λ b. [];
  page_size = cf.page_size;
  version = 1;
  io_threadcount = cf.io_threadcount;
  page_count = temp_page_count files;
  page_free = 0;
  page_bucketcount = cf.page_buckets;
  io_depth = cf.io_depth;
  stats = record {
    page_allocs = 0;
    page_evictions = 0;
    page_reclaims = 0;
    objects_evicted = 0;
    objects_read = 0;
    objects_written = 0;
    objects_used = 0;
    bytes_evicted = 0;
    bytes_written = 0;
    bytes_read = 0;
    bytes_used = 0;
    page_data = λ p. no_page_data;
  };
}

abbrev pub init_pages : List ConfFile → Option (ℕ → StorePage)
init_pages files =
    lay_pages files (temp_page_count files) 0 0 (λ i. (file_at files i).page_count)
      (λ p. calloc_page)

-- The engine, unless a buffer or its IO cannot be made, which the code dereferences all the same.
unfoldable pub init_engine : List ConfFile → Conf → Bool → (ℕ → StorePage) → Option Engine
unfolding stack_pages
init_engine files cf wbufs_made pages =
    if wbufs_made || cf.wbuf_count == 0
    then some (stack_pages (blank_engine files cf pages) (temp_page_count files - 1))
    else none

-- What follows the tests of the sizes; `none` also if the loop over the devices does not end.
unfoldable pub init_devices :
    List ConfFile → Conf → Bool → Bool → Bool → Option (InitError ⊎ Engine)
unfolding init_engine
init_devices files cf engine_made pages_made wbufs_made =
    elim (check_files files engine_made pages_made) [
      | some err ↦ some (inl err)
      | none ↦ elim (init_pages files) [
        | none ↦ none
        | some pages ↦ elim (init_engine files cf wbufs_made pages) [
          | none ↦ none
          | some e ↦ some (inr e)
        ]
      ]
    ]

-- An error or an engine; `none` is a division by zero, a null dereference or a loop without end.
-- `engine_made`, `pages_made` and `wbufs_made` tell whether the calls of calloc for the engine and the
-- pages, and all calls for the buffers, succeed.
unfoldable pub extstore_init :
    List ConfFile → Conf → Bool → Bool → Bool → Option (InitError ⊎ Engine)
unfolding init_devices
extstore_init files cf engine_made pages_made wbufs_made =
    if cf.wbuf_size == 0 then none else elim (check_conf cf) [
      | some err ↦ some (inl err)
      | none ↦ init_devices files cf engine_made pages_made wbufs_made
    ]
