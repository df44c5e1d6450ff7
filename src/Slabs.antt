-- ===== src/Slabs.antt =====
-- slabs_curd/slabs.c: the slab allocator. `class` is the array slabclass; a class's page list is
-- the pages' addresses by position. The heap's answers are arguments: `given` is the address that
-- malloc returns (0 when it fails), `granted` tells whether realloc succeeded. Byte counts of
-- type size_t wrap at 2^64.
mod Chunks
pub mod Classes
pub mod Freelist
pub mod Fuel
pub mod Pages
pub mod Split
pub mod Alloc
pub mod Init
pub mod Reassign
mod Tests
unfoldable pub use Chunks.*
use analysis_memcached.Prelude.{
  ℕ, zero, suc, ◌+◌, ◌-◌, ◌*◌, ◌/◌, ◌%◌, ◌^◌, Bool, true, false, not, ◌&&◌, ◌||◌, Option, none,
  some, List, length, ltb, leb, ◌==◌, if◌then◌else◌, sub64,
}
use analysis_memcached.Prelude.Memory.{update}
use analysis_memcached.Item.{
  Item, Mem, Settings, no_flags, only_slabbed, sizeof_item, sizeof_item_chunk, sizeof_cas,
  power_smallest, slab_global_page_pool, chunk_align_bytes, set_prev,
}

-- `granted` tells whether realloc gave the longer list.
unfoldable pub grow_slab_list : Slabs → ℕ → Bool → Slabs × Bool
grow_slab_list s id granted =
    let p = s.class id in
    if p.slabs == p.list_size
    then (if granted
        then (
          set_class s id
              (record p { list_size = if p.list_size == 0 then 16 else p.list_size * 2 }),
          true,
        )
        else (s, false))
    else (s, true)

-- The size up to the next multiple of the alignment.
unfoldable pub aligned : ℕ → ℕ
aligned size =
    if size % chunk_align_bytes == 0
    then size
    else size + (chunk_align_bytes - size % chunk_align_bytes)

unfoldable pub memory_allocate : Slabs → ℕ → ℕ → Slabs × ℕ
unfolding aligned
memory_allocate s size given =
    if s.mem_base == 0
    then (record s { mem_malloced = (s.mem_malloced + size) % 2 ^ 64 }, given)
    else if ltb s.mem_avail size
    then (s, 0)
    else (
      record s {
        mem_current = s.mem_current + aligned size;
        mem_avail = if ltb (aligned size) s.mem_avail then s.mem_avail - aligned size else 0;
        mem_malloced = (s.mem_malloced + aligned size) % 2 ^ 64;
      },
      s.mem_current,
    )

-- 0 is the empty pool.
unfoldable pub get_page_from_global_pool : Slabs → Slabs × ℕ
get_page_from_global_pool s =
    let p = s.class slab_global_page_pool in
    if p.slabs == 0 then (s, 0) else (
      set_class s slab_global_page_pool (record p { slabs = p.slabs - 1 }),
      p.slab_list (p.slabs - 1),
    )

-- memset(ptr, 0, len): every item header that lies in the page reads as zeros.
unfoldable pub cleared : Item
cleared = record {
  next = 0;
  prev = 0;
  time = 0;
  exptime = 0;
  nbytes = 0;
  refcount = 0;
  nsuffix = 0;
  it_flags = no_flags;
  slabs_clsid = 0;
  key = List.[];
  cas = 0;
  value = List.[];
  first_chunk = 0;
  client_flags = 0;
  size = 0;
  used = 0;
  orig_clsid = 0;
  head = 0;
}

unfoldable pub clear_page : Mem → ℕ → ℕ → Mem
unfolding cleared
clear_page m ptr len a = if leb ptr a && ltb a (ptr + len) then cleared else m a

-- `left` chunks from `ptr` on.
unfoldable pub split_chunks : Settings → ℕ → Slabs → ℕ → ℕ → Slabs
unfolding do_slabs_free
split_chunks settings zero s ptr id = s
split_chunks settings (suc left) s ptr id =
    split_chunks settings left (do_slabs_free settings 0 s ptr 0 id) (ptr + (s.class id).size) id

unfoldable pub split_slab_page_into_freelist : Settings → Slabs → ℕ → ℕ → Slabs
unfolding split_chunks
split_slab_page_into_freelist settings s ptr id =
    split_chunks settings (s.class id).perslab s ptr id

unfoldable pub page_length : Settings → SlabClass → ℕ
page_length settings p =
    if settings.slab_reassign || not (settings.slab_chunk_size_max == settings.slab_page_size)
    then settings.slab_page_size
    else p.size * p.perslab

-- The condition under which no new page is given to the class.
unfoldable pub at_limit : Settings → Slabs → ℕ → Bool
unfolding page_length
at_limit settings s id =
    let p = s.class id in
    not (s.mem_limit == 0)
    && ltb s.mem_limit (s.mem_malloced + page_length settings p)
    && ltb 0 p.slabs
    && (s.class slab_global_page_pool).slabs == 0

-- A page from the pool, or a new one.
unfoldable pub obtain_page : Slabs → ℕ → ℕ → Slabs × ℕ
unfolding get_page_from_global_pool memory_allocate
obtain_page s len given =
    let (t, ptr) = get_page_from_global_pool s in
    if ptr == 0 then memory_allocate t len given else (t, ptr)

-- The page's chunks go to the free list, and the page to the class's list.
unfoldable pub install_page : Settings → Slabs → ℕ → ℕ → ℕ → Slabs
unfolding clear_page split_slab_page_into_freelist
install_page settings s ptr len id =
    let split =
      split_slab_page_into_freelist settings (record s { mem = clear_page s.mem ptr len }) ptr id in
    let p = split.class id in
    set_class split id
      (record p { slab_list = update p.slab_list p.slabs ptr; slabs = p.slabs + 1 })

unfoldable pub do_slabs_newslab : Settings → Slabs → ℕ → Bool → ℕ → Slabs × Bool
unfolding at_limit grow_slab_list obtain_page install_page
do_slabs_newslab settings s id granted given =
    let len = page_length settings (s.class id) in
    let (grown, room) = grow_slab_list s id granted in
    let (held, ptr) = obtain_page grown len given in
    if at_limit settings s id
    then (record s { mem_limit_reached = true }, false)
    else if not room
    then (grown, false)
    else if ptr == 0
    then (held, false)
    else (install_page settings held ptr len id, true)

-- The head of a class's free list, handed out.
unfoldable pub pop_free : Slabs → ℕ → ℕ → Slabs × ℕ
pop_free s id size =
    let p = s.class id in
    let it = s.mem p.slots in
    let unlinked = set_prev s.mem it.next 0 in
    let taken = unlinked p.slots in
    (
      set_class
          (record s {
            mem = update unlinked p.slots (record taken {
              it_flags = record (taken.it_flags) { slabbed = false };
              refcount = 1;
            });
          })
          id
          (record p {
            slots = it.next;
            sl_curr = p.sl_curr - 1;
            requested = (p.requested + size) % 2 ^ 64;
          }),
      p.slots,
    )

-- `no_newpage` is the flag SLABS_ALLOC_NO_NEWPAGE. The result 0 is NULL; the byte count that the
-- caller may ask for is the class's `requested` before the call.
unfoldable pub do_slabs_alloc : Settings → Slabs → ℕ → ℕ → Bool → Bool → ℕ → Slabs × ℕ
unfolding do_slabs_newslab pop_free
do_slabs_alloc settings s size id no_newpage granted given =
    let t =
      if (s.class id).sl_curr == 0 && not no_newpage
      then (do_slabs_newslab settings s id granted given).0
      else s in
    if ltb id power_smallest || ltb s.power_largest id
    then (s, 0)
    else if (t.class id).sl_curr == 0
    then (t, 0)
    else pop_free t id size
