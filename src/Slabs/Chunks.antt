-- ===== src/Slabs/Chunks.antt =====
-- slabs_curd/slabs.c: the size classes and their free lists.
use analysis_memcached.Prelude.{
  ℕ, zero, suc, ◌+◌, ◌-◌, Bool, not, ◌||◌, length, ltb, ◌==◌, if◌then◌else◌, sub64,
}
use analysis_memcached.Prelude.Memory.{update}
use analysis_memcached.Item.{
  Mem, Settings, only_slabbed, sizeof_item, sizeof_item_chunk, sizeof_cas, power_smallest, set_prev,
}

pub record SlabClass : Type 0 where
  pub size : ℕ
  pub perslab : ℕ
  pub slots : ℕ
  pub sl_curr : ℕ
  pub slabs : ℕ
  pub slab_list : ℕ → ℕ
  pub list_size : ℕ
  pub requested : ℕ

abbrev pub no_class : SlabClass
no_class = record {
  size = 0;
  perslab = 0;
  slots = 0;
  sl_curr = 0;
  slabs = 0;
  slab_list = λ i. 0;
  list_size = 0;
  requested = 0;
}

pub record Slabs : Type 0 where
  pub mem : Mem
  pub class : ℕ → SlabClass
  pub mem_limit : ℕ
  pub mem_malloced : ℕ
  pub mem_limit_reached : Bool
  pub power_largest : ℕ
  pub mem_base : ℕ
  pub mem_current : ℕ
  pub mem_avail : ℕ

abbrev pub set_class : Slabs → ℕ → SlabClass → Slabs
set_class s id p = record s { class = update s.class id p }

-- The loop of slabs_clsid from class `res` on, with one step for each class that is left.
unfoldable pub fitting_class : Slabs → ℕ → ℕ → ℕ → ℕ
fitting_class s size zero res = s.power_largest
fitting_class s size (suc left) res =
    let larger = fitting_class s size left (res + 1) in
    if ltb (s.class res).size size then larger else res

unfoldable pub slabs_clsid : Settings → Slabs → ℕ → ℕ
unfolding fitting_class
slabs_clsid settings s size =
    if size == 0 || ltb settings.item_size_max size
    then 0
    else fitting_class s size (s.power_largest - power_smallest + 1) power_smallest

-- The chunk at `it` becomes the head of class `id`'s free list.
unfoldable pub push_free : Slabs → ℕ → ℕ → ℕ → Slabs
push_free s it id size =
    let p = s.class id in
    let freed =
      update s.mem it (record (s.mem it) {
        it_flags = only_slabbed;
        slabs_clsid = 0;
        prev = 0;
        next = p.slots;
      }) in
    set_class (record s { mem = set_prev freed p.slots it }) id
      (record p { slots = it; sl_curr = p.sl_curr + 1; requested = sub64 p.requested size })

-- The loop of do_slabs_free_chunked over the chunks behind the header; `fuel` bounds their number.
unfoldable pub free_chunks : ℕ → Slabs → ℕ → Slabs
unfolding push_free
free_chunks zero s chunk = s
free_chunks (suc fuel) s chunk =
    let c = s.mem chunk in
    let rest =
      free_chunks fuel (push_free s chunk c.slabs_clsid (c.size + sizeof_item_chunk)) c.next in
    if chunk == 0 then s else rest

unfoldable pub do_slabs_free_chunked : Settings → ℕ → Slabs → ℕ → Slabs
unfolding push_free free_chunks
do_slabs_free_chunked settings fuel s it =
    let header = s.mem it in
    let chunk = s.mem header.first_chunk in
    let header_size =
      length header.key
      + 1
      + header.nsuffix
      + sizeof_item
      + sizeof_item_chunk
      + (if settings.use_cas then sizeof_cas else 0) in
    let detached = set_prev s.mem chunk.next 0 in
    free_chunks fuel (push_free (record s { mem = detached }) it chunk.orig_clsid header_size)
      chunk.next

unfoldable pub do_slabs_free : Settings → ℕ → Slabs → ℕ → ℕ → ℕ → Slabs
unfolding push_free do_slabs_free_chunked
do_slabs_free settings fuel s ptr size id =
    if ltb id power_smallest || ltb s.power_largest id
    then s
    else if not (s.mem ptr).it_flags.chunked
    then push_free s ptr id size
    else do_slabs_free_chunked settings fuel s ptr
