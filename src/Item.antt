-- ===== src/Item.antt =====
-- slabs_curd/memcached.h: items and chunks in memory, the settings, and the macros on items. An
-- address is a number and 0 is NULL. Chunks of slab pages are read as items or as item_chunks; the
-- two structs share `next`, `prev`, `refcount`, `it_flags` and `slabs_clsid`. `first_chunk` is the
-- address ITEM_data(it), where a chunked item keeps the header of its first chunk; `client_flags`
-- is the number that the suffix holds, as text or as 4 bytes. The hash chain
-- pointer h_next is the hash table's, see Assoc. Sizes are those of a 64-bit build.
pub mod Links
pub mod Bypass
use analysis_memcached.Prelude.{
  ℕ, ◌+◌, ◌%◌, ◌/◌, ◌*◌, Bool, true, false, List, length, ◌==◌, if◌then◌else◌,
}
use analysis_memcached.Prelude.Memory.{update}

-- The bits of it_flags.
pub record Flags : Type 0 where
  pub linked : Bool
  pub cas : Bool
  pub slabbed : Bool
  pub fetched : Bool
  pub active : Bool
  pub chunked : Bool
  pub chunk : Bool

pub record Item : Type 0 where
  pub next : ℕ
  pub prev : ℕ
  pub time : ℕ
  pub exptime : ℕ
  pub nbytes : ℕ
  pub refcount : ℕ
  pub nsuffix : ℕ
  pub it_flags : Flags
  pub slabs_clsid : ℕ
  pub key : List ℕ
  pub cas : ℕ
  pub value : List ℕ
  pub first_chunk : ℕ
  pub client_flags : ℕ
  -- as an item_chunk
  pub size : ℕ
  pub used : ℕ
  pub orig_clsid : ℕ
  pub head : ℕ

abbrev pub Mem : Type 0
Mem = ℕ → Item

abbrev pub no_flags : Flags
no_flags = record {
  linked = false;
  cas = false;
  slabbed = false;
  fetched = false;
  active = false;
  chunked = false;
  chunk = false;
}

-- ITEM_SLABBED alone.
abbrev pub only_slabbed : Flags
only_slabbed = record no_flags { slabbed = true }

abbrev pub sizeof_item : ℕ
sizeof_item = 48

abbrev pub sizeof_item_chunk : ℕ
sizeof_item_chunk = 48

abbrev pub sizeof_cas : ℕ
sizeof_cas = 8

abbrev pub power_smallest : ℕ
power_smallest = 1

abbrev pub slab_global_page_pool : ℕ
slab_global_page_pool = 0

abbrev pub chunk_align_bytes : ℕ
chunk_align_bytes = 8

abbrev pub max_number_of_slab_classes : ℕ
max_number_of_slab_classes = 63 + 1

abbrev pub item_update_interval : ℕ
item_update_interval = 60

unfoldable pub item_get_cas : Item → ℕ
item_get_cas it = if it.it_flags.cas then it.cas else 0

unfoldable pub item_set_cas : Item → ℕ → Item
item_set_cas it v = if it.it_flags.cas then record it { cas = v } else it

unfoldable pub item_ntotal : Item → ℕ
item_ntotal it =
    sizeof_item
    + length it.key
    + 1
    + it.nsuffix
    + it.nbytes
    + (if it.it_flags.cas then sizeof_cas else 0)

-- slabs_clsid holds the class in its low six bits and the LRU in its high two.
unfoldable pub item_clsid : Item → ℕ
item_clsid it = it.slabs_clsid % 64

unfoldable pub item_lruid : Item → ℕ
item_lruid it = it.slabs_clsid / 64 * 64

pub record Settings : Type 0 where
  pub oldest_live : ℕ
  pub oldest_cas : ℕ
  pub evict_to_free : Bool
  pub chunk_size : ℕ
  pub use_cas : Bool
  pub item_size_max : ℕ
  pub slab_chunk_size_max : ℕ
  pub slab_page_size : ℕ
  pub lru_segmented : Bool
  pub slab_reassign : Bool
  pub slab_automove : ℕ
  pub hot_lru_pct : ℕ
  pub warm_lru_pct : ℕ
  pub tail_repair_time : ℕ
  pub inline_ascii_response : Bool
  pub temp_lru : Bool
  pub temporary_ttl : ℕ

-- What settings_init sets of these.
abbrev pub default_settings : Settings
default_settings = record {
  oldest_live = 0;
  oldest_cas = 0;
  evict_to_free = true;
  chunk_size = 48;
  use_cas = true;
  item_size_max = 1024 * 1024;
  slab_chunk_size_max = 1024 * 1024 / 2;
  slab_page_size = 1024 * 1024;
  lru_segmented = true;
  slab_reassign = true;
  slab_automove = 1;
  hot_lru_pct = 20;
  warm_lru_pct = 40;
  tail_repair_time = 0;
  inline_ascii_response = false;
  temp_lru = false;
  temporary_ttl = 61;
}

-- A store of a link; through NULL it is skipped, as the code's `if (p)` does.
abbrev pub set_prev : Mem → ℕ → ℕ → Mem
set_prev m p q = if p == 0 then m else update m p (record (m p) { prev = q })

abbrev pub set_next : Mem → ℕ → ℕ → Mem
set_next m p q = if p == 0 then m else update m p (record (m p) { next = q })
