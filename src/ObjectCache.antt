-- ===== src/ObjectCache.antt =====
-- network/cache.c: the cache of free objects of one size, as built without NDEBUG, with a red zone
-- of eight bytes before and behind each object. `words a` is the 64-bit word at the address `a`.
-- `given` is the address that malloc returns (0 when it fails), `granted` tells whether realloc gave
-- the larger array, and `built` whether the constructor returned 0. `calls` logs, newest first, the
-- calls of the destructor and of free. The mutex is held throughout each function.
pub mod Stack
mod Tests
use analysis_memcached.Prelude.{
  ℕ, zero, suc, ◌+◌, ◌-◌, ◌*◌, Bool, true, false, not, ◌&&◌, Option, none, some, List, [], ◌∷◌, ltb,
  ◌==◌, if◌then◌else◌,
}
use analysis_memcached.Prelude.Memory.{update}
use analysis_memcached.Prelude.Int.{ℤ, pos, negsuc}

pub data Call : Type 0 where
  destructor_call : ℕ → Call
  free_call : ℕ → Call

pub record Cache : Type 0 where
  pub ptr : ℕ → ℕ
  pub bufsize : ℕ
  pub freetotal : ℕ
  pub freecurr : ℕ
  pub has_constructor : Bool
  pub has_destructor : Bool
  pub words : ℕ → ℕ
  pub cache_error : ℤ
  pub calls : List Call

abbrev pub redzone_pattern : ℕ
redzone_pattern = 16045690984503098046

abbrev pub initial_pool_size : ℕ
initial_pool_size = 64

-- `allocated` tells whether all that the function allocates could be allocated.
unfoldable pub cache_create : (ℕ → ℕ) → ℕ → Bool → Bool → Bool → Option Cache
cache_create words bufsize ctor dtor false = none
cache_create words bufsize ctor dtor true = some (record {
  ptr = λ i. 0;
  bufsize = bufsize + 16;
  freetotal = initial_pool_size;
  freecurr = 0;
  has_constructor = ctor;
  has_destructor = dtor;
  words = words;
  cache_error = pos 0;
  calls = [];
})

abbrev pub get_object : ℕ → ℕ
get_object p = p + 8

-- The address of the red zone behind an object.
abbrev pub end_zone : Cache → ℕ → ℕ
end_zone c object = object + c.bufsize - 16

-- Both red zones of the buffer at `p` are written; NULL has none.
unfoldable pub guard : Cache → ℕ → ℕ → Cache × ℕ
guard c p object = if object == 0 then (c, 0) else (
  record c {
    words = update (update c.words p redzone_pattern) (end_zone c (p + 8)) redzone_pattern;
  },
  object,
)

-- The object is the second result, 0 is NULL.
unfoldable pub do_cache_alloc : Cache → ℕ → Bool → Cache × ℕ
unfolding guard
do_cache_alloc c given built =
    if ltb 0 c.freecurr
    then (let p = c.ptr (c.freecurr - 1) in
        guard (record c { freecurr = c.freecurr - 1 }) p (get_object p))
    else if given == 0
    then guard c 0 0
    else if c.has_constructor && not built
    then guard (record c { calls = free_call given ∷ c.calls }) given 0
    else guard c given (get_object given)

unfoldable pub give_up : Cache → ℕ → Cache
give_up c p = record c {
  calls = free_call p ∷ (if c.has_destructor then destructor_call p ∷ c.calls else c.calls);
}

abbrev pub stack_up : Cache → ℕ → Cache
stack_up c p = record c { ptr = update c.ptr c.freecurr p; freecurr = c.freecurr + 1 }

-- The function after the check of the red zones, with the address of the buffer.
unfoldable pub keep : Cache → ℕ → Bool → Cache
unfolding give_up
keep c p granted =
    if ltb c.freecurr c.freetotal
    then stack_up c p
    else if granted
    then stack_up (record c { freetotal = c.freetotal * 2 }) p
    else give_up c p

unfoldable pub do_cache_free : Cache → ℕ → Bool → Cache
unfolding keep
do_cache_free c object granted =
    if not (c.words (end_zone c object) == redzone_pattern)
    then record c { cache_error = pos 1 }
    else if not (c.words (object - 8) == redzone_pattern)
    then record c { cache_error = negsuc 0 }
    else keep c (object - 8) granted

-- The loop of cache_destory over `n` free objects.
unfoldable pub destroy_objects : ℕ → Cache → Cache
destroy_objects zero c = c
destroy_objects (suc n) c =
    let p = c.ptr n in
    let log = if c.has_destructor then destructor_call (get_object p) ∷ c.calls else c.calls in
    destroy_objects n (record c { freecurr = n; calls = free_call p ∷ log })

unfoldable pub cache_destory : Cache → Cache
unfolding destroy_objects
cache_destory c = destroy_objects c.freecurr c
