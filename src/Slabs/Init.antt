-- ===== src/Slabs/Init.antt =====
-- slabs_curd/slabs.c: slabs_init, which lays out the size classes. The growth factor is a double:
-- `scaled` is the size that `size *= factor` stores, and `past_largest` tells whether
-- `size >= settings.slab_chunk_size_max / factor`. A table of sizes, if one is given, replaces both.
use native.Mathlib.Nat.{mul-div-le}
use analysis_memcached.Prelude.{
  ℕ, zero, suc, ◌+◌, ◌-◌, ◌*◌, ◌/◌, ◌%◌, ◌≤◌, ◌<◌, ◌≡◌, ◌≢◌, refl, Bool, true, false, Option, none,
  some, ◌==◌, if◌then◌else◌, if_elim, arith,
}
use analysis_memcached.Prelude.Memory.{update}
use analysis_memcached.Item.{Mem, Settings, sizeof_item, power_smallest, max_number_of_slab_classes}
use analysis_memcached.Slabs.{Slabs, SlabClass, no_class, aligned, do_slabs_newslab}
use analysis_memcached.Slabs.Pages.{IsRegion, aligned_lem}

-- The class with chunks of `size` bytes.
unfoldable pub laid_out : Settings → ℕ → SlabClass
laid_out settings size = record no_class { size = size; perslab = settings.slab_page_size / size }

module _ (settings : Settings) (past_largest : ℕ → Bool) (scaled : ℕ → ℕ) where
  -- Whether the loop stops at class `i` when it comes with `size`.
  unfoldable pub stops : Option (ℕ → ℕ) → ℕ → ℕ → Bool
  stops none i size = past_largest size
  stops (some sizes) i size = sizes (i - 1) == 0

  -- The size that class `i` gets, and the one that the loop goes on with.
  unfoldable pub class_size : Option (ℕ → ℕ) → ℕ → ℕ → ℕ
  class_size none i size = aligned size
  class_size (some sizes) i size = aligned (sizes (i - 1))

  unfoldable pub scaled_size : Option (ℕ → ℕ) → ℕ → ℕ
  scaled_size none size = scaled size
  scaled_size (some sizes) size = size

  -- The loop with `left` classes to go: the classes, and where it stopped.
  unfoldable pub init_classes : Option (ℕ → ℕ) → ℕ → ℕ → ℕ → (ℕ → SlabClass) → (ℕ → SlabClass) × ℕ
  unfolding laid_out stops class_size scaled_size
  init_classes sizes zero i size class = (class, i)
  init_classes sizes (suc left) i size class =
      let here = class_size sizes i size in
      let rest =
        init_classes sizes left (i + 1) (scaled_size sizes here)
          (update class i (laid_out settings here)) in
      if stops sizes i size then (class, i) else rest

  -- slabs_init up to slabs_preallocate: `base` is the address of the preallocated memory, 0 if there is
  -- none or malloc failed, and
  -- `malloced` the count that the environment variable for tests gives, or 0.
  unfoldable pub lay_out_slabs : Mem → ℕ → ℕ → ℕ → Option (ℕ → ℕ) → Slabs
  unfolding init_classes
  lay_out_slabs mem limit base malloced sizes =
      let r =
        init_classes sizes (max_number_of_slab_classes - 1 - power_smallest) power_smallest
          (sizeof_item + settings.chunk_size) (λ i. no_class) in
      record {
        mem = mem;
        class = update r.0 r.1 (laid_out settings settings.slab_chunk_size_max);
        mem_limit = limit;
        mem_malloced = malloced;
        mem_limit_reached = false;
        power_largest = r.1;
        mem_base = base;
        mem_current = base;
        mem_avail = if base == 0 then 0 else limit;
      }

-- The loop of slabs_preallocate from class `i` on; `given` are the heap's answers, by class. The
-- result tells whether every class got a page; the code ends the process when one does not.
unfoldable pub slabs_preallocate : Settings → ℕ → Slabs → ℕ → (ℕ → Bool) → (ℕ → ℕ) → Slabs × Bool
unfolding do_slabs_newslab
slabs_preallocate settings zero s i granted given = (s, true)
slabs_preallocate settings (suc left) s i granted given =
    let (t, ok) = do_slabs_newslab settings s i (granted i) (given i) in
    let rest = slabs_preallocate settings left t (i + 1) granted given in
    if ok then rest else (t, false)

-- With `prealloc`, every class gets a page; `malloc_base` is what malloc gives for the whole memory, and the
-- result tells whether the process goes on.
unfoldable pub slabs_init :
    Settings
    → (ℕ → Bool)
    → (ℕ → ℕ)
    → Mem
    → ℕ
    → Bool
    → ℕ
    → ℕ
    → Option (ℕ → ℕ)
    → (ℕ → Bool)
    → (ℕ → ℕ)
    → Slabs × Bool
unfolding slabs_preallocate lay_out_slabs
slabs_init settings past_largest scaled mem limit prealloc malloc_base malloced sizes granted
      given =
    let base = if prealloc then malloc_base else 0 in
    let s = lay_out_slabs settings past_largest scaled mem limit base malloced sizes in
    let all = slabs_preallocate settings s.power_largest s power_smallest granted given in
    if prealloc then all else (s, true)

before : (c q : ℕ) → c ≤ q → (q == c) ≡ false → c < q
before c q h n = ground arith

aligned_zero : (n : ℕ) → (n - n) % 8 ≡ 0
aligned_zero n = omega arith

whole_room : (n l : ℕ) → n ≢ 0 → (if n == 0 then 0 else l) ≡ n + l - n
whole_room n l h = ground arith

-- A class as slabs_init lays it out: chunks of an aligned size, as many as fit a page.
pub record IsLaidOut (settings : Settings) (p : SlabClass) : Type 0 where
  pub aligned_size : p.size % 8 ≡ 0
  pub in_page : p.size * p.perslab ≤ settings.slab_page_size
  pub empty : (p.slabs ≡ 0) × (p.sl_curr ≡ 0) × (p.slots ≡ 0)

module _ (settings : Settings) (past_largest : ℕ → Bool) (scaled : ℕ → ℕ) where
  laid_out-IsLaidOut : (size : ℕ) → size % 8 ≡ 0 → IsLaidOut settings (laid_out settings size)
  unfolding laid_out
  laid_out-IsLaidOut size e = record {
    aligned_size = e;
    in_page = mul-div-le settings.slab_page_size size;
    empty = (refl, refl, refl);
  }

  class_size_aligned :
      (sizes : Option (ℕ → ℕ)) (i size : ℕ)
      → class_size settings past_largest scaled sizes i size % 8 ≡ 0
  unfolding class_size
  class_size_aligned none i size = (aligned_lem size).0
  class_size_aligned (some sizes) i size = (aligned_lem (sizes (i - 1))).0

  extended :
      (sizes : Option (ℕ → ℕ)) (i size : ℕ) (class : ℕ → SlabClass)
      → ((c : ℕ) → 1 ≤ c → c < i → IsLaidOut settings (class c))
      → (c : ℕ) → 1 ≤ c
      → c < i + 1
      → IsLaidOut settings (
          update class i
            (laid_out settings (class_size settings past_largest scaled sizes i size))
            c)
  extended sizes i size class h c one l =
      if_elim (IsLaidOut settings) (i == c)
        (λ _.
          laid_out-IsLaidOut (class_size settings past_largest scaled sizes i size)
            (class_size_aligned sizes i size))
        (λ n. h c one (ground (arith, n)))

  init_classes-IsLaidOut :
      (sizes : Option (ℕ → ℕ)) (left i size : ℕ) (class : ℕ → SlabClass)
      → ((c : ℕ) → 1 ≤ c → c < i → IsLaidOut settings (class c))
      → let r = init_classes settings past_largest scaled sizes left i size class in
        (i ≤ r.1) × (r.1 ≤ i + left) × ((c : ℕ) → 1 ≤ c → c < r.1 → IsLaidOut settings (r.0 c))
  unfolding init_classes
  init_classes-IsLaidOut sizes zero i size class h = (omega arith, omega arith, h)
  init_classes-IsLaidOut sizes (suc left) i size class h =
      let here = class_size settings past_largest scaled sizes i size in
      let more =
        init_classes-IsLaidOut sizes left (i + 1)
          (scaled_size settings past_largest scaled sizes here)
          (update class i (laid_out settings here)) (extended sizes i size class h) in
      if_elim
        (λ (r : (ℕ → SlabClass) × ℕ).
          (i ≤ r.1)
          × (r.1 ≤ i + suc left)
          × ((c : ℕ) → 1 ≤ c → c < r.1 → IsLaidOut settings (r.0 c)))
        (stops settings past_largest scaled sizes i size) (λ _. (omega arith, omega arith, h))
        (λ _. (omega (arith, more.0), omega (arith, more.1), more.2))

  -- With a largest chunk size that is a multiple of 8, slabs_init, before it gives pages to the classes
  -- by slabs_preallocate, leaves a largest class among the 63, each class up to it empty, with chunks
  -- of an aligned size, no more than a page holds, and memory that was taken in one piece free as a
  -- whole.
  pub lay_out_slabs-IsLaidOut :
      (mem : Mem) (limit base malloced : ℕ) (sizes : Option (ℕ → ℕ))
      → settings.slab_chunk_size_max % 8 ≡ 0
      → let s = lay_out_slabs settings past_largest scaled mem limit base malloced sizes in
        (1 ≤ s.power_largest)
        × (s.power_largest ≤ 63)
        × ((c : ℕ) → 1 ≤ c → c ≤ s.power_largest → IsLaidOut settings (s.class c))
        × (base ≢ 0 → IsRegion limit s)
  unfolding lay_out_slabs
  lay_out_slabs-IsLaidOut mem limit base malloced sizes e =
      let size = sizeof_item + settings.chunk_size in
      let r = init_classes settings past_largest scaled sizes 62 1 size (λ i. no_class) in
      let all =
        init_classes-IsLaidOut sizes 62 1 size (λ i. no_class) (λ c a b. absurd (omega arith)) in
      (
        all.0,
        all.1,
        λ c a b.
            if_elim (IsLaidOut settings) (r.1 == c)
              (λ _. laid_out-IsLaidOut settings.slab_chunk_size_max e)
              (λ n. all.2 c a (before c r.1 b n)),
        λ n. record {
          present = n;
          above = omega arith;
          aligned_start = aligned_zero base;
          room = whole_room base limit n;
        },
      )
