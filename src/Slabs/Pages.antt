-- ===== src/Slabs/Pages.antt =====
-- Memory for pages: the preallocated region, the pool of free pages, and how a class gets a page.
use analysis_memcached.Prelude.{ℕ, ◌+◌, ◌-◌, ◌%◌, ◌≤◌, ◌<◌, ◌≡◌, ◌≢◌, ◌⊎◌, Bool, true, arith}
use analysis_memcached.Slabs.{Slabs, aligned, memory_allocate, grow_slab_list}

-- The aligned size is the least multiple of the alignment that holds the size.
pub aligned_lem : (n : ℕ) → (aligned n % 8 ≡ 0) × (n ≤ aligned n) × (aligned n < n + 8)
unfolding aligned
aligned_lem n = ground arith

-- The free part of the preallocated region of `limit` bytes: it starts aligned and ends, up to the
-- alignment, where the region does.
pub record IsRegion (limit : ℕ) (s : Slabs) : Type 0 where
  pub present : s.mem_base ≢ 0
  pub above : s.mem_base ≤ s.mem_current
  pub aligned_start : (s.mem_current - s.mem_base) % 8 ≡ 0
  pub room : s.mem_avail ≡ (s.mem_base + limit) - s.mem_current

module _ (limit : ℕ) (s : Slabs) (r : IsRegion limit s) where
  allocated-IsRegion : (size given : ℕ) → IsRegion limit (memory_allocate s size given).0
  unfolding memory_allocate
  allocated-IsRegion size given = record {
    present = ground (arith, r.present);
    above = ground (arith, r.above);
    aligned_start = ground (arith, r.above, r.aligned_start, aligned_lem size);
    room = ground (arith, r.above, r.room, r.present, aligned_lem size);
  }

  -- Memory of at least a byte taken from the preallocated region lies in it, begins where the free part did, at an
  -- aligned distance from its base, and the free part that is left begins behind it; a request for
  -- more than is free gets nothing and changes nothing.
  pub memory_allocate-IsRegion :
      (size given : ℕ)
      → 1 ≤ size
      → let (t, p) = memory_allocate s size given in
        IsRegion limit t
        × (((s.mem_avail < size) × (p ≡ 0) × (t ≡ s))
            ⊎ ((p ≡ s.mem_current)
                × (p + size ≤ s.mem_base + limit)
                × (p + size ≤ t.mem_current)
                × ((p - s.mem_base) % 8 ≡ 0)
                × (t.mem_base ≡ s.mem_base)))
  unfolding memory_allocate
  memory_allocate-IsRegion size given one = (
    allocated-IsRegion size given,
    ground (arith, r.present, r.above, r.room, r.aligned_start, aligned_lem size),
  )

-- A class's list of pages has room for one more after a growth that succeeds.
pub grow_slab_list-room :
    (s : Slabs) (id : ℕ) (granted : Bool)
    → (s.class id).slabs ≤ (s.class id).list_size
    → let (t, room) = grow_slab_list s id granted in
      ((t.class id).slabs ≡ (s.class id).slabs)
      × ((t.class id).slabs ≤ (t.class id).list_size)
      × (room ≡ true → (t.class id).slabs < (t.class id).list_size)
      × (granted ≡ true → room ≡ true)
unfolding grow_slab_list
grow_slab_list-room s id granted h = ground arith
