-- ===== src/ObjectCache/Stack.antt =====
-- The free objects as a stack: the addresses of their buffers, the one freed last first.
use mathlib.Core.Path.{subst}
use analysis_memcached.Prelude.{
  sym, ◌||◌, ℕ, zero, suc, ◌+◌, ◌-◌, ◌≤◌, ◌≡◌, ◌≢◌, refl, ap, ◌∙◌, Bool, true, false, ◌&&◌, ◌||◌,
  List, [], ◌∷◌, ltb, ◌==◌, if◌then◌else◌, arith,
}
use analysis_memcached.Prelude.Memory.{update}
use analysis_memcached.Prelude.Int.{pos}
use analysis_memcached.ObjectCache.{
  Cache, Call, destructor_call, free_call, redzone_pattern, get_object, end_zone, guard,
  do_cache_alloc, do_cache_free, keep, give_up, destroy_objects, cache_destory,
}

abbrev pub stack : (ℕ → ℕ) → ℕ → List ℕ
stack ptr zero = []
stack ptr (suc n) = ptr n ∷ stack ptr n

abbrev pub free_buffers : Cache → List ℕ
free_buffers c = stack c.ptr c.freecurr

-- The array of free buffers has room for those that are in it, and for one at least.
pub record IsValid (c : Cache) : Type 0 where
  pub counted : c.freecurr ≤ c.freetotal
  pub some_room : 1 ≤ c.freetotal
  pub zones : 16 ≤ c.bufsize

-- The test of both red zones that a free makes.
abbrev pub intact : Cache → ℕ → Bool
intact c object =
    c.words (end_zone c object) == redzone_pattern && c.words (object - 8) == redzone_pattern

-- Both red zones of an object are intact.
abbrev pub Guarded : Cache → ℕ → Type 0
Guarded c object =
    (c.words (end_zone c object) ≡ redzone_pattern) × (c.words (object - 8) ≡ redzone_pattern)

stack-above : (ptr : ℕ → ℕ) (n i v : ℕ) → n ≤ i → stack (update ptr i v) n ≡ stack ptr n
stack-above ptr zero i v h = refl
stack-above ptr (suc n) i v h = ground (arith, stack-above ptr n i v)

stack_top : (ptr : ℕ → ℕ) (n : ℕ) → 1 ≤ n → stack ptr n ≡ ptr (n - 1) ∷ stack ptr (n - 1)
stack_top ptr zero h = absurd (omega arith)
stack_top ptr (suc n) h = let e : suc n - 1 ≡ n = omega arith in ground (arith, e)

stack_first :
    (ptr : ℕ → ℕ) (n p : ℕ) (rest : List ℕ)
    → stack ptr n ≡ p ∷ rest
    → (1 ≤ n) × (ptr (n - 1) ≡ p) × (stack ptr (n - 1) ≡ rest)
stack_first ptr zero p rest e = absurd (ground arith)
stack_first ptr (suc n) p rest e = let back : suc n - 1 ≡ n = omega arith in ground (arith, back)

stack-push : (ptr : ℕ → ℕ) (n p : ℕ) → stack (update ptr n p) (n + 1) ≡ p ∷ stack ptr n
stack-push ptr n p =
    let e : n + 1 ≡ suc n = omega arith in
    ap (stack (update ptr n p)) e ∙ ground (arith, stack-above ptr n n p)

module _ (c : Cache) (v : IsValid c) where
  pub alloc-IsValid : (given : ℕ) (built : Bool) → IsValid (do_cache_alloc c given built).0
  unfolding do_cache_alloc guard
  alloc-IsValid given built = record {
    counted = ground (arith, v.counted);
    some_room = ground (arith, v.some_room);
    zones = ground (arith, v.zones);
  }

  pub free-IsValid : (object : ℕ) (granted : Bool) → IsValid (do_cache_free c object granted)
  unfolding do_cache_free keep give_up
  free-IsValid object granted = record {
    counted = ground (arith, v.counted, v.some_room);
    some_room = ground (arith, v.some_room);
    zones = ground (arith, v.zones);
  }

  guard-Guarded :
      (d : Cache) (p : ℕ) → 16 ≤ d.bufsize → Guarded (guard d p (get_object p)).0 (p + 8)
  unfolding guard
  guard-Guarded d p h = let back : p + 8 - 8 ≡ p = omega arith in ground (arith, back)

  guard_rest :
      (d : Cache) (p : ℕ)
      → let (u, object) = guard d p (get_object p) in
        (object ≡ p + 8) × (free_buffers u ≡ free_buffers d) × (u.calls ≡ d.calls)
  unfolding guard
  guard_rest d p = ground arith

  -- With free buffers at hand an allocation takes the one freed last, and calls neither malloc nor
  -- the constructor; the object that it hands out is guarded.
  pub alloc-stack :
      (given : ℕ) (built : Bool) (p : ℕ) (rest : List ℕ)
      → free_buffers c ≡ p ∷ rest
      → let (d, object) = do_cache_alloc c given built in
        (object ≡ p + 8) × (free_buffers d ≡ rest) × Guarded d object × (d.calls ≡ c.calls)
  alloc-stack given built p rest e =
      let popped : Cache = record c { freecurr = c.freecurr - 1 } in
      let f = stack_first c.ptr c.freecurr p rest e in
      let r = guard_rest popped p in
      let g = guard popped p (get_object p) in
      let taken : do_cache_alloc c given built ≡ g = unfold do_cache_alloc in ground (arith, f) in
      subst
        (λ (u : Cache × ℕ).
          (u.1 ≡ p + 8) × (free_buffers u.0 ≡ rest) × Guarded u.0 u.1 × (u.0.calls ≡ c.calls))
        (sym taken)
        (r.0, r.1 ∙ f.2, subst (Guarded g.0) (sym r.0) (guard-Guarded popped p v.zones), r.2)

  -- Freeing an object with its red zones intact stacks its buffer, also when the array has to grow;
  -- when it cannot, the buffer is released and the stack stays. An object with a broken red zone is
  -- reported and the stack stays.
  pub free-stack :
      (object : ℕ) (granted : Bool)
      → let d = do_cache_free c object granted in
        (intact c object ≡ true
          → (d.cache_error ≡ c.cache_error)
            × (free_buffers d ≡ (
                if ltb c.freecurr c.freetotal || granted
                then (object - 8) ∷ free_buffers c
                else free_buffers c)))
        × (intact c object ≡ false → (d.cache_error ≢ pos 0) × (free_buffers d ≡ free_buffers c))
  unfolding do_cache_free keep give_up
  free-stack object granted = (
    λ h. (ground (arith, h), ground (arith, h, stack-push c.ptr c.freecurr (object - 8))),
    λ h. (ground (arith, h), ground (arith, h)),
  )

-- What a free stacks is what the next allocation hands out, and the stack is as before.
pub alloc-free_object :
    (c : Cache) (object given : ℕ) (granted built : Bool)
    → IsValid c
    → 8 ≤ object
    → intact c object ≡ true
    → (ltb c.freecurr c.freetotal || granted) ≡ true
    → let r = do_cache_alloc (do_cache_free c object granted) given built in
      (r.1 ≡ object) × (free_buffers r.0 ≡ free_buffers c)
alloc-free_object c object given granted built v low ok room =
    let d = do_cache_free c object granted in
    let stacked : free_buffers d ≡ (object - 8) ∷ free_buffers c =
      ((free-stack c v object granted).0 ok).1 ∙ ground (arith, room) in
    let r =
      alloc-stack d (free-IsValid c v object granted) given built (object - 8) (free_buffers c)
        stacked in
    (r.0 ∙ omega arith, r.1)

-- The log of a release of the buffers of a list, each object passed to the destructor if there is
-- one.
abbrev pub released : Bool → List ℕ → List Call → List Call
released b [] log = log
released b (p ∷ rest) log =
    released b rest (free_call p ∷ (if b then destructor_call (get_object p) ∷ log else log))

destroy_objects-releases :
    (n : ℕ) (c : Cache)
    → ((destroy_objects n c).freecurr ≡ (if n == 0 then c.freecurr else 0))
      × ((destroy_objects n c).calls ≡ released c.has_destructor (stack c.ptr n) c.calls)
unfolding destroy_objects
destroy_objects-releases zero c = (refl, refl)
destroy_objects-releases (suc n) c =
    let p = c.ptr n in
    let log = if c.has_destructor then destructor_call (get_object p) ∷ c.calls else c.calls in
    let r = destroy_objects-releases n (record c { freecurr = n; calls = free_call p ∷ log }) in
    (ground (arith, r.0), r.1)

-- The destruction of a cache releases every free buffer once, and passes each object to the
-- destructor.
pub destory-releases :
    (c : Cache)
    → ((cache_destory c).freecurr ≡ 0)
      × ((cache_destory c).calls ≡ released c.has_destructor (free_buffers c) c.calls)
unfolding cache_destory
destory-releases c = let r = destroy_objects-releases c.freecurr c in (ground (arith, r.0), r.1)

-- An intact object that no array has room for is passed to the destructor, when there is one, by
-- the address of the red zone before it.
pub free_misaddressed :
    (c : Cache) (object : ℕ)
    → 8 ≤ object
    → intact c object ≡ true
    → c.freecurr ≡ c.freetotal
    → c.has_destructor ≡ true
    → ((do_cache_free c object false).calls
        ≡ free_call (object - 8) ∷ destructor_call (object - 8) ∷ c.calls)
      × (object - 8 ≢ object)
unfolding do_cache_free keep give_up
free_misaddressed c object low ok full d = (ground (arith, ok, full, d), λ e. omega (arith, e))
