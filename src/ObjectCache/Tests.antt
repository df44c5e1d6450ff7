-- ===== src/ObjectCache/Tests.antt =====
-- A cache of objects of 32 bytes, one object that goes in and out, and the theorems there.
use analysis_memcached.Prelude.{ℕ, ◌≡◌, refl, true, false, [], ◌∷◌, arith}
use analysis_memcached.Prelude.Int.{pos}
use analysis_memcached.ObjectCache.{
  Cache, do_cache_alloc, do_cache_free, guard, keep, give_up, cache_destory, destroy_objects,
}
use analysis_memcached.ObjectCache.Stack.{IsValid, free_buffers, alloc-free_object}

-- Everything that a run computes with.
program : Unit {0}
unfolding do_cache_alloc do_cache_free guard keep give_up cache_destory destroy_objects
program = tt

abbrev empty : Cache
empty = record {
  ptr = λ i. 0;
  bufsize = 48;
  freetotal = 1;
  freecurr = 0;
  has_constructor = true;
  has_destructor = true;
  words = λ a. 0;
  cache_error = pos 0;
  calls = [];
}

-- The object at 1008 is out.
abbrev out : Cache
out = (do_cache_alloc empty 1000 true).0

abbrev stacked : Cache
stacked = do_cache_free out 1008 false

out_object : (do_cache_alloc empty 1000 true).1 ≡ 1008
unfolding program
out_object = refl

stacked_buffers : free_buffers stacked ≡ 1000 ∷ []
unfolding program
stacked_buffers = refl

out-IsValid : IsValid out
unfolding program
out-IsValid = record { counted = omega arith; some_room = omega arith; zones = omega arith }

stacked-IsValid : IsValid stacked
unfolding program
stacked-IsValid = record { counted = omega arith; some_room = omega arith; zones = omega arith }

alloc-free_object_example :
    let r = do_cache_alloc (do_cache_free out 1008 false) 0 false in
    (r.1 ≡ 1008) × (free_buffers r.0 ≡ free_buffers out)
alloc-free_object_example =
    alloc-free_object out 1008 0 false false out-IsValid (omega arith) (unfold program in refl)
      (unfold program in refl)

-- A cache whose only place is taken, and an object that comes back.
abbrev crowded : Cache
crowded = record out { freecurr = 1 }

abbrev object : ℕ
object = 1008
