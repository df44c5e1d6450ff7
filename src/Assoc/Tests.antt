-- ===== src/Assoc/Tests.antt =====
-- Runs of the hash table with one-byte keys that hash to themselves, and its theorems there.
use analysis_memcached.Prelude.{
  ℕ, ◌≡◌, refl, true, false, some, none, [], ◌∷◌, arith, if◌then◌else◌,
}
use analysis_memcached.Assoc.{
  Key, Table, bucket, memcmp_eq, same_key, chain_for, find_in, assoc_find, assoc_init, assoc_insert,
  assoc_delete, assoc_expand, assoc_start_expand, move_bucket, bulk_move, maintenance_turn,
}
use analysis_memcached.Assoc.Invariant.{IsValid, view, assoc_init-IsValid}
use analysis_memcached.Assoc.Lookup.{insert-IsValid}
use analysis_memcached.Assoc.Migration.{view-move_bucket}
use analysis_memcached.Assoc.Growth.{expand-Keeps, remaining, bulk_move-finishes}

-- Everything that a run computes with.
program : Unit {0}
unfolding bucket memcmp_eq same_key chain_for find_in assoc_find view remaining assoc_init
    assoc_insert assoc_expand assoc_start_expand bulk_move
program = tt

abbrev key : ℕ → Key
key it = it ∷ []

abbrev hash : Key → ℕ
hash [] = 0
hash (x ∷ k) = x

abbrev two_buckets : Table
two_buckets = assoc_init 1

abbrev one_item : Table
one_item = assoc_insert two_buckets 1 1

-- Items 1 and 3 share a bucket until the table has grown.
abbrev two_items : Table
two_items = assoc_insert one_item 3 3

abbrev growing : Table
growing = assoc_expand two_items true

abbrev moved : Table
moved = bulk_move key hash growing (false ∷ true ∷ true ∷ [])

two_buckets-IsValid : IsValid key hash two_buckets
two_buckets-IsValid = (assoc_init-IsValid key hash 1).0

one_item-IsValid : IsValid key hash one_item
one_item-IsValid =
    insert-IsValid key hash two_buckets 1 two_buckets-IsValid (unfold program in refl)

two_items-IsValid : IsValid key hash two_items
two_items-IsValid = insert-IsValid key hash one_item 3 one_item-IsValid (unfold program in refl)

not_growing : two_items.expanding ≡ false
unfolding program
not_growing = refl

growing-IsValid : IsValid key hash growing
growing-IsValid = (expand-Keeps key hash two_items two_items-IsValid true not_growing).0

is_growing : growing.expanding ≡ true
unfolding program
is_growing = refl

chain_before : chain_for two_items 1 ≡ 3 ∷ 1 ∷ []
unfolding program
chain_before = refl

chain_after : chain_for moved 1 ≡ 1 ∷ []
unfolding program
chain_after = refl

found_after : assoc_find key moved (3 ∷ []) 3 ≡ some 3
unfolding program
found_after = refl

requested : (assoc_start_expand two_items 4).started_expanding ≡ true
unfolding program
requested = refl

abbrev After : Table → Key → Type 0
After t k =
    (u : Table) × (assoc_delete key t k (hash k) ≡ some u)
    × ((j : Key) → view key hash u j ≡ (if same_key j k then none else view key hash t j))
    × IsValid key hash u

view-move_bucket_example :
    view key hash (move_bucket key hash growing) (3 ∷ []) ≡ view key hash growing (3 ∷ [])
view-move_bucket_example = view-move_bucket key hash growing growing-IsValid is_growing (3 ∷ [])

bulk_move-finishes_example : moved.expanding ≡ false
bulk_move-finishes_example =
    bulk_move-finishes key hash growing (false ∷ true ∷ true ∷ []) growing-IsValid
      (unfold program in omega arith)

abbrev turned : Table
turned = maintenance_turn key hash growing (true ∷ []) false false
