-- ===== src/Assoc.antt =====
-- slabs_curd/assoc.c: the hash table of items, and its growth to twice the size one bucket at a
-- time while lookups go on. An item is the number of its place in memory; `key` gives the bytes
-- ITEM_key(it), it->nkey of them, and `hash` is the function that hash_init chose. A bucket's chain
-- through h_next is the list of its items. `hashpower` stays below 64 and `1 << hashpower` does not
-- wrap; `hashpower - 1` is read only while the table expands, when it is at least 1.
pub mod Chain
pub mod Invariant
pub mod Lookup
pub mod Migration
pub mod Growth
pub mod Steps
mod Tests
use analysis_memcached.Prelude.{
  ℕ, zero, suc, ◌+◌, ◌-◌, ◌*◌, ◌/◌, ◌%◌, ◌^◌, Bool, true, false, not, ◌&&◌, Option, none, some,
  List, [], ◌∷◌, length, ltb, leb, ◌==◌, if◌then◌else◌,
}
use analysis_memcached.Prelude.Memory.{update}

abbrev pub Key : Type 0
Key = List ℕ

abbrev pub hashpower_default : ℕ
hashpower_default = 16

abbrev pub hashpower_max : ℕ
hashpower_max = 32

unfoldable pub hashsize : ℕ → ℕ
hashsize n = 2 ^ n

-- hv & hashmask(n)
unfoldable pub bucket : ℕ → ℕ → ℕ
unfolding hashsize
bucket hv n = hv % hashsize n

-- memcmp(a, b, n) == 0 for the first n bytes of each.
unfoldable pub memcmp_eq : Key → Key → ℕ → Bool
memcmp_eq a b zero = true
memcmp_eq (x ∷ a) (y ∷ b) (suc n) = x == y && memcmp_eq a b n
memcmp_eq a b (suc n) = false

unfoldable pub same_key : Key → Key → Bool
same_key a b = length a == length b && memcmp_eq a b (length a)

pub record Table : Type 0 where
  pub hashpower : ℕ
  pub primary : ℕ → List ℕ
  pub old : ℕ → List ℕ
  pub expanding : Bool
  pub started_expanding : Bool
  pub expand_bucket : ℕ

-- `hashtable_init` of 0 leaves the default; a calloc that fails ends the process.
unfoldable pub assoc_init : ℕ → Table
assoc_init hashtable_init = record {
  hashpower = if hashtable_init == 0 then hashpower_default else hashtable_init;
  primary = λ b. [];
  old = λ b. [];
  expanding = false;
  started_expanding = false;
  expand_bucket = 0;
}

-- Whether a hash is still looked up in the old table.
unfoldable pub in_old : Table → ℕ → Bool
in_old t hv = t.expanding && leb t.expand_bucket (bucket hv (t.hashpower - 1))

unfoldable pub chain_for : Table → ℕ → List ℕ
unfolding in_old
chain_for t hv =
    if in_old t hv then t.old (bucket hv (t.hashpower - 1)) else t.primary (bucket hv t.hashpower)

unfoldable pub with_chain : Table → ℕ → List ℕ → Table
unfolding in_old
with_chain t hv c =
    if in_old t hv
    then record t { old = update t.old (bucket hv (t.hashpower - 1)) c }
    else record t { primary = update t.primary (bucket hv t.hashpower) c }

-- The condition of assoc_start_expand on the number of items.
unfoldable pub is_full : Table → ℕ → Bool
unfolding hashsize
is_full t curr_items =
    ltb (hashsize t.hashpower * 3 / 2) curr_items && ltb t.hashpower hashpower_max

unfoldable pub assoc_start_expand : Table → ℕ → Table
unfolding is_full
assoc_start_expand t curr_items =
    if t.started_expanding
    then t
    else if is_full t curr_items
    then record t { started_expanding = true }
    else t

-- `allocated` tells whether calloc gave the larger table.
unfoldable pub assoc_expand : Table → Bool → Table
assoc_expand t true = record t {
  hashpower = t.hashpower + 1;
  primary = λ b. [];
  old = t.primary;
  expanding = true;
  expand_bucket = 0;
}
assoc_expand t false = record t { old = t.primary }

unfoldable pub assoc_insert : Table → ℕ → ℕ → Table
unfolding chain_for with_chain
assoc_insert t it hv = with_chain t hv (it ∷ chain_for t hv)

module _ (key : ℕ → Key) where
  -- The walk along h_next.
  unfoldable pub find_in : Key → List ℕ → Option ℕ
  find_in k [] = none
  find_in k (it ∷ c) = if same_key k (key it) then some it else find_in k c

  unfoldable pub assoc_find : Table → Key → ℕ → Option ℕ
  unfolding find_in chain_for
  assoc_find t k hv = find_in k (chain_for t hv)

  -- The chain without the item that _hashitem_before stops at; `none` if it stops at the end.
  unfoldable pub cut : Key → List ℕ → Option (List ℕ)
  cut k [] = none
  cut k (it ∷ c) =
      let rest = cut k c in
      if same_key k (key it) then some c else elim rest [ none ↦ none | some c' ↦ some (it ∷ c') ]

  -- `none` is the failed assertion on a key that is not in the table.
  unfoldable pub assoc_delete : Table → Key → ℕ → Option Table
  unfolding cut chain_for with_chain
  assoc_delete t k hv = elim (cut k (chain_for t hv)) [
    | none ↦ none
    | some c ↦ some (with_chain t hv c)
  ]

  module _ (hash : Key → ℕ) where
    -- The loop of assoc_maintenance_thread over the items of one old bucket.
    unfoldable pub move_items : ℕ → List ℕ → (ℕ → List ℕ) → ℕ → List ℕ
    move_items n [] primary = primary
    move_items n (it ∷ c) primary =
        let b = bucket (hash (key it)) n in move_items n c (update primary b (it ∷ primary b))

    unfoldable pub move_bucket : Table → Table
    unfolding move_items hashsize
    move_bucket t = record t {
      primary = move_items t.hashpower (t.old t.expand_bucket) t.primary;
      old = update t.old t.expand_bucket [];
      expand_bucket = t.expand_bucket + 1;
      expanding = not (t.expand_bucket + 1 == hashsize (t.hashpower - 1));
    }

    -- One round of the inner loop; `locked` tells whether item_trylock got the bucket's lock.
    unfoldable pub maintenance_round : Table → Bool → Table
    unfolding move_bucket
    maintenance_round t false = t
    maintenance_round t true = if t.expanding then move_bucket t else t

    -- The inner loop over `hash_bulk_move` rounds, which stops once nothing expands.
    unfoldable pub bulk_move : Table → List Bool → Table
    unfolding maintenance_round
    bulk_move t [] = t
    bulk_move t (locked ∷ rest) = bulk_move (maintenance_round t locked) rest

    -- One turn of the thread's outer loop: the rounds, then, when nothing expands, the wait for
    -- the next request and the growth. `woken` is false while the thread waits.
    unfoldable pub maintenance_turn : Table → List Bool → Bool → Bool → Table
    unfolding bulk_move assoc_expand
    maintenance_turn t rounds woken allocated =
        let u = bulk_move t rounds in
        if u.expanding
        then u
        else (let idle : Table = record u { started_expanding = false } in
            if woken then assoc_expand idle allocated else idle)
