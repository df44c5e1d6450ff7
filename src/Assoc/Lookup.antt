-- ===== src/Assoc/Lookup.antt =====
-- Insert and delete, seen through the lookups of all keys.
use analysis_memcached.Prelude.{ℕ, ◌+◌, ◌-◌, ◌≡◌, ap, false, none, some, List, if◌then◌else◌, arith}
use analysis_memcached.Assoc.{
  Key, Table, bucket, chain_for, with_chain, same_key, find_in, assoc_insert, assoc_delete, cut,
}
use analysis_memcached.Assoc.Chain.{
  count, hit, same_key_iff, same_key_refl, count-absent, find_in-absent, cut-present, cut-absent,
}
use analysis_memcached.Assoc.Invariant.{IsValid, view}

module _ (key : ℕ → Key) (hash : Key → ℕ) where
  -- After an insert the item is found under its own key, and every other key finds what it did.
  pub view-insert :
      (t : Table) (it : ℕ) (k : Key)
      → view key hash (assoc_insert t it (hash (key it))) k
        ≡ (if same_key k (key it) then some it else view key hash t k)
  unfolding assoc_insert view find_in
  view-insert t it k = ground (arith, same_key_iff k (key it), λ (e : k ≡ key it). ap hash e)

  module _ (t : Table) (it : ℕ) (v : IsValid key hash t) where
    -- An item whose key is not in the table goes in, and the table stays valid.
    pub insert-IsValid :
        view key hash t (key it) ≡ none → IsValid key hash (assoc_insert t it (hash (key it)))
    unfolding assoc_insert view count
    insert-IsValid h =
        let absent : count key (key it) (chain_for t (hash (key it))) ≡ 0 =
          count-absent key (key it) (chain_for t (hash (key it))) h in
        let same = λ (k : Key). same_key_iff k (key it) in
        let hashes = λ (k : Key) (e : k ≡ key it). ap hash e in
        record {
          once_primary = λ k b. ground (arith, v.once_primary k b, same k, hashes k, absent);
          once_old = λ k b. ground (arith, v.once_old k b, same k, hashes k, absent);
          home_old = λ k b e n. ground (arith, v.home_old k b, same k, hashes k);
          home_primary = λ k b n. ground (arith, v.home_primary k b, same k, hashes k);
          apart = λ k b n. ground (arith, v.apart k b, same k, hashes k);
          grown = λ e. ground (arith, v.grown);
          pending = λ e. ground (arith, v.pending);
        }

  -- A chain without the items of one key, in place of the one that the key's hash reads.
  module _ (t : Table) (v : IsValid key hash t) (k : Key) (c : List ℕ)
      (n : (j : Key)
        → count key j (chain_for t (hash k)) ≡ hit (same_key j k) + count key j c) where
    gone : count key k c ≡ 0
    unfolding chain_for
    gone = ground (
      arith,
      n k,
      same_key_refl k,
      v.once_old k (bucket (hash k) (t.hashpower - 1)),
      v.once_primary k (bucket (hash k) t.hashpower),
    )

    view-shorter :
        ((j : Key) → same_key j k ≡ false → find_in key j c ≡ find_in key j (chain_for t (hash k)))
        → (j : Key)
        → view key hash (with_chain t (hash k) c) j
          ≡ (if same_key j k then none else view key hash t j)
    unfolding view chain_for with_chain
    view-shorter f j =
        ground (arith, f j, same_key_iff j k, λ (e : j ≡ k). ap hash e, find_in-absent key k c gone)

    shorter-IsValid : IsValid key hash (with_chain t (hash k) c)
    unfolding chain_for with_chain
    shorter-IsValid = record {
      once_primary = λ j b. ground (arith, v.once_primary j b, n j);
      once_old = λ j b. ground (arith, v.once_old j b, n j);
      home_old = λ j b e p. ground (arith, v.home_old j b, n j);
      home_primary = λ j b p. ground (arith, v.home_primary j b, n j);
      apart = λ j b p. ground (arith, v.apart j b, n j);
      grown = λ e. ground (arith, v.grown);
      pending = λ e. ground (arith, v.pending);
    }

  module _ (t : Table) (v : IsValid key hash t) (k : Key) where
    delete-cut :
        (c : List ℕ)
        → cut key k (chain_for t (hash k)) ≡ some c
        → assoc_delete key t k (hash k) ≡ some (with_chain t (hash k) c)
    unfolding assoc_delete
    delete-cut c r = rw (r, assoc_delete)

    find_here : (p : ℕ) → view key hash t k ≡ some p → find_in key k (chain_for t (hash k)) ≡ some p
    unfolding view
    find_here p h = h

    -- A delete of a key that is in a valid table succeeds; then the key is absent, every other key
    -- finds what it did, and the table is valid.
    pub delete-present :
        (p : ℕ)
        → view key hash t k ≡ some p
        → (u : Table) × (assoc_delete key t k (hash k) ≡ some u)
          × ((j : Key) → view key hash u j ≡ (if same_key j k then none else view key hash t j))
          × IsValid key hash u
    delete-present p h =
        let (c, r, n, f) = cut-present key k (chain_for t (hash k)) p (find_here p h) in
        (
          with_chain t (hash k) c,
          delete-cut c r,
          view-shorter t v k c n f,
          shorter-IsValid t v k c n,
        )

    -- A delete of an absent key is the failed assertion.
    pub delete-absent : view key hash t k ≡ none → assoc_delete key t k (hash k) ≡ none
    unfolding view assoc_delete
    delete-absent h = rw (cut-absent key k (chain_for t (hash k)) h, assoc_delete)
