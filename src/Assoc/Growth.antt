-- ===== src/Assoc/Growth.antt =====
-- The maintenance thread: growing the table, and the migration that follows, round by round.
use analysis_memcached.Prelude.{
  ℕ, suc, ◌+◌, ◌-◌, ◌≤◌, ◌≡◌, refl, ap, ◌∙◌, Bool, true, false, List, [], ◌∷◌, if◌then◌else◌, arith,
  if_elim,
}
use native.Mathlib.Nat.{one-le-pow}
use analysis_memcached.Assoc.{
  Key, Table, bucket, hashsize, in_old, move_bucket, maintenance_round, assoc_expand,
  assoc_start_expand, bulk_move, maintenance_turn, is_full,
}
use analysis_memcached.Assoc.Chain.{count}
use analysis_memcached.Assoc.Invariant.{IsValid, view}
use analysis_memcached.Assoc.Migration.{view-move_bucket, move_bucket-IsValid}

-- The old buckets that are still to be moved.
unfoldable pub remaining : Table → ℕ
remaining t = if t.expanding then hashsize (t.hashpower - 1) - t.expand_bucket else 0

abbrev pub granted : List Bool → ℕ
granted [] = 0
granted (true ∷ rest) = suc (granted rest)
granted (false ∷ rest) = granted rest

module _ (key : ℕ → Key) (hash : Key → ℕ) where
  -- Tables that are valid and give every key the same item.
  abbrev pub Keeps : Table → Table → Type 0
  Keeps t u = IsValid key hash u × ((k : Key) → view key hash u k ≡ view key hash t k)

  module _ (t : Table) (v : IsValid key hash t) where
    expanded-IsValid : t.expanding ≡ false → IsValid key hash (assoc_expand t true)
    unfolding assoc_expand count hashsize
    expanded-IsValid e = record {
      once_primary = λ k b. omega arith;
      once_old = λ k b. v.once_primary k b;
      home_old = λ k b x n. ground (arith, v.home_primary k b, hashpower_back);
      home_primary = λ k b n. absurd (omega (arith, n));
      apart = λ k b i. refl;
      grown = λ x. omega arith;
      pending = λ x. one-le-pow (t.hashpower + 1 - 1) 2 (omega arith);
    }
      where
        hashpower_back : t.hashpower + 1 - 1 ≡ t.hashpower
        hashpower_back = omega arith

    view-expanded :
        t.expanding ≡ false → (k : Key) → view key hash (assoc_expand t true) k ≡ view key hash t k
    unfolding assoc_expand view
    view-expanded e k =
        let back : t.hashpower + 1 - 1 ≡ t.hashpower = omega arith in
        ground (arith, ap (bucket (hash k)) back)

    unchanged-IsValid : t.expanding ≡ false → IsValid key hash (assoc_expand t false)
    unfolding assoc_expand
    unchanged-IsValid e = record {
      once_primary = λ k b. v.once_primary k b;
      once_old = λ k b. v.once_primary k b;
      home_old = λ k b x n. ground arith;
      home_primary = λ k b n. v.home_primary k b n;
      apart = λ k b i. absurd (unfold in_old in ground arith);
      grown = λ x. ground arith;
      pending = λ x. ground arith;
    }

    view-unchanged :
        t.expanding ≡ false → (k : Key) → view key hash (assoc_expand t false) k ≡ view key hash t k
    unfolding assoc_expand view
    view-unchanged e k = ground arith

    -- Growing a valid table that is not expanding, and failing to for want of memory, both keep the
    -- table valid and change no lookup.
    pub expand-Keeps : (allocated : Bool) → t.expanding ≡ false → Keeps t (assoc_expand t allocated)
    expand-Keeps true e = (expanded-IsValid e, view-expanded e)
    expand-Keeps false e = (unchanged-IsValid e, view-unchanged e)

    -- So does a change of the flag that requests the growth.
    flagged-Keeps : (b : Bool) → Keeps t (record t { started_expanding = b })
    unfolding view
    flagged-Keeps b = (
      record {
        once_primary = v.once_primary;
        once_old = v.once_old;
        home_old = v.home_old;
        home_primary = v.home_primary;
        apart = λ k b i. v.apart k b (unfold in_old in i);
        grown = v.grown;
        pending = v.pending;
      },
      λ k. refl,
    )

    pub start_expand-Keeps : (n : ℕ) → Keeps t (assoc_start_expand t n)
    unfolding assoc_start_expand
    start_expand-Keeps n =
        if_elim (Keeps t) t.started_expanding (λ _. (v, λ k. refl))
          λ _. if_elim (Keeps t) (is_full t n) (λ _. flagged-Keeps true) (λ _. (v, λ k. refl))

    round-Keeps : (locked : Bool) → Keeps t (maintenance_round key hash t locked)
    unfolding maintenance_round
    round-Keeps false = (v, λ k. refl)
    round-Keeps true =
        if_elim (Keeps t) t.expanding
          (λ e. (move_bucket-IsValid key hash t v e, view-move_bucket key hash t v e))
          (λ _. (v, λ k. refl))

    -- A round that gets the lock takes one bucket off those that remain.
    remaining-round :
        (locked : Bool)
        → remaining (maintenance_round key hash t locked)
          ≡ (if locked then remaining t - 1 else remaining t)
    unfolding maintenance_round remaining move_bucket
    remaining-round false = refl
    remaining-round true = ground (arith, v.pending)

  -- The rounds of one turn keep a valid table valid and change no lookup.
  pub bulk_move-Keeps :
      (rounds : List Bool) (t : Table) → IsValid key hash t → Keeps t (bulk_move key hash t rounds)
  unfolding bulk_move
  bulk_move-Keeps [] t v = (v, λ k. refl)
  bulk_move-Keeps (locked ∷ rest) t v =
      let (w, same) = round-Keeps t v locked in
      let (x, again) = bulk_move-Keeps rest (maintenance_round key hash t locked) w in
      (x, λ k. again k ∙ same k)

  remaining-bulk_move :
      (rounds : List Bool) (t : Table)
      → IsValid key hash t
      → remaining (bulk_move key hash t rounds) ≡ remaining t - granted rounds
  unfolding bulk_move
  remaining-bulk_move [] t v = omega arith
  remaining-bulk_move (locked ∷ rest) t v = ground (
    arith,
    remaining-round t v locked,
    remaining-bulk_move rest (maintenance_round key hash t locked) (round-Keeps t v locked).0,
  )

  finished : (t : Table) → IsValid key hash t → remaining t ≡ 0 → t.expanding ≡ false
  unfolding remaining
  finished t v h = ground (arith, v.pending)

  -- The migration ends: rounds that get the lock as often as there are old buckets left finish it,
  -- however the rounds that miss it are spread.
  pub bulk_move-finishes :
      (t : Table) (rounds : List Bool)
      → IsValid key hash t
      → remaining t ≤ granted rounds
      → (bulk_move key hash t rounds).expanding ≡ false
  bulk_move-finishes t rounds v h =
      let u = bulk_move key hash t rounds in
      finished u (bulk_move-Keeps rounds t v).0 (omega (arith, remaining-bulk_move rounds t v))

  -- A whole turn of the thread, with the wait and the growth, keeps a valid table valid and changes
  -- no lookup.
  pub turn-Keeps :
      (t : Table) (rounds : List Bool) (woken allocated : Bool)
      → IsValid key hash t
      → Keeps t (maintenance_turn key hash t rounds woken allocated)
  unfolding maintenance_turn
  turn-Keeps t rounds woken allocated v =
      let (w, same) = bulk_move-Keeps rounds t v in
      let u = bulk_move key hash t rounds in
      if_elim (Keeps t) u.expanding (λ _. (w, same)) (λ e. after u w same e woken)
    where
      after :
          (u : Table)
          → IsValid key hash u
          → ((k : Key) → view key hash u k ≡ view key hash t k)
          → u.expanding ≡ false
          → (woken : Bool)
          → let idle : Table = record u { started_expanding = false } in
            Keeps t (if woken then assoc_expand idle allocated else idle)
      after u w same e true =
          let (x, again) = flagged-Keeps u w false in
          let idle : Table = record u { started_expanding = false } in
          let (y, more) = expand-Keeps idle x allocated e in (y, λ k. more k ∙ again k ∙ same k)
      after u w same e false =
          let (x, again) = flagged-Keeps u w false in (x, λ k. again k ∙ same k)
