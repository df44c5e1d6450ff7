-- ===== src/Assoc/Steps.antt =====
-- The table under any interleaving of inserts, deletes, requests to grow and maintenance turns.
use mathlib.Core.Path.{subst}
use analysis_memcached.Prelude.{
  ℕ, ◌≡◌, Bool, Option, none, some, List, if◌then◌else◌, Option-cases, inl, inr,
}
use analysis_memcached.Assoc.{
  Key, Table, same_key, assoc_init, assoc_insert, assoc_delete, assoc_start_expand,
  maintenance_turn,
}
use analysis_memcached.Assoc.Invariant.{IsValid, view, assoc_init-IsValid}
use analysis_memcached.Assoc.Lookup.{view-insert, insert-IsValid, delete-present, delete-absent}
use analysis_memcached.Assoc.Growth.{start_expand-Keeps, turn-Keeps}

module _ (key : ℕ → Key) (hash : Key → ℕ) where
  -- What the callers and the maintenance thread may do; an insert is of a key that is not there.
  pub data Step (t : Table) : Table → Type 0 where
    inserts :
        (it : ℕ) → view key hash t (key it) ≡ none → Step t (assoc_insert t it (hash (key it)))
    deletes : (k : Key) (u : Table) → assoc_delete key t k (hash k) ≡ some u → Step t u
    requests : (n : ℕ) → Step t (assoc_start_expand t n)
    turns :
        (rounds : List Bool) (woken allocated : Bool)
        → Step t (maintenance_turn key hash t rounds woken allocated)

  pub data Reach (t : Table) : Table → Type 0 where
    here : Reach t t
    next : {u w : Table} → Reach t u → Step u w → Reach t w

  -- The key had an item and has none any more, and the other keys keep theirs.
  abbrev pub Removed : Key → (Key → Option ℕ) → (Key → Option ℕ) → Type 0
  Removed k f g =
      ((it : ℕ) × (f k ≡ some it)) × ((j : Key) → g j ≡ (if same_key j k then none else f j))

  -- What each step does to the finite map `f` from keys to items, which becomes `g`.
  abbrev pub Effect : {t u : Table} → Step t u → (Key → Option ℕ) → (Key → Option ℕ) → Type 0
  Effect (inserts it h) f g = (k : Key) → g k ≡ (if same_key k (key it) then some it else f k)
  Effect (deletes k u e) f g = Removed k f g
  Effect (requests n) f g = (k : Key) → g k ≡ f k
  Effect (turns rounds woken allocated) f g = (k : Key) → g k ≡ f k

  module _ (t : Table) (v : IsValid key hash t) (k : Key) (u : Table)
      (e : assoc_delete key t k (hash k) ≡ some u) where
    not_absent : view key hash t k ≡ none → ⊥
    not_absent h = cc (delete-absent key hash t v k h)

    removed :
        (it : ℕ)
        → view key hash t k ≡ some it
        → IsValid key hash u × Removed k (view key hash t) (view key hash u)
    removed it h =
        let (w, r, f, x) = delete-present key hash t v k it h in
        let same : w ≡ u = cc in
        subst (λ y. IsValid key hash y × Removed k (view key hash t) (view key hash y)) same
          (x, ((it, h), f))

    delete-Removed : IsValid key hash u × Removed k (view key hash t) (view key hash u)
    delete-Removed = elim (Option-cases (view key hash t k)) [
      | inl h ↦ absurd (not_absent h)
      | inr (it, h) ↦ removed it h
    ]

  pub Step-Effect :
      {t u : Table} (st : Step t u)
      → IsValid key hash t
      → IsValid key hash u × Effect st (view key hash t) (view key hash u)
  Step-Effect {t = t} (inserts it h) v =
      (insert-IsValid key hash t it v h, view-insert key hash t it)
  Step-Effect {t = t} (deletes k u e) v = delete-Removed t v k u e
  Step-Effect {t = t} (requests n) v = start_expand-Keeps key hash t v n
  Step-Effect {t = t} (turns rounds woken allocated) v =
      turn-Keeps key hash t rounds woken allocated v

  -- So every table that can be reached from a fresh one is valid.
  pub Reach-IsValid : (n : ℕ) {t : Table} → Reach (assoc_init n) t → IsValid key hash t
  Reach-IsValid n here = (assoc_init-IsValid key hash n).0
  Reach-IsValid n (next r s) = (Step-Effect s (Reach-IsValid n r)).0
