-- ===== src/PrefixStats/Find.antt =====
-- What stats_prefix_find finds: an entry whose prefix begins with the key's prefix, which need not
-- be that prefix.
use mathlib.Core.Path.{subst}
use analysis_memcached.Prelude.{
  append-nil, if_elim, option_cases, ℕ, zero, suc, ◌%◌, ◌≡◌, refl, ap, ◌∙◌, sym, Bool, true, Option,
  none, some, List, [], ◌∷◌, ◌++◌, if◌then◌else◌, arith, inl, inr, Option-cases,
}
use analysis_memcached.PrefixStats.{
  Entry, Prefixes, strncmp_eq, place, new_entry, add_entry, find_prefix, prefix_hash_size,
}

strncmp_eq_self : (prefix more : List ℕ) → strncmp_eq (prefix ++ more) prefix ≡ true
unfolding strncmp_eq
strncmp_eq_self [] [] = refl
strncmp_eq_self [] (y ∷ more) = refl
strncmp_eq_self (x ∷ prefix) more = ground (arith, strncmp_eq_self prefix more)

strncmp_eq-begins :
    (stored prefix : List ℕ)
    → strncmp_eq stored prefix ≡ true
    → (more : List ℕ) × (stored ≡ prefix ++ more)
unfolding strncmp_eq
strncmp_eq-begins stored [] h = (stored, refl)
strncmp_eq-begins [] (x ∷ prefix) h = absurd (cc)
strncmp_eq-begins (y ∷ stored) (x ∷ prefix) h =
    let same : y ≡ x = ground (arith, h) in
    let r = strncmp_eq-begins stored prefix (ground (arith, h)) in
    (r.0, ap (λ c. c ∷ stored) same ∙ ap (λ v. x ∷ v) r.1)

abbrev pub entry_at : List Entry → ℕ → Option Entry
entry_at [] i = none
entry_at (e ∷ chain) zero = some e
entry_at (e ∷ chain) (suc i) = entry_at chain i

-- The entry at a place of a chain is for a prefix that begins with this one.
pub record Begins (chain : List Entry) (i : ℕ) (prefix : List ℕ) : Type 0 where
  pub entry : Entry
  pub here : entry_at chain i ≡ some entry
  pub more : List ℕ
  pub begins : entry.prefix ≡ prefix ++ more

place-Begins :
    (prefix : List ℕ) (chain : List Entry) (i : ℕ)
    → place prefix chain ≡ some i
    → Begins chain i prefix
unfolding place
place-Begins prefix [] i h = absurd (cc)
place-Begins prefix (e ∷ chain) i h =
    if_elim (λ o. o ≡ some i → Begins (e ∷ chain) i prefix) (strncmp_eq e.prefix prefix)
      (λ same m.
        let r = strncmp_eq-begins e.prefix prefix same in
        let first : 0 ≡ i = ap (λ o. elim o [ none ↦ 0 | some n ↦ n ]) m in
        subst (λ n. Begins (e ∷ chain) n prefix) first
          (record { entry = e; here = refl; more = r.0; begins = r.1 }))
      (λ _.
        option_cases (λ o. o ≡ some i → Begins (e ∷ chain) i prefix) (place prefix chain) none
          (λ j. some (suc j)) (λ _ m. absurd (cc))
          (λ j at m.
            let b = place-Begins prefix chain j at in
            let next : suc j ≡ i = ap (λ o. elim o [ none ↦ 0 | some n ↦ n ]) m in
            subst (λ n. Begins (e ∷ chain) n prefix) next
              (record { entry = b.entry; here = b.here; more = b.more; begins = b.begins })))
      h

module _ (hash : List ℕ → ℕ) (delimiter : ℕ) where
  bucket_of : List ℕ → ℕ
  bucket_of prefix = hash prefix % prefix_hash_size

  find_found :
      (s : Prefixes) (prefix : List ℕ) (allocated : Bool) (i : ℕ)
      → place prefix (s.table (bucket_of prefix)) ≡ some i
      → find_prefix hash delimiter s prefix allocated ≡ (s, some (bucket_of prefix, i))
  unfolding find_prefix bucket_of
  find_found s prefix allocated i e = rw (e, find_prefix) refl

  find_missing :
      (s : Prefixes) (prefix : List ℕ) (allocated : Bool)
      → place prefix (s.table (bucket_of prefix)) ≡ none
      → find_prefix hash delimiter s prefix allocated ≡ (
          if allocated
          then (add_entry s (bucket_of prefix) prefix, some (bucket_of prefix, 0))
          else (s, none))
  unfolding find_prefix bucket_of
  find_missing s prefix allocated e = rw (e, find_prefix) refl

  added_place :
      (s : Prefixes) (h : ℕ) (prefix : List ℕ)
      → place prefix ((add_entry s h prefix).table h) ≡ some 0
  unfolding add_entry new_entry place
  added_place s h prefix =
      let same = strncmp_eq_self prefix [] in
      let back = append-nil prefix in ground (arith, same, back)

  -- What a look-up gives: a place in the bucket of the prefix, with an entry for a prefix that begins with
  -- it.
  abbrev pub IsPlaced : List ℕ → Prefixes × Option (ℕ × ℕ) → Type 0
  IsPlaced prefix r =
      (i : ℕ) × (r.1 ≡ some (hash prefix % prefix_hash_size, i))
      × Begins (r.0.table (hash prefix % prefix_hash_size)) i prefix

  found-IsPlaced :
      (s : Prefixes) (prefix : List ℕ) (i : ℕ)
      → place prefix (s.table (bucket_of prefix)) ≡ some i
      → IsPlaced prefix (s, some (bucket_of prefix, i))
  unfolding bucket_of
  found-IsPlaced s prefix i e = (i, refl, place-Begins prefix _ i e)

  -- A look-up of a prefix, with memory for a new entry, gives an entry in the bucket of the prefix, which is
  -- for a prefix that begins with it; the next look-up gives the same entry and makes no further one.
  pub find-again :
      (s : Prefixes) (prefix : List ℕ) (allocated : Bool)
      → let r = find_prefix hash delimiter s prefix true in
        IsPlaced prefix r × (find_prefix hash delimiter r.0 prefix allocated ≡ r)
  find-again s prefix allocated =
      let h = bucket_of prefix in
      let P : Prefixes × Option (ℕ × ℕ) → Type 0 =
        λ r. IsPlaced prefix r × (find_prefix hash delimiter r.0 prefix allocated ≡ r) in
      elim (Option-cases (place prefix (s.table h))) [
        | inl e ↦
            let t = add_entry s h prefix in
            let at = added_place s h prefix in
            subst P (sym (find_missing s prefix true e))
              (found-IsPlaced t prefix 0 at, find_found t prefix allocated 0 at)
        | inr r ↦
            subst P (sym (find_found s prefix true r.0 r.1))
              (found-IsPlaced s prefix r.0 r.1, find_found s prefix allocated r.0 r.1)
      ]

  -- A key is counted under another prefix than its own when an entry for a longer one, which begins
  -- with it, stands first in the bucket: the entry is found, and none is made for the key's prefix.
  pub find_longer :
      (s : Prefixes) (prefix more : List ℕ) (e : Entry) (chain : List Entry) (allocated : Bool)
      → s.table (hash prefix % prefix_hash_size) ≡ e ∷ chain
      → e.prefix ≡ prefix ++ more
      → find_prefix hash delimiter s prefix allocated
        ≡ (s, some (hash prefix % prefix_hash_size, 0))
  unfolding bucket_of
  find_longer s prefix more e chain allocated t p =
      find_found s prefix allocated 0 (ap (place prefix) t ∙ first_place)
    where
      first_place : place prefix (e ∷ chain) ≡ some 0
      first_place =
          unfold place in
          (let same : strncmp_eq e.prefix prefix ≡ true = rw p (strncmp_eq_self prefix more) in
            ground (arith, same))
