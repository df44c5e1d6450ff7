-- ===== src/Assoc/Chain.antt =====
-- One bucket's chain: what a key finds in it, and how often a key stands in it.
use analysis_memcached.Prelude.{
  ℕ, ◌+◌, ◌≡◌, refl, ◌↔◌, inl, inr, Bool, true, false, none, some, List, [], ◌∷◌, length, ==_iff,
  Bool-cases, arith,
}
use analysis_memcached.Assoc.{Key, memcmp_eq, same_key, find_in, cut}

memcmp_eq→eq : (a b : Key) → length a ≡ length b → memcmp_eq a b (length a) ≡ true → a ≡ b
unfolding memcmp_eq
memcmp_eq→eq [] [] h m = refl
memcmp_eq→eq [] (y ∷ b) h m = absurd (omega arith)
memcmp_eq→eq (x ∷ a) [] h m = absurd (omega arith)
memcmp_eq→eq (x ∷ a) (y ∷ b) h m = ground (arith, memcmp_eq→eq a b, ==_iff x y)

memcmp_eq_refl : (a : Key) → memcmp_eq a a (length a) ≡ true
unfolding memcmp_eq
memcmp_eq_refl [] = refl
memcmp_eq_refl (x ∷ a) = ground (arith, memcmp_eq_refl a)

pub same_key_refl : (a : Key) → same_key a a ≡ true
unfolding same_key
same_key_refl a = ground (arith, memcmp_eq_refl a)

-- The comparison of lengths and bytes decides equality of keys.
pub same_key_iff : (a b : Key) → (same_key a b ≡ true) ↔ (a ≡ b)
unfolding same_key
same_key_iff a b = (λ h. ground (arith, memcmp_eq→eq a b), λ e. rw e (same_key_refl b))

abbrev pub hit : Bool → ℕ
hit true = 1
hit false = 0

module _ (key : ℕ → Key) where
  unfoldable pub count : Key → List ℕ → ℕ
  count k [] = 0
  count k (it ∷ c) = hit (same_key k (key it)) + count k c

  pub find_in-absent : (k : Key) (c : List ℕ) → count k c ≡ 0 → find_in key k c ≡ none
  unfolding count find_in
  find_in-absent k [] h = refl
  find_in-absent k (it ∷ c) h = ground (arith, find_in-absent k c)

  pub count-absent : (k : Key) (c : List ℕ) → find_in key k c ≡ none → count k c ≡ 0
  unfolding count find_in
  count-absent k [] h = refl
  count-absent k (it ∷ c) h = ground (arith, count-absent k c)

  -- What is found has the key.
  pub find_in-key : (k : Key) (c : List ℕ) (it : ℕ) → find_in key k c ≡ some it → key it ≡ k
  unfolding find_in
  find_in-key k [] it h = cc
  find_in-key k (p ∷ c) it h = ground (arith, find_in-key k c it, same_key_iff k (key p))

  pub cut-absent : (k : Key) (c : List ℕ) → find_in key k c ≡ none → cut key k c ≡ none
  unfolding cut find_in
  cut-absent k [] h = refl
  cut-absent k (it ∷ c) h = ground (arith, cut-absent k c)

  module _ (k : Key) (p : ℕ) (c : List ℕ) where
    cut_here : same_key k (key p) ≡ true → cut key k (p ∷ c) ≡ some c
    unfolding cut
    cut_here e = rw e

    count_here :
        same_key k (key p) ≡ true → (j : Key) → count j (p ∷ c) ≡ hit (same_key j k) + count j c
    unfolding count
    count_here e j = rw (← (same_key_iff k (key p)).0 e)

    find_here :
        same_key k (key p) ≡ true
        → (j : Key) → same_key j k ≡ false
        → find_in key j c ≡ find_in key j (p ∷ c)
    unfolding find_in
    find_here e j n = rw (← (same_key_iff k (key p)).0 e, n)

    find_later :
        (it : ℕ)
        → find_in key k (p ∷ c) ≡ some it
        → same_key k (key p) ≡ false
        → find_in key k c ≡ some it
    unfolding find_in
    find_later it h e = ground arith

    cut_later :
        (c' : List ℕ)
        → same_key k (key p) ≡ false
        → cut key k c ≡ some c'
        → cut key k (p ∷ c) ≡ some (p ∷ c')
    unfolding cut
    cut_later c' e r = rw (e, r)

    count_later :
        (c' : List ℕ)
        → ((j : Key) → count j c ≡ hit (same_key j k) + count j c')
        → (j : Key) → count j (p ∷ c) ≡ hit (same_key j k) + count j (p ∷ c')
    unfolding count
    count_later c' n j = omega (arith, n j)

    find_past :
        (c' : List ℕ)
        → ((j : Key) → same_key j k ≡ false → find_in key j c' ≡ find_in key j c)
        → (j : Key) → same_key j k ≡ false
        → find_in key j (p ∷ c') ≡ find_in key j (p ∷ c)
    unfolding find_in
    find_past c' f j n = rw (f j n)

  -- A cut takes the key's item out and leaves every other key's items.
  pub cut-present :
      (k : Key) (c : List ℕ) (it : ℕ)
      → find_in key k c ≡ some it
      → (c' : List ℕ) × (cut key k c ≡ some c')
        × ((j : Key) → count j c ≡ hit (same_key j k) + count j c')
        × ((j : Key) → same_key j k ≡ false → find_in key j c' ≡ find_in key j c)
  cut-present k [] it h = absurd (unfold find_in in cc)
  cut-present k (p ∷ c) it h = elim (Bool-cases (same_key k (key p))) [
    | inl e ↦ (c, cut_here k p c e, count_here k p c e, find_here k p c e)
    | inr e ↦
        let (c', r, n, f) = cut-present k c it (find_later k p c it h e) in
        (p ∷ c', cut_later k p c c' e r, count_later k p c c' n, find_past k p c c' f)
  ]
