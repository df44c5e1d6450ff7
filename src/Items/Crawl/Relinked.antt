-- ===== src/Items/Crawl/Relinked.antt =====
-- A list in which a placeholder has swung in front of the item before it.
use mathlib.Core.Path.{subst}
use analysis_memcached.Prelude.{
  ℕ, ◌≡◌, ◌≢◌, ◌⊎◌, refl, sym, ◌∙◌, not, List, [], ◌∷◌, ◌++◌, ◌==◌, if◌then◌else◌, arith, Fresh,
  Distinct, ◌&&◌,
}
use analysis_memcached.Item.{Mem}
use analysis_memcached.Item.Links.{Linked, last, SameLinks, Linked-SameLinks}
use analysis_memcached.Item.Bypass.{first, last-ne, first-ne, Fresh-append-right, Fresh-append-left}
use analysis_memcached.Items.Crawl.Swing.{Swung}

-- The part of a list behind the place where the memory changed.
module _ (m m' : Mem) (pv y it nx : ℕ) (s : Swung m m' pv y it nx) where
  away-SameLinks :
      (xs : List ℕ) → Fresh pv xs → Fresh y xs → Fresh it xs → Fresh nx xs → SameLinks m m' xs
  away-SameLinks [] a b c d = tt
  away-SameLinks (x ∷ xs) a b c d = (
    s.nexts x ∙ ground (arith, a.0, b.0, c.0),
    s.prevs x ∙ ground (arith, b.0, c.0, d.0),
    away-SameLinks xs a.1 b.1 c.1 d.1,
  )

  behind-Linked :
      (ys : List ℕ)
      → Linked m it nx ys
      → Distinct ys
      → Fresh pv ys
      → Fresh y ys
      → Fresh it ys
      → Linked m' y nx ys
  behind-Linked [] l d a b c = l
  behind-Linked (x ∷ ys) l d a b c =
      let t : SameLinks m m' ys =
        away-SameLinks ys a.1 b.1 c.1 (subst (λ n. Fresh n ys) (sym l.0) d.0) in
      (
        l.0,
        l.1,
        s.prevs x ∙ at_next l.0 l.1,
        subst (λ n. Linked m' x n ys) (sym (s.nexts x ∙ after))
            (Linked-SameLinks m m' x (m x).next ys t l.3),
      )
    where
      at_next :
          nx ≡ x
          → x ≢ 0
          → (if x == y
              then it
              else if x == it
              then pv
              else if x == nx && not (nx == 0)
              then y
              else (m x).prev)
            ≡ y
      at_next e z = ground (arith, e, z, b.0, c.0)

      after :
          (if x == pv && not (pv == 0)
            then it
            else if x == it
            then y
            else if x == y
            then nx
            else (m x).next)
          ≡ (m x).next
      after = ground (arith, a.0, b.0, c.0)

  -- Where the list starts after the swing.
  abbrev pub front : List ℕ → ℕ → ℕ
  front [] p = it
  front (x ∷ xs) p = p

  next_front :
      (x : ℕ) (xs ys : List ℕ)
      → x ≢ 0
      → pv ≡ last x xs
      → Fresh x (xs ++ y ∷ it ∷ ys)
      → (m' x).next ≡ front xs (m x).next
  next_front x [] ys z e f = s.nexts x ∙ ground (arith, e, z)
  next_front x (u ∷ xs) ys z e f =
      let far = Fresh-append-right x (u ∷ xs) (y ∷ it ∷ ys) f in
      let ne = last-ne x u xs (Fresh-append-left x (u ∷ xs) (y ∷ it ∷ ys) f) in
      s.nexts x ∙ ground (arith, e, ne, far.0, far.1.0)

  first_of : (b p : ℕ) (ys : List ℕ) → Linked m b p ys → p ≡ first ys
  first_of b p [] l = l
  first_of b p (x ∷ ys) l = l.0

  before_kept :
      (x : ℕ) (ys : List ℕ) {b : ℕ}
      → x ≢ y
      → x ≢ it
      → (first ys ≡ 0) ⊎ (x ≢ first ys)
      → nx ≡ first ys
      → (m x).prev ≡ b
      → (if x == y
          then it
          else if x == it
          then pv
          else if x == nx && not (nx == 0)
          then y
          else (m x).prev)
        ≡ b
  before_kept x ys a c ne n h = ground (arith, a, c, ne, n, h)

  here_prev :
      y ≢ it
      → (if it == y
          then it
          else if it == it
          then pv
          else if it == nx && not (nx == 0)
          then y
          else (m it).prev)
        ≡ pv
  here_prev a = ground (arith, a)

  here_next :
      pv ≢ it
      → (if it == pv && not (pv == 0)
          then it
          else if it == it
          then y
          else if it == y
          then nx
          else (m it).next)
        ≡ y
  here_next a = ground (arith, a)

  passed_prev :
      (if y == y
        then it
        else if y == it
        then pv
        else if y == nx && not (nx == 0)
        then y
        else (m y).prev)
      ≡ it
  passed_prev = ground arith

  passed_next :
      pv ≢ y
      → y ≢ it
      → (if y == pv && not (pv == 0)
          then it
          else if y == it
          then y
          else if y == y
          then nx
          else (m y).next)
        ≡ nx
  passed_next a c = ground (arith, a, c)

  pub swung-Linked :
      (b p : ℕ) (xs ys : List ℕ)
      → pv ≡ last b xs
      → nx ≡ first ys
      → Distinct (xs ++ y ∷ it ∷ ys)
      → Fresh b (xs ++ y ∷ it ∷ ys)
      → Linked m b p (xs ++ y ∷ it ∷ ys)
      → Linked m' b (front xs p) (xs ++ it ∷ y ∷ ys)
  swung-Linked b p [] ys e n d f h =
      let l = h.3 in
      let tail = subst (λ k. Linked m it k ys) (first_of it (m it).next ys l.3 ∙ sym n) l.3 in
      let rest = behind-Linked ys tail d.1.1 (subst (λ k. Fresh k ys) (sym e) f.1.1) d.0.1 d.1.0 in
      (
        refl,
        l.1,
        s.prevs it ∙ here_prev d.0.0 ∙ e,
        (
          s.nexts it ∙ here_next (λ k. f.1.0 (sym e ∙ k)),
          h.1,
          s.prevs y ∙ passed_prev,
          subst (λ k. Linked m' y k ys) (sym (s.nexts y ∙ passed_next (λ k. f.0 (sym e ∙ k)) d.0.0))
              rest,
        ),
      )
  swung-Linked b p (x ∷ xs) ys e n d f h =
      let far = Fresh-append-right x xs (y ∷ it ∷ ys) d.0 in
      let ne = first-ne x ys far.1.1 in
      (
        h.0,
        h.1,
        s.prevs x ∙ before_kept x ys far.0 far.1.0 ne n h.2,
        subst (λ k. Linked m' x k (xs ++ it ∷ y ∷ ys)) (sym (next_front x xs ys h.1 e d.0))
            (swung-Linked x (m x).next xs ys e n d.1 d.0 h.3),
      )
