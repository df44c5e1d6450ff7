-- ===== src/Items/Crawl/Swing.antt =====
-- The links after the placeholder of a crawler has swung in front of the item before it.
use analysis_memcached.Prelude.{ℕ, ◌≡◌, ◌≢◌, sym, ap, ◌∙◌, not, ◌==◌, if◌then◌else◌, arith, ◌&&◌}
use analysis_memcached.Item.{Mem}
use analysis_memcached.Items.Crawl.{cut_out, link_before, swing}

cut_next :
    (m : Mem) (it a : ℕ)
    → (m it).prev ≢ 0
    → (cut_out m it a).next ≡ (if a == (m it).prev then (m it).next else (m a).next)
unfolding cut_out
cut_next m it a n = ground arith

cut_prev :
    (m : Mem) (it a : ℕ)
    → (m it).next ≢ it
    → (cut_out m it a).prev
      ≡ (if a == (m it).next && not ((m it).next == 0) then (m it).prev else (m a).prev)
unfolding cut_out
cut_prev m it a n = ground arith

before_next :
    (m : Mem) (it y pv a : ℕ)
    → (m it).prev ≡ y
    → (m y).prev ≡ pv
    → y ≢ 0
    → y ≢ it
    → (link_before m it a).next
      ≡ (if a == pv && not (pv == 0) then it else if a == it then y else (m a).next)
unfolding link_before
before_next m it y pv a e k n z = ground (arith, e, k)

before_prev :
    (m : Mem) (it y pv a : ℕ)
    → (m it).prev ≡ y
    → (m y).prev ≡ pv
    → y ≢ 0
    → y ≢ it
    → (link_before m it a).prev ≡ (if a == y then it else if a == it then pv else (m a).prev)
unfolding link_before
before_prev m it y pv a e k n z = ground (arith, e, k)

-- What the swing does to the links: `pv` is before the item `y` that is passed, `nx` behind `it`.
pub record Swung (m m' : Mem) (pv y it nx : ℕ) : Type 0 where
  pub nexts :
      (a : ℕ)
      → (m' a).next ≡ (
          if a == pv && not (pv == 0)
          then it
          else if a == it
          then y
          else if a == y
          then nx
          else (m a).next)
  pub prevs :
      (a : ℕ)
      → (m' a).prev ≡ (
          if a == y
          then it
          else if a == it
          then pv
          else if a == nx && not (nx == 0)
          then y
          else (m a).prev)

pub swing-Swung :
    (m : Mem) (pv y it nx : ℕ)
    → (m it).prev ≡ y
    → (m it).next ≡ nx
    → (m y).prev ≡ pv
    → y ≢ 0
    → y ≢ it
    → nx ≢ it
    → nx ≢ y
    → Swung m (swing m it) pv y it nx
unfolding swing
swing-Swung m pv y it nx a b c d f g h =
    let n = cut_out m it in
    let at_it : (n it).prev ≡ y = cut_prev m it it (λ e. g (sym b ∙ e)) ∙ self y a b in
    let at_y : (n y).prev ≡ pv = cut_prev m it y (λ e. g (sym b ∙ e)) ∙ passed b c in
    record {
      nexts = λ x.
          before_next n it y pv x at_it at_y d f
          ∙ inner x pv (n x).next (m x).next (cut_next m it x (λ e. d (sym a ∙ e)) ∙ plain x a b);
      prevs = λ x.
          before_prev n it y pv x at_it at_y d f
          ∙ inner_prev x (n x).prev (m x).prev
              (cut_prev m it x (λ e. g (sym b ∙ e)) ∙ plain_prev x a b);
    }
  where
    self :
        (y : ℕ)
        → (m it).prev ≡ y
        → (m it).next ≡ nx
        → (if it == (m it).next && not ((m it).next == 0) then (m it).prev else (m it).prev) ≡ y
    self y a b = ground (arith, a)

    passed :
        (m it).next ≡ nx
        → (m y).prev ≡ pv
        → (if y == (m it).next && not ((m it).next == 0) then (m it).prev else (m y).prev) ≡ pv
    passed b c = ground (arith, b, c, h)

    plain :
        (x : ℕ)
        → (m it).prev ≡ y
        → (m it).next ≡ nx
        → (if x == (m it).prev then (m it).next else (m x).next)
          ≡ (if x == y then nx else (m x).next)
    plain x a b = ground (arith, a, b)

    plain_prev :
        (x : ℕ)
        → (m it).prev ≡ y
        → (m it).next ≡ nx
        → (if x == (m it).next && not ((m it).next == 0) then (m it).prev else (m x).prev)
          ≡ (if x == nx && not (nx == 0) then y else (m x).prev)
    plain_prev x a b = ground (arith, a, b)

    inner :
        (x pv u v : ℕ)
        → u ≡ (if x == y then nx else v)
        → (if x == pv && not (pv == 0) then it else if x == it then y else u) ≡ (
            if x == pv && not (pv == 0)
            then it
            else if x == it
            then y
            else if x == y
            then nx
            else v)
    inner x pv u v e = ap (λ k. if x == pv && not (pv == 0) then it else if x == it then y else k) e

    inner_prev :
        (x u v : ℕ)
        → u ≡ (if x == nx && not (nx == 0) then y else v)
        → (if x == y then it else if x == it then pv else u) ≡ (
            if x == y
            then it
            else if x == it
            then pv
            else if x == nx && not (nx == 0)
            then y
            else v)
    inner_prev x u v e = ap (λ k. if x == y then it else if x == it then pv else k) e
