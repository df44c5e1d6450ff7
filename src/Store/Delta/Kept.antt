-- ===== src/Store/Delta/Kept.antt =====
-- What incr and decr do to the number and to the references.
use mathlib.Core.Path.{subst}
use analysis_memcached.Prelude.{
  ℕ, ◌+◌, ◌-◌, ◌⊎◌, inl, inr, ◌%◌, ◌^◌, ◌<◌, ◌≡◌, refl, sym, ◌∙◌, ap, Bool, true, false, ◌&&◌, ◌||◌,
  Option, none, some, List, [], length, ltb, leb, ◌==◌, if◌then◌else◌, if_elim, arith,
}
use analysis_memcached.Item.{Item, Settings, item_clsid, item_get_cas}
use analysis_memcached.Assoc.{Key, assoc_find}
use analysis_memcached.Slabs.Reassign.{Rebalance}
use analysis_memcached.Items.{World, item_at, item_key, refcount_incr}
use analysis_memcached.Items.Get.{Thread, do_item_get}
use analysis_memcached.Items.Hits.{alive, do_item_get-alive}
use analysis_memcached.Items.Alloc.{Answers, do_item_alloc}
use analysis_memcached.Store.{Env, flags_of}
use analysis_memcached.Store.Delta.{
  Delta, Libc, ok, eom, non_numeric, new_value, safe_strtoull, cas_differs, count_hit, delta_done,
  delta_store, delta_number, delta_found, do_add_delta,
}

-- Adding an amount and taking it away again gives the number back where the sum fits 64 bits, and a
-- difference never falls below 0.
pub decr-incr :
    (value delta : ℕ)
    → value + delta < 2 ^ 64
    → new_value false delta (new_value true delta value) ≡ value
unfolding new_value
decr-incr value delta h = ground arith

pub new_value_bound :
    (incr : Bool) (delta value : ℕ) → value < 2 ^ 64 → new_value incr delta value < 2 ^ 64
unfolding new_value
new_value_bound true delta value h = ground arith
new_value_bound false delta value h = ground arith

-- An item that holds no number: its value is only the end of line, or is in chunks.
abbrev pub no_number : Item → Bool
no_number c = leb c.nbytes 2 || c.it_flags.chunked

-- The number with the amount added, modulo 2^64, or taken away, down to 0.
new_value_lem :
    (incr : Bool) (delta value : ℕ)
    → new_value incr delta value ≡ (if incr then (value + delta) % 2 ^ 64 else value - delta)
unfolding new_value
new_value_lem true delta value = refl
new_value_lem false delta value = ground arith

-- The response, and the results that go with it: the number was stored, or there was no memory.
abbrev pub Answered : List ℕ → Delta → Type 0
Answered buf r = (r.buf ≡ buf) × ((r.result ≡ ok) ⊎ (r.result ≡ eom))

counted_item :
    (w : World) (it : ℕ)
    → item_at (refcount_incr w it) it
      ≡ record (item_at w it) { refcount = ((item_at w it).refcount + 1) % 2 ^ 16 }
unfolding refcount_incr
counted_item w it = ground arith

counted_cas :
    (cas : Option ℕ) (c : Item)
    → cas_differs cas (record c { refcount = (c.refcount + 1) % 2 ^ 16 }) ≡ cas_differs cas c
unfolding cas_differs item_get_cas
counted_cas none c = refl
counted_cas (some id) c = refl

module _ (env : Env) (libc : Libc) (settings : Settings) (incr : Bool) (delta : ℕ)
    (answers : ℕ → Answers) (hv it : ℕ) where
  abbrev counted : ℕ → ℕ
  counted value = if incr then (value + delta) % 2 ^ 64 else value - delta

  no_number_found :
      (s : Delta)
      → no_number (item_at s.world it) ≡ true
      → let r = delta_found env libc settings incr delta answers s hv (some it) in
        (r.result ≡ non_numeric) × (r.world ≡ s.world)
  unfolding delta_found
  no_number_found s e =
      if_elim (λ (r : Delta). (r.result ≡ non_numeric) × (r.world ≡ s.world))
        (no_number (item_at s.world it)) (λ _. (refl, refl)) (λ n. absurd (ground (arith, n, e)))

  store_buf :
      (s : Delta) (buf : List ℕ)
      → s.buf ≡ buf
      → 1 < (item_at s.world it).refcount
      → Answered buf (delta_store env libc settings answers s it hv buf)
  unfolding delta_store delta_done
  store_buf s buf e h =
      let c = item_at s.world it in
      let r =
        do_item_alloc env.hash settings env.chunks env.walks env.printed c.key (flags_of settings c)
          c.exptime (length buf + 2) answers s.world s.rebal in
      if_elim (Answered buf) (leb (length buf + 2) c.nbytes && c.refcount == 2) (λ _. (e, inl refl))
        (λ _.
          if_elim (Answered buf) (ltb 1 c.refcount)
            (λ _. if_elim (Answered buf) (r.it == 0) (λ _. (e, inr refl)) (λ _. (e, inl refl)))
            (λ n. absurd (ground (arith, n, h))))

  number_buf :
      (s : Delta) (value : ℕ) (parsed : Option ℕ)
      → parsed ≡ some value
      → 1 < (item_at s.world it).refcount
      → Answered
          (libc.decimal (counted value))
          (delta_number env libc settings incr delta answers s it hv parsed)
  unfolding delta_number
  number_buf s value parsed e h =
      let buf = libc.decimal (new_value incr delta value) in
      let new = ap libc.decimal (new_value_lem incr delta value) in
      subst
        (λ o.
          Answered (libc.decimal (counted value))
            (delta_number env libc settings incr delta answers s it hv o))
        (sym e)
        (subst
          (λ xs.
            Answered xs (delta_number env libc settings incr delta answers s it hv (some value)))
          new
          (store_buf
            (record s {
              thread = count_hit incr s.thread (item_clsid (item_at s.world it));
              buf = buf;
            })
            buf refl h))

  found_buf :
      (s : Delta) (value : ℕ)
      → no_number (item_at s.world it) ≡ false
      → cas_differs s.cas (item_at s.world it) ≡ false
      → safe_strtoull libc (item_at s.world it).value ≡ some value
      → 1 < (item_at s.world it).refcount
      → Answered
          (libc.decimal (counted value))
          (delta_found env libc settings incr delta answers s hv (some it))
  unfolding delta_found
  found_buf s value a b e h =
      let P = Answered (libc.decimal (counted value)) in
      if_elim P (no_number (item_at s.world it)) (λ y. absurd (ground (arith, y, a)))
        λ _.
          if_elim P (cas_differs s.cas (item_at s.world it)) (λ y. absurd (ground (arith, y, b)))
            (λ _. number_buf s value (safe_strtoull libc (item_at s.world it).value) e h)

  abbrev initial : World → Rebalance → Thread → Option ℕ → Delta
  initial w b c cas = record {
    world = w;
    rebal = b;
    thread = c;
    cas = cas;
    buf = [];
    result = non_numeric;
  }

  -- What holds of the outcome for the world with the reference, from the branch of a found item.
  run :
      (P : World → Delta → Type 0) (w : World) (b : Rebalance) (c : Thread) (key : Key)
      (cas : Option ℕ)
      → assoc_find (item_key w) w.table key hv ≡ some it
      → alive settings w it ≡ true
      → ((v : World) (d : Thread)
          → v ≡ refcount_incr w it
          → P v (delta_found env libc settings incr delta answers (initial v b d cas) hv (some it)))
      → P (refcount_incr w it) (do_add_delta env libc settings answers w b c key incr delta cas hv)
  unfolding do_add_delta
  run P w b c key cas e live h =
      let got = do_item_get env.encode settings env.chunks w c key hv false in
      let g = do_item_get-alive env.encode settings env.chunks w c key hv it e in
      let found : got.2 ≡ some it = g.0 ∙ ap (λ (l : Bool). if l then some it else none) live in
      let r =
        subst
          (λ o.
            P got.0
              (delta_found env libc settings incr delta answers (initial got.0 b got.1 cas) hv o))
          (sym found) (h got.0 got.1 (g.1 live)) in
      subst
        (λ v.
          P v
            (delta_found env libc settings incr delta answers (initial got.0 b got.1 cas) hv got.2))
        (g.1 live) r

  incr_same :
      (w : World)
      → (no_number (item_at (refcount_incr w it) it) ≡ no_number (item_at w it))
        × ((cas : Option ℕ)
            → cas_differs cas (item_at (refcount_incr w it) it) ≡ cas_differs cas (item_at w it))
        × ((item_at (refcount_incr w it) it).value ≡ (item_at w it).value)
  unfolding refcount_incr
  incr_same w =
      let c : Item = record (item_at w it) { refcount = ((item_at w it).refcount + 1) % 2 ^ 16 } in
      let e : item_at (refcount_incr w it) it ≡ c = counted_item w it in
      (
        ap no_number e,
        λ cas. ap (cas_differs cas) e ∙ counted_cas cas (item_at w it),
        ap (λ (d : Item). d.value) e,
      )

  -- On a live item whose value is only the end of line, or is in chunks, the command answers
  -- NON_NUMERIC, but the reference that it took to the item is not given up.
  pub do_add_delta-leak :
      (w : World) (b : Rebalance) (c : Thread) (key : Key) (cas : Option ℕ)
      → assoc_find (item_key w) w.table key hv ≡ some it
      → alive settings w it ≡ true
      → no_number (item_at w it) ≡ true
      → let r = do_add_delta env libc settings answers w b c key incr delta cas hv in
        (r.result ≡ non_numeric) × (r.world ≡ refcount_incr w it)
  do_add_delta-leak w b c key cas e live n =
      run (λ v r. (r.result ≡ non_numeric) × (r.world ≡ v)) w b c key cas e live
        (λ v d k.
          no_number_found (initial v b d cas)
            (ap (λ (u : World). no_number (item_at u it)) k ∙ (incr_same w).0 ∙ n))

  -- On a live item that holds a number and between 1 and 65534 references, with the CAS id that was
  -- asked for, the response is the number with the amount added, modulo 2^64, for incr, and taken
  -- away, down to 0, for decr; the result is that it was stored or that there was no memory.
  pub do_add_delta-buf :
      (w : World) (b : Rebalance) (c : Thread) (key : Key) (cas : Option ℕ) (value : ℕ)
      → assoc_find (item_key w) w.table key hv ≡ some it
      → alive settings w it ≡ true
      → no_number (item_at w it) ≡ false
      → cas_differs cas (item_at w it) ≡ false
      → safe_strtoull libc (item_at w it).value ≡ some value
      → 0 < (item_at w it).refcount
      → (item_at w it).refcount < 65535
      → Answered
          (libc.decimal (if incr then (value + delta) % 2 ^ 64 else value - delta))
          (do_add_delta env libc settings answers w b c key incr delta cas hv)
  do_add_delta-buf w b c key cas value e live n m p low high =
      let s = incr_same w in
      let two : 1 < (item_at (refcount_incr w it) it).refcount =
        omega (arith, ap (λ (d : Item). d.refcount) (counted_item w it), low, high) in
      run (λ v r. Answered (libc.decimal (counted value)) r) w b c key cas e live
        (λ v d k.
          found_buf (initial v b d cas) value
            (ap (λ (u : World). no_number (item_at u it)) k ∙ s.0 ∙ n)
            (ap (λ (u : World). cas_differs cas (item_at u it)) k ∙ s.1 cas ∙ m)
            (ap (λ (u : World). safe_strtoull libc (item_at u it).value) k
              ∙ ap (safe_strtoull libc) s.2
              ∙ p)
            (subst (λ (u : World). 1 < (item_at u it).refcount) (sym k) two))
