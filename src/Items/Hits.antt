-- ===== src/Items/Hits.antt =====
-- What do_item_get returns, and what lru_bump_async does to the references.
use mathlib.Core.Path.{subst, subst₂}
use analysis_memcached.Prelude.{
  ℕ, ◌+◌, ◌^◌, ◌<◌, ◌≡◌, sym, refl, Bool, true, false, not, ◌&&◌, Option, none, some, List, leb,
  ◌==◌, if◌then◌else◌, arith, if_elim,
}
use analysis_memcached.Prelude.Memory.{memcpy}
use analysis_memcached.Item.{Settings, item_get_cas}
use analysis_memcached.Assoc.{Key, assoc_find}
use analysis_memcached.Bipbuffer.{Bipbuf, bipbuf_request, bipbuf_push, bipbuf_unused}
use analysis_memcached.Items.{
  World, item_at, item_key, refcount_incr, refcount_decr, item_is_flushed, do_item_unlink,
  do_item_remove,
}
use analysis_memcached.Items.Get.{
  Thread, LruBumpBuf, sizeof_lru_bump_entry, push_bump, lru_bump_async, get_found, get_if,
  do_item_get,
}

-- An item is alive if it was not flushed and has not expired.
abbrev pub expired : World → ℕ → Bool
expired w it = not ((item_at w it).exptime == 0) && leb (item_at w it).exptime w.current_time

abbrev pub alive : Settings → World → ℕ → Bool
alive settings w it = not (item_is_flushed settings w it) && not (expired w it)

referenced_alive :
    (settings : Settings) (w : World) (it : ℕ)
    → alive settings (refcount_incr w it) it ≡ alive settings w it
unfolding item_is_flushed item_get_cas refcount_incr
referenced_alive settings w it = ground arith

choose_alive :
    (f x : Bool) (gone v : World) (c₁ c₂ d : Thread) (it : ℕ)
    → let r : World × Thread × Option ℕ =
        if f then (gone, c₁, none) else if x then (gone, c₂, none) else (v, d, some it) in
      (r.2 ≡ (if not f && not x then some it else none)) × ((not f && not x) ≡ true → r.0 ≡ v)
choose_alive true x gone v c₁ c₂ d it = (refl, λ e. absurd (ground (arith, e)))
choose_alive false true gone v c₁ c₂ d it = (refl, λ e. absurd (ground (arith, e)))
choose_alive false false gone v c₁ c₂ d it = (refl, λ e. refl)

module _ (encode : ℕ → ℕ → List ℕ) where
  found_alive :
      (settings : Settings) (fuel : ℕ) (w : World) (c : Thread) (it hv : ℕ)
      → let r = get_found encode settings fuel w c it hv false in
        (r.2 ≡ (if alive settings w it then some it else none))
        × (alive settings w it ≡ true → r.0 ≡ w)
  unfolding get_found
  found_alive settings fuel w c it hv =
      let gone = do_item_remove settings fuel (do_item_unlink settings fuel w it hv) it in
      choose_alive (item_is_flushed settings w it) (expired w it) gone w
        (record c { get_flushed = c.get_flushed + 1 })
        (record c { get_expired = c.get_expired + 1 }) c it

  -- A lookup without an update returns the item in the table if it is alive, with one reference
  -- more, and none if it is not alive.
  pub do_item_get-alive :
      (settings : Settings) (fuel : ℕ) (w : World) (c : Thread) (key : Key) (hv it : ℕ)
      → assoc_find (item_key w) w.table key hv ≡ some it
      → let r = do_item_get encode settings fuel w c key hv false in
        (r.2 ≡ (if alive settings w it then some it else none))
        × (alive settings w it ≡ true → r.0 ≡ refcount_incr w it)
  unfolding do_item_get get_if
  do_item_get-alive settings fuel w c key hv it e =
      let P : Bool → Option ℕ → Type 0 = λ live o.
        let r = get_if encode settings fuel w c hv false o in
        (r.2 ≡ (if live then some it else none)) × (live ≡ true → r.0 ≡ refcount_incr w it) in
      subst₂ P (referenced_alive settings w it) (sym e)
        (found_alive settings fuel (refcount_incr w it) c it hv)

  request_push :
      (me : Bipbuf) (place : ℕ)
      → bipbuf_request me sizeof_lru_bump_entry ≡ some place
      → (bipbuf_push me sizeof_lru_bump_entry).1 ≡ sizeof_lru_bump_entry
  unfolding bipbuf_request bipbuf_push
  request_push me place e = ground (arith, e)

  pushed_kept :
      (b : LruBumpBuf) (entry : List ℕ) (place : ℕ)
      → bipbuf_request b.buf sizeof_lru_bump_entry ≡ some place
      → (push_bump b entry (some place)).dropped ≡ b.dropped
  unfolding push_bump
  pushed_kept b entry place e =
      let me : Bipbuf = record (b.buf) { bytes = memcpy b.buf.bytes place entry } in
      let r = request_push me place (unfold bipbuf_request bipbuf_unused in e) in
      if_elim (λ (v : LruBumpBuf). v.dropped ≡ b.dropped)
        ((bipbuf_push me sizeof_lru_bump_entry).1 == 0) (λ z. absurd (ground (arith, r, z)))
        (λ _. refl)

  -- A bump gives up its reference to the item and reports a failure also when its entry was queued
  -- and not dropped.
  pub bump_unreferenced :
      (w : World) (b : LruBumpBuf) (it hv place : ℕ)
      → (item_at w it).refcount < 2 ^ 16
      → bipbuf_request b.buf sizeof_lru_bump_entry ≡ some place
      → let (v, after, ret) = lru_bump_async encode w b it hv in
        (ret ≡ false)
        × ((item_at v it).refcount ≡ (item_at w it).refcount)
        × (after.dropped ≡ b.dropped)
  unfolding lru_bump_async refcount_incr refcount_decr
  bump_unreferenced w b it hv place h e = (
    refl,
    ground (arith, h),
    subst (λ o. (push_bump b (encode it hv) o).dropped ≡ b.dropped) (sym e)
        (pushed_kept b (encode it hv) place e),
  )
