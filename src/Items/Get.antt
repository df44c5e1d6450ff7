-- ===== src/Items/Get.antt =====
-- slabs_curd/items.c: finding an item for a client, with lazy expiry and the hints for the LRU, and the
-- queue of bumps. `encode` is the struct lru_bump_entry as its 16 bytes. STORAGE_delete is empty
-- without external storage.
use analysis_memcached.Prelude.{
  ℕ, ◌+◌, Bool, true, false, not, ◌&&◌, Option, none, some, List, leb, ◌==◌, if◌then◌else◌,
}
use analysis_memcached.Prelude.Memory.{memcpy}
use analysis_memcached.Item.{Settings, Flags, item_lruid}
use analysis_memcached.Assoc.{Key, assoc_find}
use analysis_memcached.Bipbuffer.{Bipbuf, bipbuf_request, bipbuf_push}
use analysis_memcached.Items.{
  World, item_at, item_key, set_item, refcount_incr, refcount_decr, do_item_unlink, do_item_remove,
  do_item_update, item_is_flushed, cold_lru,
}

abbrev pub sizeof_lru_bump_entry : ℕ
sizeof_lru_bump_entry = 16

pub record LruBumpBuf : Type 0 where
  pub buf : Bipbuf
  pub dropped : ℕ

-- What the functions use of a connection's thread.
pub record Thread : Type 0 where
  pub get_flushed : ℕ
  pub get_expired : ℕ
  pub cas_misses : ℕ
  pub cas_hits : ℕ → ℕ
  pub cas_badval : ℕ → ℕ
  pub incr_hits : ℕ → ℕ
  pub decr_hits : ℕ → ℕ
  pub lru_bump_buf : LruBumpBuf

abbrev pub set_flags : World → ℕ → Flags → World
set_flags w it f = set_item w it (record (item_at w it) { it_flags = f })

-- An entry that was requested is written and pushed; `ret` stays false, as in the code.
unfoldable pub push_bump : LruBumpBuf → List ℕ → Option ℕ → LruBumpBuf
push_bump b entry none = record b { dropped = b.dropped + 1 }
push_bump b entry (some place) =
    let (after, pushed) =
      bipbuf_push (record (b.buf) { bytes = memcpy b.buf.bytes place entry })
        sizeof_lru_bump_entry in
    if pushed == 0
    then record b { buf = after; dropped = b.dropped + 1 }
    else record b { buf = after }

module _ (encode : ℕ → ℕ → List ℕ) where
  unfoldable pub lru_bump_async : World → LruBumpBuf → ℕ → ℕ → World × LruBumpBuf × Bool
  unfolding push_bump refcount_incr refcount_decr
  lru_bump_async w b it hv =
      let after = push_bump b (encode it hv) (bipbuf_request b.buf sizeof_lru_bump_entry) in
      (refcount_decr (refcount_incr w it) it, after, false)

  -- The bump of a cold item that has become active; when it fails the item is not active.
  unfoldable pub bump_cold : World → Thread → ℕ → ℕ → World × Thread
  unfolding lru_bump_async
  bump_cold w c it hv =
      let (v, b, ret) = lru_bump_async w c.lru_bump_buf it hv in
      let f = (item_at v it).it_flags in
      (
        if ret then v else set_flags v it (record f { active = false }),
        record c { lru_bump_buf = b },
      )

  -- The marks of a hit.
  unfoldable pub mark_hit : Settings → World → Thread → ℕ → ℕ → World × Thread
  unfolding bump_cold do_item_update item_lruid
  mark_hit settings w c it hv =
      let f = (item_at w it).it_flags in
      let fetched = set_flags w it (record f { fetched = true }) in
      let active = set_flags w it (record f { active = true }) in
      if not settings.lru_segmented
      then (do_item_update settings fetched it, c)
      else if f.active
      then (w, c)
      else if not f.fetched
      then (fetched, c)
      else if item_lruid (item_at w it) == cold_lru
      then bump_cold active c it hv
      else (do_item_update settings active it, c)

  -- The item that was found, with its new reference; `none` is an item that was flushed or expired,
  -- which is unlinked.
  unfoldable pub get_found :
      Settings → ℕ → World → Thread → ℕ → ℕ → Bool → World × Thread × Option ℕ
  unfolding item_is_flushed do_item_unlink do_item_remove mark_hit
  get_found settings fuel w c it hv do_update =
      let gone = do_item_remove settings fuel (do_item_unlink settings fuel w it hv) it in
      let exptime = (item_at w it).exptime in
      let (v, d) = if do_update then mark_hit settings w c it hv else (w, c) in
      if item_is_flushed settings w it
      then (gone, record c { get_flushed = c.get_flushed + 1 }, none)
      else if not (exptime == 0) && leb exptime w.current_time
      then (gone, record c { get_expired = c.get_expired + 1 }, none)
      else (v, d, some it)

  unfoldable pub get_if :
      Settings → ℕ → World → Thread → ℕ → Bool → Option ℕ → World × Thread × Option ℕ
  unfolding refcount_incr get_found
  get_if settings fuel w c hv do_update none = (w, c, none)
  get_if settings fuel w c hv do_update (some it) =
      get_found settings fuel (refcount_incr w it) c it hv do_update

  unfoldable pub do_item_get :
      Settings → ℕ → World → Thread → Key → ℕ → Bool → World × Thread × Option ℕ
  unfolding get_if
  do_item_get settings fuel w c key hv do_update =
      get_if settings fuel w c hv do_update (assoc_find (item_key w) w.table key hv)

  abbrev pub set_exptime : World → ℕ → Option ℕ → World
  set_exptime w exptime none = w
  set_exptime w exptime (some it) = set_item w it (record (item_at w it) { exptime = exptime })

  unfoldable pub do_item_touch :
      Settings → ℕ → World → Thread → Key → ℕ → ℕ → World × Thread × Option ℕ
  unfolding do_item_get
  do_item_touch settings fuel w c key exptime hv =
      let (v, d, it) = do_item_get settings fuel w c key hv true in
      (set_exptime v exptime it, d, it)
