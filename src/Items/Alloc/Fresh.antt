-- ===== src/Items/Alloc/Fresh.antt =====
-- What do_item_alloc hands out.
use mathlib.Core.Path.{subst}
use analysis_memcached.Prelude.{
  ℕ, suc, ◌+◌, ◌≡◌, ◌≢◌, ◌⊎◌, inl, inr, refl, sym, Bool, ◌||◌, List, length, ◌==◌, ltb,
  if◌then◌else◌, if_elim, arith,
}
use analysis_memcached.Prelude.Memory.{update}
use analysis_memcached.Item.{Item, Settings, sizeof_item, sizeof_item_chunk, sizeof_cas}
use analysis_memcached.Slabs.{slabs_clsid}
use analysis_memcached.Slabs.Reassign.{Rebalance}
use analysis_memcached.Items.{World, item_at, set_item}
use analysis_memcached.Items.Alloc.{
  Alloc, Answers, take_memory, dress, first_lru, item_make_header, do_item_alloc,
}
use analysis_memcached.Items.Alloc.Owned.{no_memory, take_memory-IsOwned}

-- An item with one reference, on no queue, that carries what was asked for and is of the class
-- `id` and the queue `lru`.
pub record Prepared (id : ℕ) (key : List ℕ) (exptime nbytes lru : ℕ) (c : Item) : Type 0 where
  pub owned : c.refcount ≡ 1
  pub key_kept : c.key ≡ key
  pub expires : c.exptime ≡ exptime
  pub bytes : c.nbytes ≡ nbytes
  pub unlinked : (c.next ≡ 0) × (c.prev ≡ 0)
  pub class : c.slabs_clsid ≡ id + lru

stored : (m : ℕ → Item) (it at : ℕ) (c d : Item) → it ≢ at → update (update m it c) at d it ≡ c
stored m it at c d n = ground arith

stored_once : (m : ℕ → Item) (it : ℕ) (c : Item) → update m it c it ≡ c
stored_once m it c = ground arith

behind : (it a b c d e : ℕ) → it ≢ it + suc a + b + c + d + e
behind it a b c d e k = omega (arith, k)

module _ (hash : List ℕ → ℕ) (settings : Settings) (chunks walks : ℕ) where
  -- The first chunk's header lies behind the item, so writing it leaves the item.
  dress-Prepared :
      (w : World) (it id hdr_id flags nsuffix nbytes : ℕ) (large : Bool) (key : List ℕ)
      (exptime data_at : ℕ)
      → it ≢ data_at
      → (item_at w it).refcount ≡ 1
      → let v =
          dress hash settings chunks walks w it id hdr_id flags nsuffix nbytes large key exptime
            data_at in
        Prepared id key exptime nbytes
          (first_lru hash settings chunks walks v exptime)
          (item_at v it)
  unfolding dress first_lru
  dress-Prepared w it id hdr_id flags nsuffix nbytes large key exptime data_at n e =
      let c = item_at w it in
      let made : Item = record c {
        next = 0;
        prev = 0;
        slabs_clsid = id + first_lru hash settings chunks walks w exptime;
        it_flags = record (c.it_flags) {
          chunked = c.it_flags.chunked || large;
          cas = c.it_flags.cas || settings.use_cas;
        };
        key = key;
        nbytes = nbytes;
        exptime = exptime;
        nsuffix = nsuffix;
        client_flags = if nsuffix == 0 then c.client_flags else flags;
        first_chunk = data_at;
      } in
      let dressed = set_item w it made in
      let ok : Prepared id key exptime nbytes (first_lru hash settings chunks walks w exptime)
          made =
        record {
          owned = e;
          key_kept = refl;
          expires = refl;
          bytes = refl;
          unlinked = (refl, refl);
          class = refl;
        } in
      if_elim
        (λ (v : World).
          Prepared id key exptime nbytes (first_lru hash settings chunks walks v exptime)
            (item_at v it))
        (item_at dressed it).it_flags.chunked
        (λ _.
          subst (Prepared id key exptime nbytes (first_lru hash settings chunks walks w exptime))
            (sym (
              stored w.slabs.mem it data_at made
                (record (item_at dressed data_at) {
                  next = 0;
                  prev = 0;
                  used = 0;
                  size = 0;
                  head = it;
                  orig_clsid = hdr_id;
                })
                n))
            ok)
        (λ _.
          subst (Prepared id key exptime nbytes (first_lru hash settings chunks walks w exptime))
            (sym (stored_once w.slabs.mem it made)) ok)

  -- do_item_alloc gives no item, or one with one reference that carries the key, the length and the
  -- expiry that were asked for, of the class that fits its size and the queue for new items.
  pub do_item_alloc-Prepared :
      (printed : ℕ → ℕ → ℕ) (key : List ℕ) (flags exptime nbytes : ℕ) (answers : ℕ → Answers)
      (w : World) (b : Rebalance)
      → let total = (item_make_header settings printed (length key + 1) flags nbytes).0 in
        let ntotal = total + (if settings.use_cas then sizeof_cas else 0) in
        let r =
          do_item_alloc hash settings chunks walks printed key flags exptime nbytes answers w b in
        (r.it ≡ 0)
        ⊎ Prepared
            (slabs_clsid settings w.slabs ntotal)
            key
            exptime
            nbytes
            (first_lru hash settings chunks walks r.world exptime)
            (item_at r.world r.it)
  unfolding do_item_alloc
  do_item_alloc-Prepared printed key flags exptime nbytes answers w b =
      let nkey = length key in
      let header = item_make_header settings printed (nkey + 1) flags nbytes in
      let cas = if settings.use_cas then sizeof_cas else 0 in
      let ntotal = header.0 + cas in
      let id = slabs_clsid settings w.slabs ntotal in
      let large = ltb settings.slab_chunk_size_max ntotal in
      let htotal = nkey + 1 + header.1 + sizeof_item + sizeof_item_chunk + cas in
      let r = take_memory hash settings chunks walks id large ntotal htotal answers w b in
      let P : Alloc → Type 0 = λ (r : Alloc).
        (r.it ≡ 0)
        ⊎ Prepared id key exptime nbytes (first_lru hash settings chunks walks r.world exptime)
            (item_at r.world r.it) in
      let hdr_id = if large then slabs_clsid settings w.slabs htotal else 0 in
      let data_at = r.it + sizeof_item + nkey + 1 + header.1 + cas in
      if_elim P (ltb nbytes 2) (λ _. inl refl)
        λ _.
          if_elim P (id == 0) (λ _. inl refl)
            λ _.
              if_elim P (r.it == 0) (λ e. inl (no_memory r.it e))
                λ e.
                  (elim (take_memory-IsOwned hash settings chunks walks id large ntotal htotal
                    answers w b) [
                      | inl z ↦ inl z
                      | inr owned ↦ inr (
                          dress-Prepared r.world r.it id hdr_id flags header.1 nbytes large key
                            exptime data_at (behind r.it 47 nkey 1 header.1 cas) owned)
                    ])
