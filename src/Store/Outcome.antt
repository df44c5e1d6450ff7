-- ===== src/Store/Outcome.antt =====
-- What the storing commands answer, and that a stored item is found.
use mathlib.Core.Path.{subst}
use analysis_memcached.Prelude.{
  ℕ, ◌+◌, ◌-◌, ◌≡◌, ◌⊎◌, inl, inr, refl, sym, ◌∙◌, ap, Bool, true, false, not, ◌&&◌, Option, none,
  some, ◌==◌, if◌then◌else◌, if_elim,
}
use analysis_memcached.Item.{Settings, item_get_cas, item_clsid}
use analysis_memcached.Prelude.Memory.{update}
use analysis_memcached.Assoc.{Key, assoc_find}
use analysis_memcached.Slabs.Reassign.{Rebalance}
use analysis_memcached.Items.{
  World, item_at, item_key, do_item_link, do_item_replace, refcount_incr,
}
use analysis_memcached.Items.Get.{Thread, do_item_get, get_if}
use analysis_memcached.Items.Found.{do_item_link-found}
use analysis_memcached.Items.Hits.{alive, do_item_get-alive}
use analysis_memcached.Items.Alloc.{Answers, do_item_alloc}
use analysis_memcached.Store.{
  Env, Comm, StoreItem, Storing, nread_add, nread_set, nread_replace, nread_append, nread_prepend,
  nread_cas, not_stored, stored, exists, not_found, do_store_item, store_branch, store_joined,
  store_failed, store_put, store_cas, store_finish, release, put, copy_data, flags_of,
}

-- The answer to an append or prepend of an item with the CAS id `mine` to one with `theirs`.
abbrev JoinAllowed : ℕ → ℕ → StoreItem → Type 0
JoinAllowed mine theirs r =
    if not (mine == 0) && not (mine == theirs) then r ≡ exists else (r ≡ stored) ⊎ (r ≡ not_stored)

-- The answers of the protocol, for the CAS id of the item that the key has, if it has one.
abbrev pub Allowed : Comm → ℕ → Option ℕ → StoreItem → Type 0
Allowed nread_add mine none r = r ≡ stored
Allowed nread_add mine (some theirs) r = r ≡ not_stored
Allowed nread_set mine old r = r ≡ stored
Allowed nread_replace mine none r = r ≡ not_stored
Allowed nread_replace mine (some theirs) r = r ≡ stored
Allowed nread_append mine none r = r ≡ not_stored
Allowed nread_append mine (some theirs) r = JoinAllowed mine theirs r
Allowed nread_prepend mine none r = r ≡ not_stored
Allowed nread_prepend mine (some theirs) r = JoinAllowed mine theirs r
Allowed nread_cas mine none r = r ≡ not_found
Allowed nread_cas mine (some theirs) r = r ≡ (if mine == theirs then stored else exists)

abbrev pub cas_at : World → Option ℕ → Option ℕ
cas_at w none = none
cas_at w (some it) = some (item_get_cas (item_at w it))

if_result :
    (b : Bool) (s t : Storing) → (if b then s else t).result ≡ (if b then s.result else t.result)
if_result true s t = refl
if_result false s t = refl

-- Stored, or not stored for want of memory.
abbrev Settled : Storing → Type 0
Settled t = (t.result ≡ stored) ⊎ (t.result ≡ not_stored)

refused_or :
    (b : Bool) (s t : Storing)
    → s.result ≡ exists
    → Settled t
    → let r = (if b then s else t).result in
      if b then r ≡ exists else (r ≡ stored) ⊎ (r ≡ not_stored)
refused_or true s t e h = e
refused_or false s t e h = h

module _ (env : Env) (settings : Settings) where
  failed_result : (s : Storing) → (store_failed env settings s).result ≡ s.result
  unfolding store_failed
  failed_result s =
      if_elim (λ (t : Storing). t.result ≡ s.result) (s.new_it == 0) (λ _. refl) (λ _. refl)

  put_result :
      (s : Storing) (hv : ℕ) (old : Option ℕ) → (store_put env settings s hv old).result ≡ stored
  unfolding store_put
  put_result s hv old = refl

  joined-Allowed :
      (appends : Bool) (answers : ℕ → Answers) (grants : ℕ → ℕ → Answers) (s : Storing)
      (hv old_it : ℕ)
      → s.result ≡ not_stored
      → JoinAllowed
          (item_get_cas (item_at s.world s.it))
          (item_get_cas (item_at s.world old_it))
          (store_joined env settings appends answers grants s hv old_it).result
  unfolding store_joined
  joined-Allowed appends answers grants s hv old_it e =
      let c = item_at s.world s.it in
      let old = item_at s.world old_it in
      let r =
        do_item_alloc env.hash settings env.chunks env.walks env.printed c.key
          (flags_of settings old) old.exptime (c.nbytes + old.nbytes - 2) answers s.world s.rebal in
      let copied = copy_data env settings grants appends old_it r.it s.it r.world r.rebal in
      let made : Storing = record s { world = copied.world; rebal = copied.rebal; new_it = r.it } in
      let dry : Storing = record s { world = r.world; rebal = r.rebal } in
      let full =
        if copied.ok
        then store_put env settings (record made { it = r.it }) hv (some old_it)
        else store_failed env settings made in
      refused_or (not (item_get_cas c == 0) && not (item_get_cas c == item_get_cas old))
        (record s { result = exists }) (if r.it == 0 then dry else full) refl
        (if_elim Settled (r.it == 0) (λ _. inr e)
          λ _.
            if_elim Settled copied.ok
              (λ _. inl (put_result (record made { it = r.it }) hv (some old_it)))
              (λ _. inr (failed_result made ∙ e)))

  branch-Allowed :
      (comm : Comm) (answers : ℕ → Answers) (grants : ℕ → ℕ → Answers) (s : Storing) (hv : ℕ)
      (old : Option ℕ)
      → s.result ≡ not_stored
      → Allowed comm
          (item_get_cas (item_at s.world s.it))
          (cas_at s.world old)
          (store_branch env settings comm answers grants s hv old).result
  unfolding store_branch store_cas
  branch-Allowed nread_add answers grants s hv none e = put_result s hv none
  branch-Allowed nread_add answers grants s hv (some old_it) e = e
  branch-Allowed nread_set answers grants s hv old e = put_result s hv old
  branch-Allowed nread_replace answers grants s hv none e = e
  branch-Allowed nread_replace answers grants s hv (some old_it) e = put_result s hv (some old_it)
  branch-Allowed nread_append answers grants s hv none e = e
  branch-Allowed nread_append answers grants s hv (some old_it) e =
      joined-Allowed true answers grants s hv old_it e
  branch-Allowed nread_prepend answers grants s hv none e = e
  branch-Allowed nread_prepend answers grants s hv (some old_it) e =
      joined-Allowed false answers grants s hv old_it e
  branch-Allowed nread_cas answers grants s hv none e = refl
  branch-Allowed nread_cas answers grants s hv (some old_it) e =
      if_result (item_get_cas (item_at s.world s.it) == item_get_cas (item_at s.world old_it))
        (record s {
          thread = record (s.thread) {
            cas_hits =
                update s.thread.cas_hits (item_clsid (item_at s.world old_it))
                  (s.thread.cas_hits (item_clsid (item_at s.world old_it)) + 1);
          };
          world = do_item_replace settings env.chunks s.world old_it s.it hv;
          result = stored;
        })
        (record s {
          thread = record (s.thread) {
            cas_badval =
                update s.thread.cas_badval (item_clsid (item_at s.world old_it))
                  (s.thread.cas_badval (item_clsid (item_at s.world old_it)) + 1);
          };
          result = exists;
        })

  -- A command answers what the protocol says of it, for the item that the key has when it starts: add
  -- stores where there is none, replace where there is one, set always, cas where the CAS ids are
  -- equal; append and prepend answer EXISTS where their CAS id is given and another one.
  pub do_store_item-Allowed :
      (answers : ℕ → Answers) (grants : ℕ → ℕ → Answers) (w : World) (b : Rebalance) (c : Thread)
      (cas it : ℕ) (comm : Comm) (hv : ℕ)
      → let got = do_item_get env.encode settings env.chunks w c (item_at w it).key hv false in
        Allowed comm
          (item_get_cas (item_at got.0 it))
          (cas_at got.0 got.2)
          (do_store_item env settings answers grants w b c cas it comm hv).result
  unfolding do_store_item store_finish
  do_store_item-Allowed answers grants w b c cas it comm hv =
      let got = do_item_get env.encode settings env.chunks w c (item_at w it).key hv false in
      branch-Allowed comm answers grants
        record {
          world = got.0;
          rebal = b;
          thread = got.1;
          cas = cas;
          it = it;
          new_it = 0;
          result = not_stored;
        }
        hv got.2 refl

  -- Where the key has no item.
  absent_get :
      (w : World) (c : Thread) (key : Key) (hv : ℕ)
      → assoc_find (item_key w) w.table key hv ≡ none
      → do_item_get env.encode settings env.chunks w c key hv false ≡ (w, c, none)
  unfolding do_item_get get_if
  absent_get w c key hv e = ap (λ o. get_if env.encode settings env.chunks w c hv false o) e

  absent_set :
      (answers : ℕ → Answers) (grants : ℕ → ℕ → Answers) (w : World) (b : Rebalance) (c : Thread)
      (cas it hv : ℕ)
      → assoc_find (item_key w) w.table (item_at w it).key hv ≡ none
      → (do_store_item env settings answers grants w b c cas it nread_set hv).world
        ≡ do_item_link settings w it hv
  unfolding do_store_item store_finish store_branch store_put put release
  absent_set answers grants w b c cas it hv e =
      let finish : World × Thread × Option ℕ → World = λ (r : World × Thread × Option ℕ).
        (store_finish env settings r.2 (
          store_branch env settings nread_set answers grants
            record {
              world = r.0;
              rebal = b;
              thread = r.1;
              cas = cas;
              it = it;
              new_it = 0;
              result = not_stored;
            }
            hv r.2)).world in
      ap finish (absent_get w c (item_at w it).key hv e)

  -- A set of a key that has no item, then a get of the key: the item that was set is returned if it
  -- is alive, with a reference more, and none if it has expired or was flushed.
  pub set-get :
      (answers : ℕ → Answers) (grants : ℕ → ℕ → Answers) (w : World) (b : Rebalance) (c : Thread)
      (cas it hv : ℕ)
      → assoc_find (item_key w) w.table (item_at w it).key hv ≡ none
      → let v = (do_store_item env settings answers grants w b c cas it nread_set hv).world in
        let r = do_item_get env.encode settings env.chunks v c (item_at v it).key hv false in
        (r.2 ≡ (if alive settings v it then some it else none))
        × (alive settings v it ≡ true → r.0 ≡ refcount_incr v it)
  set-get answers grants w b c cas it hv e =
      subst
        (λ (v : World).
          let r = do_item_get env.encode settings env.chunks v c (item_at v it).key hv false in
          (r.2 ≡ (if alive settings v it then some it else none))
          × (alive settings v it ≡ true → r.0 ≡ refcount_incr v it))
        (sym (absent_set answers grants w b c cas it hv e))
        (let v = do_item_link settings w it hv in
          do_item_get-alive env.encode settings env.chunks v c (item_key v it) hv it
            (do_item_link-found settings w it hv).2)
