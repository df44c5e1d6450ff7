-- ===== src/Extstore/Stale.antt =====
-- The engine's operations as steps, and the safety of the places that items keep of their objects.
use analysis_memcached.Prelude.{
  ℕ, zero, suc, ◌+◌, ◌^◌, ◌≤◌, ◌<◌, ◌≡◌, ◌≢◌, refl, ap, ◌∙◌, Bool, false, not, ◌&&◌, ◌||◌, Option,
  none, some, List, length, ltb, leb, ◌==◌, if_elim, option_elim, arith,
}
use analysis_memcached.Extstore.{
  Engine, Io, Wbuf, take_free, activate, allocate_page, extstore_submit, request_page,
  extstore_write_request, write_object, fill_wbuf, flushed_page, wbuf_cb, extstore_delete,
  extstore_check, extstore_close_page, pull_batch, read_start, ReadPlan, gone, read_done, free_page,
  first_page, Pass, maint_page, maint_pages, evict_page, evict_low, maint_round,
}
use analysis_memcached.Extstore.Ages.{
  Ages, Ages-trans, same-Ages, refl-Ages, set-Ages, page_version, allocate_page-Ages, submit-Ages,
  request_page-Ages,
}

allocate_page-version :
    (e : Engine) (bucket fb : ℕ)
    → e.version + 1 < 2 ^ 32
    → (allocate_page e bucket fb).0.version ≤ e.version + 1
unfolding allocate_page take_free activate
allocate_page-version e bucket fb h = ground arith

request-Ages :
    (e : Engine) (bucket fb len : ℕ)
    → e.version + 2 < 2 ^ 32
    → Ages e (extstore_write_request e bucket fb len).0
unfolding extstore_write_request
request-Ages e bucket fb len h =
    let made = allocate_page e bucket fb in
    let a = allocate_page-Ages e bucket fb (omega (arith, h)) in
    let v = allocate_page-version e bucket fb (omega (arith, h)) in
    let P = λ (r : Engine × Option ℕ). Ages e r.0 in
    if_elim P (leb e.page_bucketcount bucket) (λ _. refl-Ages e)
      (λ _.
        option_elim P (first_page (e.page_buckets bucket)) _ (λ p. request_page e bucket fb len p)
          (option_elim P made.1 (made.0, none) (λ p. request_page made.0 bucket fb len p) a
            (λ p.
              Ages-trans e made.0 _ a
                (request_page-Ages made.0 bucket fb len p (omega (arith, h, v)))))
          (λ p. request_page-Ages e bucket fb len p (omega (arith, h))))

write_object-Ages : (e : Engine) (p len : ℕ) (w : Wbuf) → Ages e (write_object e p len w).0
unfolding write_object
write_object-Ages e p len w =
    same-Ages (record { version = refl; pages = λ q. page_version e.pages p _ refl q })

wbuf_cb-Ages : (e : Engine) (p : ℕ) → Ages e (wbuf_cb e p)
unfolding wbuf_cb flushed_page
wbuf_cb-Ages e p =
    option_elim (Ages e) (e.pages p).wbuf e (λ w. flushed_page e p w) (refl-Ages e)
      (λ w. same-Ages (record { version = refl; pages = λ q. page_version e.pages p _ refl q }))

delete-Ages : (e : Engine) (p v count bytes : ℕ) → Ages e (extstore_delete e p v count bytes).0
unfolding extstore_delete
delete-Ages e p v count bytes =
    if_elim (λ (r : Engine × Bool). Ages e r.0) (not (e.pages p).closed && (e.pages p).version == v)
      (λ _. same-Ages (record { version = refl; pages = λ q. page_version e.pages p _ refl q }))
      (λ _. refl-Ages e)

close-Ages : (e : Engine) (p v : ℕ) → Ages e (extstore_close_page e p v)
unfolding extstore_close_page
close-Ages e p v =
    if_elim (Ages e) (not (e.pages p).closed && (e.pages p).version == v) (λ _. set-Ages e p _ refl)
      (λ _. refl-Ages e)

pull-Ages : (e : Engine) (t : ℕ) → Ages e (pull_batch e t).0
unfolding pull_batch
pull-Ages e t = same-Ages (record { version = refl; pages = λ q. refl })

read_start-Ages : (e : Engine) (io : Io) → Ages e (read_start e io).0
unfolding read_start
read_start-Ages e io =
    let page = e.pages io.page_id in
    let P = λ (r : Engine × ReadPlan). Ages e r.0 in
    if_elim P (not page.free && not page.closed && page.version == io.page_version)
      (λ _.
        if_elim P (page.active && leb page.written io.offset)
          (λ _. same-Ages (record { version = refl; pages = λ q. refl }))
          (λ _.
            same-Ages
              (record { version = refl; pages = λ q. page_version e.pages io.page_id _ refl q })))
      (λ _. refl-Ages e)

read_done-Ages : (e : Engine) (p : ℕ) → Ages e (read_done e p)
unfolding read_done
read_done-Ages e p = set-Ages e p _ refl

free_page-Ages : (e : Engine) (p : ℕ) → Ages e (free_page e p)
unfolding free_page
free_page-Ages e p = record { grows = omega arith; page = λ q. ground arith }

maint_page-Ages : (s : Pass) (p : ℕ) → Ages s.engine (maint_page s p).engine
unfolding maint_page
maint_page-Ages s p =
    let page = s.engine.pages p in
    let P = λ (t : Pass). Ages s.engine t.engine in
    if_elim P (page.active || page.free) (λ _. refl-Ages s.engine)
      (λ _.
        if_elim P ((page.obj_count == 0 || page.closed) && page.refcount == 0)
          (λ _. free_page-Ages s.engine p)
          (λ _.
            if_elim P (ltb 0 page.obj_count && not page.closed) (λ _. refl-Ages s.engine)
              (λ _. refl-Ages s.engine)))

maint_pages-Ages : (p n : ℕ) (s : Pass) → Ages s.engine (maint_pages p n s).engine
unfolding maint_pages
maint_pages-Ages p zero s = refl-Ages s.engine
maint_pages-Ages p (suc n) s =
    Ages-trans s.engine (maint_page s p).engine _ (maint_page-Ages s p)
      (maint_pages-Ages (suc p) n (maint_page s p))

evict_page-Ages : (e : Engine) (p : ℕ) → Ages e (evict_page e p)
unfolding evict_page
evict_page-Ages e p =
    let k = λ (f : Engine) (h : Ages e f). Ages-trans e f (free_page f p) h (free_page-Ages f p) in
    let closed =
      same-Ages (record { version = refl; pages = λ q. page_version e.pages p _ refl q }) in
    if_elim (Ages e) (e.pages p).closed (λ _. refl-Ages e)
      (λ _. if_elim (Ages e) ((e.pages p).refcount == 0) (λ _. k _ closed) (λ _. closed))

evict_low-Ages : (s : Pass) → Ages s.engine (evict_low s)
unfolding evict_low
evict_low-Ages s =
    if_elim (Ages s.engine) s.do_evict
      (λ _.
        option_elim (Ages s.engine) s.low s.engine (λ l. evict_page s.engine l.0)
          (refl-Ages s.engine) (λ l. evict_page-Ages s.engine l.0))
      (λ _. refl-Ages s.engine)

maint-Ages : (e : Engine) → Ages e (maint_round e)
unfolding maint_round
maint-Ages e =
    Ages-trans e _ _ (maint_pages-Ages 0 e.page_count _) (
      Ages-trans _ _ _ (evict_low-Ages _)
        (same-Ages (record { version = refl; pages = λ q. refl })))

-- What the threads of the server do to the engine, one operation at a time, as long as versions last.
pub data Step : Engine → Engine → Type 0 where
  request :
      (e : Engine) (bucket fb len : ℕ)
      → e.version + 2 < 2 ^ 32
      → Step e (extstore_write_request e bucket fb len).0
  write :
      (e : Engine) (p : ℕ) (bytes : List ℕ) (w : Wbuf)
      → (e.pages p).wbuf ≡ some w
      → length bytes ≤ w.free
      → Step e (write_object e p (length bytes) (fill_wbuf w bytes)).0
  submit : (e : Engine) (ios : List Io) → Step e (extstore_submit e ios)
  flush : (e : Engine) (p : ℕ) → Step e (wbuf_cb e p)
  delete : (e : Engine) (p v count bytes : ℕ) → Step e (extstore_delete e p v count bytes).0
  close : (e : Engine) (p v : ℕ) → Step e (extstore_close_page e p v)
  pull : (e : Engine) (t : ℕ) → Step e (pull_batch e t).0
  start : (e : Engine) (io : Io) → Step e (read_start e io).0
  finish : (e : Engine) (p : ℕ) → Step e (read_done e p)
  maintain : (e : Engine) → Step e (maint_round e)

pub data Reach (e : Engine) : Engine → Type 0 where
  here : Reach e e
  next : {t u : Engine} → Reach e t → Step t u → Reach e u

Step-Ages : {e f : Engine} → Step e f → Ages e f
Step-Ages (request e b fb len h) = request-Ages e b fb len h
Step-Ages (write e p bytes w b h) = write_object-Ages e p (length bytes) (fill_wbuf w bytes)
Step-Ages (submit e ios) = submit-Ages e ios
Step-Ages (flush e p) = wbuf_cb-Ages e p
Step-Ages (delete e p v count bytes) = delete-Ages e p v count bytes
Step-Ages (close e p v) = close-Ages e p v
Step-Ages (pull e t) = pull-Ages e t
Step-Ages (start e io) = read_start-Ages e io
Step-Ages (finish e p) = read_done-Ages e p
Step-Ages (maintain e) = maint-Ages e

-- The version has been given out, and the page has another one.
abbrev Stale : ℕ → ℕ → Engine → Type 0
Stale p v e = ((e.pages p).version ≢ v) × (v < e.version)

Ages-Stale : (p v : ℕ) (e f : Engine) → 0 < v → Ages e f → Stale p v e → Stale p v f
Ages-Stale p v e f h a s =
    (λ q. absurd (ground (arith, a.page p, q, s, h)), omega (arith, a.grows, s))

Reach-Stale : (p v : ℕ) {e f : Engine} → 0 < v → Stale p v e → Reach e f → Stale p v f
Reach-Stale p v h s here = s
Reach-Stale p v h s (next {t} {u} r st) =
    Ages-Stale p v t u h (Step-Ages st) (Reach-Stale p v h s r)

freed-Stale : (e : Engine) (p v : ℕ) → 0 < v → v < e.version → Stale p v (free_page e p)
unfolding free_page
freed-Stale e p v h k = (λ q. absurd (ground (arith, q, h)), k)

-- Every page has a version that was given out, or none.
pub record Issued (e : Engine) : Type 0 where
  pub some_given : 0 < e.version
  pub pages : (p : ℕ) → (e.pages p).version < e.version

Ages-Issued : {e f : Engine} → Ages e f → Issued e → Issued f
Ages-Issued a s = record {
  some_given = omega (arith, a.grows, s.some_given);
  pages = λ p. ground (arith, a.page p, s.pages p, a.grows, s.some_given);
}

pub Reach-Issued : {e f : Engine} → Reach e f → Issued e → Issued f
Reach-Issued here s = s
Reach-Issued (next r st) s = Ages-Issued (Step-Ages st) (Reach-Issued r s)

not_found :
    (f : Engine) (io : Io)
    → (f.pages io.page_id).version == io.page_version ≡ false
    → (read_start f io).1 ≡ gone
unfolding read_start
not_found f io h = ground (arith, h)

-- The same for a version that was given out before the page was freed.
pub freed-gone :
    (e f : Engine) (p : ℕ) (io : Io)
    → 0 < io.page_version
    → io.page_version < e.version
    → io.page_id ≡ p
    → Reach (free_page e p) f
    → (extstore_check f p io.page_version ≡ false) × ((read_start f io).1 ≡ gone)
unfolding extstore_check read_start
freed-gone e f p io h k i r =
    let s = Reach-Stale p io.page_version h (freed-Stale e p io.page_version h k) r in
    let other : (f.pages p).version == io.page_version ≡ false = ground (arith, s.0) in
    let same : (f.pages io.page_id).version == io.page_version ≡ false =
      ap (λ q. (f.pages q).version == io.page_version) i ∙ other in
    (other, not_found f io same)
