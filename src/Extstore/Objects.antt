-- ===== src/Extstore/Objects.antt =====
-- The layout of the pages under the maintenance thread and in every engine that can be reached.
use analysis_memcached.Prelude.{
  ℕ, zero, suc, ◌≡◌, refl, true, false, not, ◌&&◌, ◌||◌, Option, none, some, ltb, ◌==◌, if_elim,
  arith,
}
use analysis_memcached.Extstore.{
  Engine, set_page, free_page, Pass, older, maint_page, maint_pages, evict_page, evict_low,
  maint_round,
}
use analysis_memcached.Extstore.Room.{Laid, keep-Laid, rewrite-Laid, submit-Laid}
use analysis_memcached.Extstore.Laid.{
  request-Laid, write-Laid, flushed-Laid, delete-Laid, close-Laid, pull-Laid, start-Laid,
  finish-Laid, free_page-Laid,
}
use analysis_memcached.Extstore.Stale.{
  Step, request, write, submit, flush, delete, close, pull, start, finish, maintain, Reach, here,
  next,
}

-- The page that a pass would evict is not being written.
abbrev LowIdle : Engine → Option (ℕ × ℕ) → Type 0
LowIdle e none = Unit
LowIdle e (some (p, version)) = (e.pages p).active ≡ false

record Sound (size : ℕ) (s : Pass) : Type 0 where
  laid : Laid size s.engine
  idle : LowIdle s.engine s.low

free_page-active :
    (e : Engine) (p q : ℕ) → (e.pages q).active ≡ false → ((free_page e p).pages q).active ≡ false
unfolding free_page
free_page-active e p q h = ground (arith, h)

free_page-LowIdle :
    (e : Engine) (p : ℕ) (low : Option (ℕ × ℕ)) → LowIdle e low → LowIdle (free_page e p) low
free_page-LowIdle e p none h = h
free_page-LowIdle e p (some (q, v)) h = free_page-active e p q h

maint_page-Sound : (size : ℕ) (s : Pass) (p : ℕ) → Sound size s → Sound size (maint_page s p)
unfolding maint_page
maint_page-Sound size s p k =
    let page = s.engine.pages p in
    if_elim (Sound size) (page.active || page.free) (λ _. record { laid = k.laid; idle = k.idle })
      (λ rest.
        let off : page.active ≡ false = ground (arith, rest) in
        let low =
          if_elim (LowIdle s.engine) (page.free_bucket == 0 && older s.low page.version) (λ _. off)
            (λ _. k.idle) in
        let marked =
          if_elim (Sound size) (ltb 0 page.obj_count && not page.closed)
            (λ _. record { laid = k.laid; idle = low })
            (λ _. record { laid = k.laid; idle = k.idle }) in
        if_elim (Sound size) ((page.obj_count == 0 || page.closed) && page.refcount == 0)
          (λ _. record {
            laid = free_page-Laid size s.engine p off k.laid;
            idle =
                if_elim (λ (t : Pass). LowIdle (free_page s.engine p) t.low)
                  (ltb 0 page.obj_count && not page.closed)
                  (λ _. free_page-LowIdle s.engine p _ low)
                  (λ _. free_page-LowIdle s.engine p s.low k.idle);
          })
          (λ _. marked))

maint_pages-Sound : (size p n : ℕ) (s : Pass) → Sound size s → Sound size (maint_pages p n s)
unfolding maint_pages
maint_pages-Sound size p zero s k = k
maint_pages-Sound size p (suc n) s k =
    maint_pages-Sound size (suc p) n (maint_page s p) (maint_page-Sound size s p k)

evict_page-Laid :
    (size : ℕ) (e : Engine) (p : ℕ)
    → Laid size e
    → (e.pages p).active ≡ false
    → Laid size (evict_page e p)
unfolding evict_page
evict_page-Laid size e p l off =
    let shut =
      keep-Laid size (set_page e p _) _ refl refl refl
        (rewrite-Laid size e p (record (e.pages p) { closed = true }) refl refl refl (λ a. a) l) in
    if_elim (Laid size) (e.pages p).closed (λ _. l)
      (λ _.
        if_elim (Laid size) ((e.pages p).refcount == 0)
          (λ _. free_page-Laid size _ p (ground (arith, off)) shut) (λ _. shut))

evict_low-Laid : (size : ℕ) (s : Pass) → Sound size s → Laid size (evict_low s)
unfolding evict_low
evict_low-Laid size s k = if_elim (Laid size) s.do_evict (λ _. pick s.low k.idle) (λ _. k.laid)
  where
    pick :
        (low : Option (ℕ × ℕ))
        → LowIdle s.engine low
        → Laid size (elim low [ none ↦ s.engine | some (p, version) ↦ evict_page s.engine p ])
    pick none h = k.laid
    pick (some (p, version)) h = evict_page-Laid size s.engine p k.laid h

maint-Laid : (size : ℕ) (e : Engine) → Laid size e → Laid size (maint_round e)
unfolding maint_round
maint-Laid size e l = keep-Laid size _ _ refl refl refl (
    evict_low-Laid size _
      (maint_pages-Sound size 0 e.page_count _ (record { laid = l; idle = tt })))

Step-Laid : (size : ℕ) {e f : Engine} → Step e f → Laid size e → Laid size f
Step-Laid size (request e b fb len h) l = request-Laid size e b fb len l
Step-Laid size (write e p bytes w b h) l = write-Laid size e p bytes w l b h
Step-Laid size (submit e ios) l = submit-Laid size e ios l
Step-Laid size (flush e p) l = flushed-Laid size e p l
Step-Laid size (delete e p v count bytes) l = delete-Laid size e p v count bytes l
Step-Laid size (close e p v) l = close-Laid size e p v l
Step-Laid size (pull e t) l = pull-Laid size e t l
Step-Laid size (start e io) l = start-Laid size e io l
Step-Laid size (finish e p) l = finish-Laid size e p l
Step-Laid size (maintain e) l = maint-Laid size e l

-- Whatever the threads do, the pages stay laid out: what a page has allocated is a number of buffers
-- that fits in it, its buffer is the last of them, behind what was flushed, and the free buffers have
-- the size of all.
pub Reach-Laid : (size : ℕ) {e f : Engine} → Laid size e → Reach e f → Laid size f
Reach-Laid size l here = l
Reach-Laid size l (next r st) = Step-Laid size st (Reach-Laid size l r)
