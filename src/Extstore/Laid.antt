-- ===== src/Extstore/Laid.antt =====
-- The operations of the engine keep its pages laid out in parts of a buffer's size.
use mathlib.Core.Path.{subst}
use analysis_memcached.Prelude.{
  ℕ, ◌+◌, ◌≤◌, ◌≡◌, refl, sym, ◌∙◌, Bool, true, false, not, ◌&&◌, Option, none, some, List, length,
  ltb, leb, ◌==◌, if◌then◌else◌, if_elim, option_elim, option_cases, arith,
}
use analysis_memcached.Extstore.{
  Engine, StorePage, Io, Wbuf, set_page, allocate_page, allocate_wbuf, extstore_submit, submit_wbuf,
  flush_small, ensure_wbuf, is_spent, request_page, extstore_write_request, write_object, fill_wbuf,
  first_page, flushed_page, wbuf_cb, extstore_delete, extstore_close_page, pull_batch, read_start,
  ReadPlan, read_done, free_page, reset_page,
}
use analysis_memcached.Extstore.Room.{
  Laid, PageLaid, BufLaid, set-Laid, keep-Laid, rewrite-Laid, give_wbuf-Laid, allocate_page-Laid,
  submit-Laid, update_all,
}

module _ (size : ℕ) where
  -- A page whose buffer is written or sealed.
  sealed-Laid :
      (e : Engine) (p : ℕ) (w w' : Wbuf) (page : StorePage)
      → Laid size e
      → (e.pages p).wbuf ≡ some w
      → page.allocated ≡ (e.pages p).allocated
      → page.written ≡ (e.pages p).written
      → page.active ≡ (e.pages p).active
      → page.wbuf ≡ some w'
      → (w'.size ≡ w.size) × (w'.offset ≡ w.offset)
      → w'.buf_pos + w'.free ≡ w.buf_pos + w.free
      → Laid size (set_page e p page)
  sealed-Laid e p w w' page l h al wr ac wb (a, b) c =
      let laid = l.pages p in
      let k = subst (λ o. BufLaid size (e.pages p) o) h laid.buffer in
      set-Laid size e p page l (record {
        fits = omega (arith, al, laid.fits);
        parts = (laid.parts.0, al ∙ laid.parts.1);
        buffer =
            subst (λ o. BufLaid size page o) (sym wb)
              (a ∙ k.0, omega (arith, b, k.1, al), wr ∙ k.2 ∙ sym b, c ∙ k.3, ac ∙ k.4);
      })

  submit_wbuf-Laid :
      (e : Engine) (p : ℕ) (w : Wbuf)
      → Laid size e
      → (e.pages p).wbuf ≡ some w
      → Laid size (submit_wbuf e p w)
  unfolding submit_wbuf
  submit_wbuf-Laid e p w l h = submit-Laid size _ _ (
      keep-Laid size (set_page e p _) _ refl refl refl
        (sealed-Laid e p w _ _ l h refl refl refl refl (refl, refl) refl))

  flush_small-Laid : (e : Engine) (p len : ℕ) → Laid size e → Laid size (flush_small e p len)
  unfolding flush_small
  flush_small-Laid e p len l =
      option_cases (Laid size) (e.pages p).wbuf e
        (λ w. if ltb w.free len && not w.full then submit_wbuf e p w else e) (λ _. l)
        (λ w h.
          if_elim (Laid size) (ltb w.free len && not w.full) (λ _. submit_wbuf-Laid e p w l h)
            (λ _. l))

  flush_small-active :
      (e : Engine) (p len : ℕ) → ((flush_small e p len).pages p).active ≡ (e.pages p).active
  unfolding flush_small submit_wbuf extstore_submit
  flush_small-active e p len = ground arith

  ensure_wbuf-Laid :
      (e : Engine) (p : ℕ) → Laid size e → (e.pages p).active ≡ true → Laid size (ensure_wbuf e p)
  unfolding ensure_wbuf allocate_wbuf
  ensure_wbuf-Laid e p l on =
      option_cases (Laid size) (e.pages p).wbuf
        (if ltb (e.pages p).allocated e.page_size then allocate_wbuf e p else e) (λ w. e)
        (λ n.
          if_elim (Laid size) (ltb (e.pages p).allocated e.page_size)
            (λ h. give_wbuf-Laid size e.wbuf_stack e p l l.stack n on (ground (arith, h))) (λ _. l))
        (λ w _. l)

  spent_active : (e : Engine) (page : StorePage) → is_spent e page ≡ false → page.active ≡ true
  unfolding is_spent
  spent_active e page h = ground (arith, h)

  request_page-Laid :
      (e : Engine) (bucket fb len p : ℕ)
      → Laid size e
      → Laid size (request_page e bucket fb len p).0
  unfolding request_page
  request_page-Laid e bucket fb len p l =
      if_elim (λ (r : Engine × Option ℕ). Laid size r.0) (is_spent e (e.pages p))
        (λ _. allocate_page-Laid size e bucket fb l)
        (λ h.
          ensure_wbuf-Laid (flush_small e p len) p (flush_small-Laid e p len l)
            (flush_small-active e p len ∙ spent_active e (e.pages p) h))

  pub request-Laid :
      (e : Engine) (bucket fb len : ℕ)
      → Laid size e
      → Laid size (extstore_write_request e bucket fb len).0
  unfolding extstore_write_request
  request-Laid e bucket fb len l =
      let made = allocate_page e bucket fb in
      let a = allocate_page-Laid size e bucket fb l in
      let P = λ (r : Engine × Option ℕ). Laid size r.0 in
      if_elim P (leb e.page_bucketcount bucket) (λ _. l)
        (λ _.
          option_elim P (first_page (e.page_buckets bucket)) _ (λ p. request_page e bucket fb len p)
            (option_elim P made.1 (made.0, none) (λ p. request_page made.0 bucket fb len p) a
              (λ p. request_page-Laid made.0 bucket fb len p a))
            (λ p. request_page-Laid e bucket fb len p l))

  pub write-Laid :
      (e : Engine) (p : ℕ) (bytes : List ℕ) (w : Wbuf)
      → Laid size e
      → (e.pages p).wbuf ≡ some w
      → length bytes ≤ w.free
      → Laid size (write_object e p (length bytes) (fill_wbuf w bytes)).0
  unfolding write_object fill_wbuf
  write-Laid e p bytes w l h k =
      keep-Laid size (set_page e p _) _ refl refl refl
        (sealed-Laid e p w _ _ l h refl refl refl refl (refl, refl) (omega (arith, k)))

  pub flushed-Laid : (e : Engine) (p : ℕ) → Laid size e → Laid size (wbuf_cb e p)
  unfolding wbuf_cb flushed_page
  flushed-Laid e p l =
      option_cases (Laid size) (e.pages p).wbuf e (λ w. flushed_page e p w) (λ _. l)
        (λ w h.
          let laid = l.pages p in
          let k = subst (λ o. BufLaid size (e.pages p) o) h laid.buffer in
          record {
            pages = update_all (PageLaid e.page_size size) e.pages p _ l.pages (record {
              fits = laid.fits;
              parts = laid.parts;
              buffer = omega (arith, k.0, k.1, k.2);
            });
            stack = (k.0, l.stack);
            whole = l.whole;
          })

  pub delete-Laid :
      (e : Engine) (p v count bytes : ℕ)
      → Laid size e
      → Laid size (extstore_delete e p v count bytes).0
  unfolding extstore_delete
  delete-Laid e p v count bytes l =
      if_elim (λ (r : Engine × Bool). Laid size r.0)
        (not (e.pages p).closed && (e.pages p).version == v)
        (λ _.
          keep-Laid size (set_page e p _) _ refl refl refl
            (rewrite-Laid size e p _ refl refl refl (λ a. a) l))
        (λ _. l)

  pub close-Laid : (e : Engine) (p v : ℕ) → Laid size e → Laid size (extstore_close_page e p v)
  unfolding extstore_close_page
  close-Laid e p v l =
      if_elim (Laid size) (not (e.pages p).closed && (e.pages p).version == v)
        (λ _. rewrite-Laid size e p _ refl refl refl (λ a. a) l) (λ _. l)

  pub pull-Laid : (e : Engine) (t : ℕ) → Laid size e → Laid size (pull_batch e t).0
  unfolding pull_batch
  pull-Laid e t l = keep-Laid size e _ refl refl refl l

  pub start-Laid : (e : Engine) (io : Io) → Laid size e → Laid size (read_start e io).0
  unfolding read_start
  start-Laid e io l =
      let page = e.pages io.page_id in
      let P = λ (r : Engine × ReadPlan). Laid size r.0 in
      if_elim P (not page.free && not page.closed && page.version == io.page_version)
        (λ _.
          if_elim P (page.active && leb page.written io.offset)
            (λ _. keep-Laid size e _ refl refl refl l)
            (λ _.
              keep-Laid size (set_page e io.page_id _) _ refl refl refl
                (rewrite-Laid size e io.page_id _ refl refl refl (λ a. a) l)))
        (λ _. l)

  pub finish-Laid : (e : Engine) (p : ℕ) → Laid size e → Laid size (read_done e p)
  unfolding read_done
  finish-Laid e p l = rewrite-Laid size e p _ refl refl refl (λ a. a) l

  idle_buffer :
      (page : StorePage) (o : Option Wbuf)
      → page.active ≡ false
      → BufLaid size page o
      → BufLaid size (reset_page page) o
  idle_buffer page none off b = refl
  idle_buffer page (some w) off (a, b, c, d, on) = cc

  pub free_page-Laid :
      (e : Engine) (p : ℕ) → (e.pages p).active ≡ false → Laid size e → Laid size (free_page e p)
  unfolding free_page
  free_page-Laid e p off l =
      keep-Laid size (set_page e p (reset_page (e.pages p))) _ refl refl refl (
        set-Laid size e p (reset_page (e.pages p)) l (record {
          fits = omega arith;
          parts = (0, omega arith);
          buffer = idle_buffer (e.pages p) (e.pages p).wbuf off (l.pages p).buffer;
        }))
