-- ===== src/Extstore/Held.antt =====
-- An object in the write buffer of its page, until the buffer is flushed.
use mathlib.Core.Path.{subst}
use analysis_memcached.Prelude.{
  ℕ, ◌+◌, ◌-◌, ◌≤◌, ◌≡◌, refl, sym, ap, ◌∙◌, Bool, true, false, not, ◌&&◌, some, List, length, leb,
  ◌==◌, if_elim, option_elim, arith, inl,
}
use analysis_memcached.Prelude.Memory.{update, memcpy, read, read-memcpy, read-memcpy_outside}
use analysis_memcached.Extstore.{
  Engine, StorePage, Wbuf, Io, write_object, fill_wbuf, extstore_delete, extstore_submit,
  get_io_thread, pull_batch, read_start, ReadPlan, in_wbuf, read_from_wbuf, read_done,
}
use analysis_memcached.Extstore.Room.{Laid, BufLaid}

-- The page is in use and its buffer holds the bytes at the place of the IO, behind what was flushed and in front
-- of what is written next.
record HeldIn (io : Io) (bytes : List ℕ) (page : StorePage) : Type 0 where
  pub w : Wbuf
  pub buffer : page.wbuf ≡ some w
  pub used : page.free ≡ false
  pub open_page : page.closed ≡ false
  pub version : page.version ≡ io.page_version
  pub active : page.active ≡ true
  pub past : page.written ≤ io.offset
  pub front : io.offset - w.offset + io.len ≤ w.buf_pos
  pub held : read w.buf (io.offset - w.offset) io.len ≡ bytes

-- What may happen before the buffer is flushed or sealed: further writes, to this page and others, where
-- they fit, deletes, reads, and the queues of the threads.
pub data Unflushed (e : Engine) : Engine → Type 0 where
  unwritten : Unflushed e e
  write :
      {f : Engine} (q : ℕ) (bytes : List ℕ) (w : Wbuf)
      → Unflushed e f
      → (f.pages q).wbuf ≡ some w
      → length bytes ≤ w.free
      → Unflushed e (write_object f q (length bytes) (fill_wbuf w bytes)).0
  delete :
      {f : Engine} (q v count bytes : ℕ)
      → Unflushed e f
      → Unflushed e (extstore_delete f q v count bytes).0
  submit : {f : Engine} (ios : List Io) → Unflushed e f → Unflushed e (extstore_submit f ios)
  pull : {f : Engine} (t : ℕ) → Unflushed e f → Unflushed e (pull_batch f t).0
  start : {f : Engine} (io : Io) → Unflushed e f → Unflushed e (read_start f io).0
  finish : {f : Engine} (q : ℕ) → Unflushed e f → Unflushed e (read_done f q)

module _ (io : Io) (bytes : List ℕ) where
  abbrev Held : ℕ → Engine → Type 0
  Held p e = HeldIn io bytes (e.pages p)

  set-Held :
      (pages : ℕ → StorePage) (p q : ℕ) (page : StorePage)
      → (HeldIn io bytes (pages q) → HeldIn io bytes page)
      → HeldIn io bytes (pages p)
      → HeldIn io bytes (update pages q page p)
  set-Held pages p q page k h =
      if_elim (HeldIn io bytes) (q == p)
        (λ e.
          let same : p ≡ q = ground (arith, e) in k (subst (λ n. HeldIn io bytes (pages n)) same h))
        (λ _. h)

  -- Another object behind this one.
  written-Held :
      (page : StorePage) (xs : List ℕ) (w : Wbuf)
      → page.wbuf ≡ some w
      → HeldIn io bytes page
      → HeldIn io bytes (record page {
        wbuf = some (record (fill_wbuf w xs) {
          buf_pos = w.buf_pos + length xs;
          free = w.free - length xs;
        });
        bytes_used = page.bytes_used + length xs;
        obj_count = page.obj_count + 1;
      })
  unfolding fill_wbuf
  written-Held page xs w b h =
      let same : h.w ≡ w = cc (h.buffer, b) in
      let front = subst (λ v. io.offset - v.offset + io.len ≤ v.buf_pos) same h.front in
      record {
        w = _;
        buffer = refl;
        used = h.used;
        open_page = h.open_page;
        version = h.version;
        active = h.active;
        past = h.past;
        front = omega (arith, front);
        held =
            read-memcpy_outside w.buf w.buf_pos xs (io.offset - w.offset) io.len (inl front)
            ∙ subst (λ v. read v.buf (io.offset - v.offset) io.len ≡ bytes) same h.held;
      }

  -- The page's counts may change.
  counts-Held :
      (page : StorePage) (objects used refs : ℕ)
      → HeldIn io bytes page
      → HeldIn io bytes (record page { obj_count = objects; bytes_used = used; refcount = refs })
  counts-Held page objects used refs h = record {
    w = h.w;
    buffer = h.buffer;
    used = h.used;
    open_page = h.open_page;
    version = h.version;
    active = h.active;
    past = h.past;
    front = h.front;
    held = h.held;
  }

  delete-Held :
      (e : Engine) (p q v count n : ℕ) → Held p e → Held p (extstore_delete e q v count n).0
  unfolding extstore_delete
  delete-Held e p q v count n h =
      if_elim (λ (r : Engine × Bool). Held p r.0)
        (not (e.pages q).closed && (e.pages q).version == v)
        (λ _. set-Held e.pages p q _ (counts-Held (e.pages q) _ _ (e.pages q).refcount) h) (λ _. h)

  start-Held : (e : Engine) (p : ℕ) (jo : Io) → Held p e → Held p (read_start e jo).0
  unfolding read_start
  start-Held e p jo h =
      let page = e.pages jo.page_id in
      let P = λ (r : Engine × ReadPlan). Held p r.0 in
      if_elim P (not page.free && not page.closed && page.version == jo.page_version)
        (λ _.
          if_elim P (page.active && leb page.written jo.offset) (λ _. h)
            (λ _.
              set-Held e.pages p jo.page_id _ (counts-Held page page.obj_count page.bytes_used _)
                h))
        (λ _. h)

  submit-Held : (e : Engine) (p : ℕ) (ios : List Io) → Held p e → Held p (extstore_submit e ios)
  unfolding extstore_submit
  submit-Held e p ios h = option_elim (Held p) (get_io_thread e) e _ h (λ t. h)

  Unflushed-Held : (p : ℕ) {e f : Engine} → Unflushed e f → Held p e → Held p f
  unfolding write_object pull_batch read_done fill_wbuf
  Unflushed-Held p unwritten h = h
  Unflushed-Held p (write {f} q xs w u b k) h =
      set-Held f.pages p q _ (written-Held (f.pages q) xs w b) (Unflushed-Held p u h)
  Unflushed-Held p (delete {f} q v count n u) h = delete-Held f p q v count n (Unflushed-Held p u h)
  Unflushed-Held p (submit {f} ios u) h = submit-Held f p ios (Unflushed-Held p u h)
  Unflushed-Held p (pull t u) h = Unflushed-Held p u h
  Unflushed-Held p (start {f} jo u) h = start-Held f p jo (Unflushed-Held p u h)
  Unflushed-Held p (finish {f} q u) h =
      set-Held f.pages p q _
        (counts-Held (f.pages q) (f.pages q).obj_count (f.pages q).bytes_used _)
        (Unflushed-Held p u h)

update_self : (f : ℕ → StorePage) (p : ℕ) (page : StorePage) → update f p page p ≡ page
update_self f p page = ground arith

-- A read past what was flushed of an active page.
read_start_wbuf :
    (e : Engine) (io : Io) (page : StorePage) (w : Wbuf)
    → e.pages io.page_id ≡ page
    → page.free ≡ false
    → page.closed ≡ false
    → page.version ≡ io.page_version
    → page.active ≡ true
    → page.written ≤ io.offset
    → page.wbuf ≡ some w
    → (read_start e io).1 ≡ in_wbuf (read_from_wbuf w io)
unfolding read_start
read_start_wbuf e io page w at used open_page version on past buffer = ground (arith, at)

-- In an engine whose pages are laid out, an object that fits in what is free of the buffer of its page,
-- which is in use and not closed, is placed behind what was flushed of the page and ends inside the
-- page; after any further writes, to this page and others, deletes and reads, as long as the
-- buffer is not flushed or sealed, a read of the object gives its bytes back.
pub write-read :
    (size : ℕ) (e f : Engine) (p : ℕ) (bytes : List ℕ) (w : Wbuf)
    → Laid size e
    → (e.pages p).wbuf ≡ some w
    → length bytes ≤ w.free
    → (e.pages p).free ≡ false
    → (e.pages p).closed ≡ false
    → Unflushed (write_object e p (length bytes) (fill_wbuf w bytes)).0 f
    → let io = (write_object e p (length bytes) (fill_wbuf w bytes)).1 in
      ((e.pages p).written ≤ io.offset)
      × (io.offset + io.len ≤ e.page_size)
      × ((read_start f io).1 ≡ in_wbuf bytes)
unfolding write_object fill_wbuf read_from_wbuf
write-read size e f p bytes w l h k used open_page u =
    let laid = l.pages p in
    let b = subst (λ o. BufLaid size (e.pages p) o) h laid.buffer in
    let r = write_object e p (length bytes) (fill_wbuf w bytes) in
    let after : (e.pages p).written ≤ w.offset + (w.size - w.free) = omega (arith, b) in
    let within : w.offset + (w.size - w.free) + length bytes ≤ e.page_size =
      omega (arith, b, k, laid.fits) in
    let at : w.offset + (w.size - w.free) - w.offset ≡ w.buf_pos = omega (arith, b) in
    let first : HeldIn r.1 bytes (r.0.pages p) =
      subst (HeldIn r.1 bytes) (sym (update_self e.pages p _)) (record {
        w = record w {
          buf = memcpy w.buf w.buf_pos bytes;
          buf_pos = w.buf_pos + length bytes;
          free = w.free - length bytes;
        };
        buffer = refl;
        used = used;
        open_page = open_page;
        version = refl;
        active = b.4;
        past = after;
        front = omega (arith, at);
        held =
            ap (λ n. read (memcpy w.buf w.buf_pos bytes) n (length bytes)) at
            ∙ read-memcpy w.buf w.buf_pos bytes;
      }) in
    let last = Unflushed-Held r.1 bytes p u first in
    (
      after,
      within,
      read_start_wbuf f r.1 (f.pages p) last.w refl last.used last.open_page last.version
            last.active last.past last.buffer
          ∙ ap in_wbuf last.held,
    )
