-- ===== src/Extstore/Room.antt =====
-- Where objects lie: in the page's buffer, which lies in the page.
use mathlib.Core.Path.{subst}
use native.Mathlib.Nat.{lt_of_mul-lt-mul_right, mul-le-mul_right}
use analysis_memcached.Prelude.{
  ℕ, ◌+◌, ◌*◌, ◌≤◌, ◌<◌, ◌≡◌, refl, sym, ap, ◌∙◌, true, false, Option, none, some, List, [], ◌∷◌,
  ltb, ◌==◌, if◌then◌else◌, if_elim, option_elim, arith,
}
use analysis_memcached.Prelude.Memory.{update}
use analysis_memcached.Extstore.{
  Engine, StorePage, Io, Wbuf, set_page, take_free, activate, allocate_page, give_wbuf,
  extstore_submit, get_io_thread,
}

abbrev pub Multiple : ℕ → ℕ → Type 0
Multiple w n = (k : ℕ) × (n ≡ k * w)

-- A buffer is the last part that its page has allocated, behind what was flushed.
abbrev pub BufLaid : ℕ → StorePage → Option Wbuf → Type 0
BufLaid size page none = page.written ≡ page.allocated
BufLaid size page (some w) =
    (w.size ≡ size)
    × (w.offset + size ≡ page.allocated)
    × (page.written ≡ w.offset)
    × (w.buf_pos + w.free ≡ size)
    × (page.active ≡ true)

pub record PageLaid (page_size size : ℕ) (page : StorePage) : Type 0 where
  pub fits : page.allocated ≤ page_size
  pub parts : Multiple size page.allocated
  pub buffer : BufLaid size page page.wbuf

abbrev pub AllSized : ℕ → List Wbuf → Type 0
AllSized size [] = Unit
AllSized size (w ∷ ws) = (w.size ≡ size) × AllSized size ws

-- All pages are laid out in parts of the size of a buffer.
pub record Laid (size : ℕ) (e : Engine) : Type 0 where
  pub pages : (p : ℕ) → PageLaid e.page_size size (e.pages p)
  pub stack : AllSized size e.wbuf_stack
  pub whole : Multiple size e.page_size

-- A page that is not spent has room for another part.
pub part_fits : (size a n : ℕ) → a * size < n * size → a * size + size ≤ n * size
part_fits size a n h =
    let below : a < n = lt_of_mul-lt-mul_right size h in
    let next : a + 1 ≤ n = omega (arith, below) in omega (arith, mul-le-mul_right size next)

pub update_all {ℓ} :
    {A : Type 0} (P : A → Type ℓ) (f : ℕ → A) (p : ℕ) (x : A)
    → ((q : ℕ) → P (f q))
    → P x
    → (q : ℕ) → P (update f p x q)
update_all P f p x h k q = if_elim P (p == q) (λ _. k) (λ _. h q)

pub set-Laid :
    (size : ℕ) (e : Engine) (p : ℕ) (page : StorePage)
    → Laid size e
    → PageLaid e.page_size size page
    → Laid size (set_page e p page)
set-Laid size e p page l k = record {
  pages = update_all (PageLaid e.page_size size) e.pages p page l.pages k;
  stack = l.stack;
  whole = l.whole;
}

pub give_wbuf-Laid :
    (size : ℕ) (ws : List Wbuf) (e : Engine) (p : ℕ)
    → Laid size e
    → AllSized size ws
    → (e.pages p).wbuf ≡ none
    → (e.pages p).active ≡ true
    → (e.pages p).allocated < e.page_size
    → Laid size (give_wbuf ws e p)
unfolding give_wbuf
give_wbuf-Laid size [] e p l a n on h = l
give_wbuf-Laid size (w ∷ ws) e p l a n on h =
    let page = e.pages p in
    let laid = l.pages p in
    let (i, ie) = laid.parts in
    let (m, me) = l.whole in
    let flat : page.written ≡ page.allocated = subst (λ b. BufLaid size page b) n laid.buffer in
    record {
      pages = update_all (PageLaid e.page_size size) e.pages p _ l.pages (record {
        fits = omega (arith, a.0, ie, me, part_fits size i m (omega (arith, ie, me, h)));
        parts = (i + 1, omega (arith, ie, a.0));
        buffer = (a.0, ap (λ n. page.allocated + n) (sym a.0), flat, omega (arith, a.0), on);
      });
      stack = a.1;
      whole = l.whole;
    }

-- A page with the same extent and the same buffer, still active if it was.
pub buffer_same :
    (size : ℕ) (page page' : StorePage) (o : Option Wbuf)
    → page'.allocated ≡ page.allocated
    → page'.written ≡ page.written
    → (page.active ≡ true → page'.active ≡ true)
    → BufLaid size page o
    → BufLaid size page' o
buffer_same size page page' none a w on b = w ∙ b ∙ sym a
buffer_same size page page' (some x) a w on (b, c, d, f, g) = (b, c ∙ sym a, w ∙ d, f, on g)

pub same-PageLaid :
    (page_size size : ℕ) (page page' : StorePage)
    → page'.allocated ≡ page.allocated
    → page'.written ≡ page.written
    → page'.wbuf ≡ page.wbuf
    → (page.active ≡ true → page'.active ≡ true)
    → PageLaid page_size size page
    → PageLaid page_size size page'
same-PageLaid n size page page' a w b on l = record {
  fits = omega (arith, a, l.fits);
  parts = (l.parts.0, a ∙ l.parts.1);
  buffer =
      subst (λ o. BufLaid size page' o) (sym b)
        (buffer_same size page page' page.wbuf a w on l.buffer);
}

-- An operation that leaves the extents of the pages, and the free buffers, alone.
pub keep-Laid :
    (size : ℕ) (e f : Engine)
    → f.pages ≡ e.pages
    → f.wbuf_stack ≡ e.wbuf_stack
    → f.page_size ≡ e.page_size
    → Laid size e
    → Laid size f
keep-Laid size e f a b c l = record {
  pages = λ p.
      subst (λ n. PageLaid n size (f.pages p)) (sym c)
        (subst (λ (g : ℕ → StorePage). PageLaid e.page_size size (g p)) (sym a) (l.pages p));
  stack = subst (AllSized size) (sym b) l.stack;
  whole = subst (Multiple size) (sym c) l.whole;
}

-- A page is written back with its extent and its buffer.
pub rewrite-Laid :
    (size : ℕ) (e : Engine) (p : ℕ) (page : StorePage)
    → page.allocated ≡ (e.pages p).allocated
    → page.written ≡ (e.pages p).written
    → page.wbuf ≡ (e.pages p).wbuf
    → ((e.pages p).active ≡ true → page.active ≡ true)
    → Laid size e
    → Laid size (set_page e p page)
rewrite-Laid size e p page a w b on l =
    set-Laid size e p page l (same-PageLaid e.page_size size (e.pages p) page a w b on (l.pages p))

take_free-same :
    (e : Engine) (fb : ℕ)
    → ((take_free e fb).0.pages ≡ e.pages)
      × ((take_free e fb).0.wbuf_stack ≡ e.wbuf_stack)
      × ((take_free e fb).0.page_size ≡ e.page_size)
unfolding take_free
take_free-same e fb = ground arith

activate-Laid :
    (size : ℕ) (e : Engine) (bucket p : ℕ) → Laid size e → Laid size (activate e bucket p)
unfolding activate
activate-Laid size e bucket p l =
    let s =
      rewrite-Laid size e p
        (record (e.pages p) {
          active = true;
          free = false;
          closed = false;
          version = e.version;
          bucket = bucket;
        })
        refl refl refl (λ _. refl) l in
    keep-Laid size (set_page e p _) _ refl refl refl s

pub allocate_page-Laid :
    (size : ℕ) (e : Engine) (bucket fb : ℕ) → Laid size e → Laid size (allocate_page e bucket fb).0
unfolding allocate_page
allocate_page-Laid size e bucket fb l =
    let t = (take_free e fb).0 in
    let k = take_free-same e fb in
    let lt = keep-Laid size e t k.0 k.1 k.2 l in
    option_elim (λ (r : Engine × Option ℕ). Laid size r.0) (take_free e fb).1 (t, none)
      (λ p. ((if ltb 0 e.page_free then activate t bucket p else t), some p)) lt
      (λ p.
        if_elim (Laid size) (ltb 0 e.page_free) (λ _. activate-Laid size t bucket p lt) (λ _. lt))

pub submit-Laid :
    (size : ℕ) (e : Engine) (ios : List Io) → Laid size e → Laid size (extstore_submit e ios)
unfolding extstore_submit
submit-Laid size e ios l =
    option_elim (Laid size) (get_io_thread e) e _ l (λ t. keep-Laid size e _ refl refl refl l)
