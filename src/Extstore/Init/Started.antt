-- ===== src/Extstore/Init/Started.antt =====
-- The engine that extstore_init starts with.
use mathlib.Core.Path.{subst}
use native.Mathlib.Nat.{div-add-mod}
use analysis_memcached.Prelude.{
  ℕ, zero, suc, ◌+◌, ◌-◌, ◌/◌, ◌%◌, ◌≡◌, ◌≢◌, ◌<◌, true, ◌||◌, if_elim, ◌⊎◌, inl, inr, refl, sym,
  ap, ◌∙◌, Bool, Option, none, some, List, [], ◌∷◌, ◌++◌, append-nil, append_assoc, ◌==◌,
  if◌then◌else◌, option_elim, option_cases, arith,
}
use analysis_memcached.Extstore.State.{StorePage, Engine}
use analysis_memcached.Extstore.Stale.{Reach, Issued}
use analysis_memcached.Extstore.Room.{Laid, PageLaid, keep-Laid, AllSized, Multiple}
use analysis_memcached.Extstore.Objects.{Reach-Laid}
use analysis_memcached.Extstore.Init.{
  Conf, ConfFile, InitError, check_conf, check_files, temp_page_count, stack_page, stack_pages,
  wbufs_new, blank_engine, init_pages, extstore_init, init_devices, init_engine,
}
use analysis_memcached.Extstore.Init.Laying.{init_pages-returns, lay_pages-all}

-- extstore_init ends, with an error or an engine, for all devices and all sizes of pages and buffers,
-- if that of the buffers is not 0 and there is memory for them: the search for a device with pages
-- left finds one for each page.
pub extstore_init-returns :
    (files : List ConfFile) (cf : Conf) (engine_made pages_made : Bool)
    → 0 < cf.wbuf_size
    → extstore_init files cf engine_made pages_made true ≢ none
unfolding extstore_init init_devices init_engine
extstore_init-returns files cf engine_made pages_made h =
    if_elim (λ r. r ≢ none) (cf.wbuf_size == 0) (λ e. absurd (ground (arith, e, h)))
      (λ _.
        option_elim (λ r. r ≢ none) (check_conf cf)
          (init_devices files cf engine_made pages_made true) (λ err. some (inl err))
          (option_elim (λ r. r ≢ none) (check_files files engine_made pages_made) _
            (λ err. some (inl err))
            (option_cases (λ r. r ≢ none) (init_pages files) none
              (λ pages.
                some (inr (stack_pages (blank_engine files cf pages) (temp_page_count files - 1))))
              (λ e. absurd (init_pages-returns files e)) (λ pages e. λ n. cc))
            (λ err. λ n. cc))
          (λ err. λ n. cc))

-- What holds of an engine, where there is one.
abbrev WhenStarted : (Engine → Type 0) → Option (InitError ⊎ Engine) → Type 0
WhenStarted P none = Unit
WhenStarted P (some (inl err)) = Unit
WhenStarted P (some (inr e)) = P e

init_devices-elim :
    (P : Engine → Type 0) (files : List ConfFile) (cf : Conf)
    (engine_made pages_made wbufs_made : Bool)
    → ((pages : ℕ → StorePage)
        → init_pages files ≡ some pages
        → P (stack_pages (blank_engine files cf pages) (temp_page_count files - 1)))
    → WhenStarted P (init_devices files cf engine_made pages_made wbufs_made)
unfolding init_devices init_engine
init_devices-elim P files cf engine_made pages_made wbufs_made h =
    let whole = λ (o : Option Engine).
      elim o as (λ (u : Option Engine). Option (InitError ⊎ Engine)) [
        | none ↦ none
        | some e ↦ some (inr e)
      ] in
    option_elim (WhenStarted P) (check_files files engine_made pages_made) _ (λ err. some (inl err))
      (option_cases (WhenStarted P) (init_pages files) none
        (λ pages. whole (init_engine files cf wbufs_made pages)) (λ e. tt)
        (λ pages e.
          if_elim (λ o. WhenStarted P (whole o)) (wbufs_made || cf.wbuf_count == 0) (λ _. h pages e)
            (λ _. tt)))
      (λ err. tt)

init-elim :
    (P : Engine → Type 0) (files : List ConfFile) (cf : Conf)
    (engine_made pages_made wbufs_made : Bool)
    → ((pages : ℕ → StorePage)
        → check_conf cf ≡ none
        → init_pages files ≡ some pages
        → P (stack_pages (blank_engine files cf pages) (temp_page_count files - 1)))
    → WhenStarted P (extstore_init files cf engine_made pages_made wbufs_made)
unfolding extstore_init
init-elim P files cf engine_made pages_made wbufs_made h =
    if_elim (WhenStarted P) (cf.wbuf_size == 0) (λ _. tt)
      (λ _.
        option_cases (WhenStarted P) (check_conf cf)
          (init_devices files cf engine_made pages_made wbufs_made) (λ err. some (inl err))
          (λ c.
            init_devices-elim P files cf engine_made pages_made wbufs_made (λ pages e. h pages c e))
          (λ err e. tt))

-- The loop over the free lists changes nothing else.
record Kept (e f : Engine) : Type 0 where
  pub pages : f.pages ≡ e.pages
  pub page_size : f.page_size ≡ e.page_size
  pub page_count : f.page_count ≡ e.page_count
  pub wbuf_stack : f.wbuf_stack ≡ e.wbuf_stack
  pub version : f.version ≡ e.version

stack_pages-Kept : (e : Engine) (i : ℕ) → Kept e (stack_pages e i)
unfolding stack_pages
stack_pages-Kept e zero = record {
  pages = refl;
  page_size = refl;
  page_count = refl;
  wbuf_stack = refl;
  version = refl;
}
stack_pages-Kept e (suc i) =
    let k = stack_pages-Kept (stack_page e (suc i)) i in
    record {
      pages = k.pages;
      page_size = k.page_size;
      page_count = k.page_count;
      wbuf_stack = k.wbuf_stack;
      version = k.version;
    }

wbufs-sized : (size n : ℕ) → AllSized size (wbufs_new size n)
wbufs-sized size zero = tt
wbufs-sized size (suc n) = (refl, wbufs-sized size n)

-- The size of a page is one of whole buffers.
page-Multiple : (cf : Conf) → check_conf cf ≡ none → Multiple cf.wbuf_size cf.page_size
unfolding check_conf
page-Multiple cf h =
    let even : cf.page_size % cf.wbuf_size ≡ 0 = ground (arith, h) in
    (cf.page_size / cf.wbuf_size, omega (arith, even, div-add-mod cf.page_size cf.wbuf_size))

fresh-Laid :
    (files : List ConfFile) (cf : Conf) (pages : ℕ → StorePage)
    → check_conf cf ≡ none
    → init_pages files ≡ some pages
    → Laid cf.wbuf_size (stack_pages (blank_engine files cf pages) (temp_page_count files - 1))
fresh-Laid files cf pages c laid =
    let k = stack_pages-Kept (blank_engine files cf pages) (temp_page_count files - 1) in
    keep-Laid cf.wbuf_size (blank_engine files cf pages) _ k.pages k.wbuf_stack k.page_size
      (record {
        pages =
            lay_pages-all (PageLaid cf.page_size cf.wbuf_size) files (temp_page_count files) 0 0 _ _
              pages (λ fb. record { fits = omega arith; parts = (0, omega arith); buffer = refl })
              (λ q. record { fits = omega arith; parts = (0, omega arith); buffer = refl }) laid;
        stack = wbufs-sized cf.wbuf_size cf.wbuf_count;
        whole = page-Multiple cf c;
      })

pub extstore_init-Issued :
    (files : List ConfFile) (cf : Conf) (engine_made pages_made wbufs_made : Bool) (e : Engine)
    → extstore_init files cf engine_made pages_made wbufs_made ≡ some (inr e)
    → Issued e
extstore_init-Issued files cf engine_made pages_made wbufs_made e h = subst (WhenStarted Issued) h (
    init-elim Issued files cf engine_made pages_made wbufs_made (λ pages c laid.
      let k = stack_pages-Kept (blank_engine files cf pages) (temp_page_count files - 1) in
      record {
        some_given = omega (arith, k.version);
        pages = λ p.
            let none_yet =
              lay_pages-all (λ page. page.version ≡ 0) files (temp_page_count files) 0 0 _ _ pages
                (λ fb. refl) (λ q. refl) laid p in
            omega (arith, k.version, none_yet, ap (λ (g : ℕ → StorePage). (g p).version) k.pages);
      }))

-- Every engine that the threads reach from the one that extstore_init gives has its pages laid out: what
-- a page has allocated is a number of buffers that fits in it, its buffer is the last of them, behind
-- what was flushed, and the free buffers have the size of all.
pub extstore_init-Laid :
    (files : List ConfFile) (cf : Conf) (engine_made pages_made wbufs_made : Bool) (e f : Engine)
    → extstore_init files cf engine_made pages_made wbufs_made ≡ some (inr e)
    → Reach e f
    → Laid cf.wbuf_size f
extstore_init-Laid files cf engine_made pages_made wbufs_made e f h r =
    Reach-Laid cf.wbuf_size
      (subst (WhenStarted (Laid cf.wbuf_size)) h (
        init-elim (Laid cf.wbuf_size) files cf engine_made pages_made wbufs_made
          (λ pages c laid. fresh-Laid files cf pages c laid)))
      r

-- The free list for a bucket.
abbrev pub free_list : Engine → ℕ → List ℕ
free_list e b = if b == 0 then e.page_freelist else e.free_page_buckets b

abbrev if_listed : (ℕ → StorePage) → ℕ → ℕ → List ℕ
if_listed pages b p = if (pages p).free_bucket == b then p ∷ [] else []

-- The pages from 1 to `i` that belong to a bucket, in order.
abbrev pub with_bucket : (ℕ → StorePage) → ℕ → ℕ → List ℕ
with_bucket pages b zero = []
with_bucket pages b (suc i) = with_bucket pages b i ++ if_listed pages b (suc i)

stack_page-free_list :
    (e : Engine) (p b : ℕ) → free_list (stack_page e p) b ≡ if_listed e.pages b p ++ free_list e b
stack_page-free_list e p b = ground arith

record Listed (e : Engine) (i : ℕ) (f : Engine) : Type 0 where
  pub lists : (b : ℕ) → free_list f b ≡ with_bucket e.pages b i ++ free_list e b
  pub amount : f.page_free ≡ e.page_free + i

stack_pages-Listed : (e : Engine) (i : ℕ) → Listed e i (stack_pages e i)
unfolding stack_pages
stack_pages-Listed e zero = record { lists = λ b. refl; amount = omega arith }
stack_pages-Listed e (suc i) =
    let k = stack_pages-Listed (stack_page e (suc i)) i in
    record {
      lists = λ b.
          k.lists b
          ∙ ap (λ v. with_bucket e.pages b i ++ v) (stack_page-free_list e (suc i) b)
          ∙ sym (
              append_assoc (with_bucket e.pages b i) (if_listed e.pages b (suc i)) (free_list e b));
      amount = omega (arith, k.amount);
    }

-- The free lists hold the pages from 1 on.
abbrev pub AllListed : Engine → Type 0
AllListed e =
    ((b : ℕ) → free_list e b ≡ with_bucket e.pages b (e.page_count - 1))
    × (e.page_free ≡ e.page_count - 1)

all-listed :
    (files : List ConfFile) (cf : Conf) (pages : ℕ → StorePage)
    → AllListed (stack_pages (blank_engine files cf pages) (temp_page_count files - 1))
all-listed files cf pages =
    let start = blank_engine files cf pages in
    let n = temp_page_count files - 1 in
    let f = stack_pages start n in
    let k = stack_pages-Kept start n in
    let l = stack_pages-Listed start n in
    (
      λ b.
          let empty : free_list start b ≡ [] = ground arith in
          l.lists b
          ∙ ap (λ v. with_bucket pages b n ++ v) empty
          ∙ append-nil (with_bucket pages b n)
          ∙ ap (λ g. with_bucket g b n) (sym k.pages)
          ∙ ap (λ m. with_bucket f.pages b (m - 1)) (sym k.page_count),
      omega (arith, l.amount, k.page_count),
    )

-- The free lists of the engine that extstore_init gives hold the pages from 1 on, each on the list of
-- its bucket and in order, and so many are counted as free: page 0 is on no list.
pub extstore_init-AllListed :
    (files : List ConfFile) (cf : Conf) (engine_made pages_made wbufs_made : Bool) (e : Engine)
    → extstore_init files cf engine_made pages_made wbufs_made ≡ some (inr e)
    → AllListed e
extstore_init-AllListed files cf engine_made pages_made wbufs_made e h =
    subst (WhenStarted AllListed) h (
      init-elim AllListed files cf engine_made pages_made wbufs_made
        (λ pages c laid. all-listed files cf pages))
