-- ===== src/Extstore/Ages.antt =====
-- The versions of pages: a page that was freed is never taken for what it was.
use analysis_memcached.Prelude.{
  ℕ, ◌+◌, ◌^◌, ◌≤◌, ◌<◌, ◌≡◌, ◌⊎◌, inl, refl, not, ◌&&◌, Option, none, some, List, [], ◌∷◌, ltb,
  if◌then◌else◌, if_elim, option_elim, arith,
}
use analysis_memcached.Prelude.Memory.{update}
use analysis_memcached.Extstore.{
  Engine, StorePage, Io, Wbuf, set_page, take_free, activate, allocate_page, give_wbuf,
  allocate_wbuf, extstore_submit, get_io_thread, submit_wbuf, flush_small, ensure_wbuf, is_spent,
  request_page,
}

-- No version is given twice: a page keeps its version, loses it, or gets one that is new, and the next
-- one is newer.
pub record Ages (e e' : Engine) : Type 0 where
  pub grows : e.version ≤ e'.version
  pub page :
      (p : ℕ)
      → ((e'.pages p).version ≡ (e.pages p).version)
        ⊎ (((e'.pages p).version ≡ 0)
            ⊎ ((e.version ≤ (e'.pages p).version) × ((e'.pages p).version < e'.version)))

pub Ages-trans : (e f g : Engine) → Ages e f → Ages f g → Ages e g
Ages-trans e f g a b = record {
  grows = omega (arith, a.grows, b.grows);
  page = λ p. ground (arith, a.page p, b.page p, a.grows, b.grows);
}

-- All versions are as they were.
pub record SameAges (e e' : Engine) : Type 0 where
  pub version : e'.version ≡ e.version
  pub pages : (p : ℕ) → (e'.pages p).version ≡ (e.pages p).version

pub same-Ages : {e e' : Engine} → SameAges e e' → Ages e e'
same-Ages s = record { grows = omega (arith, s.version); page = λ p. inl (s.pages p) }

pub refl-Ages : (e : Engine) → Ages e e
refl-Ages e = same-Ages (record { version = refl; pages = λ p. refl })

-- A page is written back with its version.
pub page_version :
    (pages : ℕ → StorePage) (p : ℕ) (page : StorePage)
    → page.version ≡ (pages p).version
    → (q : ℕ) → (update pages p page q).version ≡ (pages q).version
page_version pages p page h q = ground arith

pub set-Ages :
    (e : Engine) (p : ℕ) (page : StorePage)
    → page.version ≡ (e.pages p).version
    → Ages e (set_page e p page)
set-Ages e p page h =
    same-Ages (record { version = refl; pages = λ q. page_version e.pages p page h q })

take_free-Ages : (e : Engine) (fb : ℕ) → SameAges e (take_free e fb).0
unfolding take_free
take_free-Ages e fb = record { version = ground arith; pages = λ p. ground arith }

activate-Ages : (e : Engine) (bucket p : ℕ) → e.version + 1 < 2 ^ 32 → Ages e (activate e bucket p)
unfolding activate
activate-Ages e bucket p h = record { grows = omega (arith, h); page = λ q. ground arith }

pub allocate_page-Ages :
    (e : Engine) (bucket fb : ℕ) → e.version + 1 < 2 ^ 32 → Ages e (allocate_page e bucket fb).0
unfolding allocate_page
allocate_page-Ages e bucket fb h =
    let t = (take_free e fb).0 in
    let k = take_free-Ages e fb in
    option_elim (λ (r : Engine × Option ℕ). Ages e r.0) (take_free e fb).1 (t, none)
      (λ p. ((if ltb 0 e.page_free then activate t bucket p else t), some p)) (same-Ages k)
      (λ p.
        if_elim (Ages e) (ltb 0 e.page_free)
          (λ _.
            Ages-trans e t (activate t bucket p) (same-Ages k)
              (activate-Ages t bucket p (omega (arith, h, k.version))))
          (λ _. same-Ages k))

give_wbuf-Ages : (ws : List Wbuf) (e : Engine) (p : ℕ) → Ages e (give_wbuf ws e p)
unfolding give_wbuf
give_wbuf-Ages [] e p = refl-Ages e
give_wbuf-Ages (w ∷ ws) e p =
    same-Ages (record { version = refl; pages = λ q. page_version e.pages p _ refl q })

pub submit-Ages : (e : Engine) (ios : List Io) → Ages e (extstore_submit e ios)
unfolding extstore_submit
submit-Ages e ios =
    option_elim (Ages e) (get_io_thread e) e _ (refl-Ages e)
      (λ t. same-Ages (record { version = refl; pages = λ q. refl }))

submit_wbuf-Ages : (e : Engine) (p : ℕ) (w : Wbuf) → Ages e (submit_wbuf e p w)
unfolding submit_wbuf
submit_wbuf-Ages e p w =
    Ages-trans e _ _
      (same-Ages (record { version = refl; pages = λ q. page_version e.pages p _ refl q }))
      (submit-Ages _ _)

flush_small-Ages : (e : Engine) (p len : ℕ) → Ages e (flush_small e p len)
unfolding flush_small
flush_small-Ages e p len = option_elim (Ages e) (e.pages p).wbuf e _ (refl-Ages e) (λ w.
    if_elim (Ages e) (ltb w.free len && not w.full) (λ _. submit_wbuf-Ages e p w)
      (λ _. refl-Ages e))

ensure_wbuf-Ages : (e : Engine) (p : ℕ) → Ages e (ensure_wbuf e p)
unfolding ensure_wbuf allocate_wbuf
ensure_wbuf-Ages e p =
    option_elim (Ages e) (e.pages p).wbuf
      (if ltb (e.pages p).allocated e.page_size then allocate_wbuf e p else e) (λ w. e)
      (if_elim (Ages e) (ltb (e.pages p).allocated e.page_size)
        (λ _. give_wbuf-Ages e.wbuf_stack e p) (λ _. refl-Ages e))
      (λ w. refl-Ages e)

pub request_page-Ages :
    (e : Engine) (bucket fb len p : ℕ)
    → e.version + 1 < 2 ^ 32
    → Ages e (request_page e bucket fb len p).0
unfolding request_page
request_page-Ages e bucket fb len p h =
    if_elim (λ (r : Engine × Option ℕ). Ages e r.0) (is_spent e (e.pages p))
      (λ _. allocate_page-Ages e bucket fb h)
      (λ _. Ages-trans e _ _ (flush_small-Ages e p len) (ensure_wbuf-Ages (flush_small e p len) p))
