-- ===== src/Items/Crawl/Tests.antt =====
-- A crawler, the placeholder 9, behind the items 100 and 200 of queue 1.
use analysis_memcached.Prelude.{
  ℕ, ◌≡◌, refl, List, [], ◌∷◌, ◌++◌, ◌==◌, arith, if◌then◌else◌, length,
}
use analysis_memcached.Item.{Mem}
use analysis_memcached.Slabs.{cleared}
use analysis_memcached.Items.{World, item_at}
use analysis_memcached.Items.Sample.{start}
use analysis_memcached.Items.Crawl.{do_item_crawl_q}
use analysis_memcached.Items.Crawl.Pass.{Threaded, do_item_crawl_q-Threaded}
use analysis_memcached.Items.Crawl.Visits.{crawl, backwards, crawl-visits}

abbrev queued : Mem
queued a =
    if a == 100
    then record cleared { slabs_clsid = 1; next = 200 }
    else if a == 200
    then record cleared { slabs_clsid = 1; next = 9; prev = 100 }
    else record cleared { slabs_clsid = 1; prev = 200 }

abbrev crawled : World
crawled = record start {
  slabs = record (start.slabs) { mem = queued };
  heads = λ i. 100;
  tails = λ i. 9;
}

abbrev ahead : List ℕ
ahead = 200 ∷ 100 ∷ []

abbrev queue : ℕ
queue = 1

in_queue : (item_at crawled 9).slabs_clsid ≡ queue
unfolding cleared
in_queue = refl

crawled-Threaded : Threaded crawled queue (100 ∷ 200 ∷ 9 ∷ [])
unfolding cleared
crawled-Threaded = record {
  links = (
    refl,
    (λ e. omega (arith, e)),
    refl,
    (refl, (λ e. omega (arith, e)), refl, (refl, (λ e. omega (arith, e)), refl, refl)),
  );
  tail = refl;
  distinct = (
    ((λ e. omega (arith, e)), ((λ e. omega (arith, e)), tt)),
    (((λ e. omega (arith, e)), tt), (tt, tt)),
  );
  home = (refl, (refl, (refl, tt)));
}

do_item_crawl_q-Threaded_example :
    let r = do_item_crawl_q crawled 9 in
    Threaded r.0 (item_at crawled 9).slabs_clsid ((100 ∷ []) ++ 9 ∷ 200 ∷ []) × (r.1 ≡ 200)
do_item_crawl_q-Threaded_example =
    do_item_crawl_q-Threaded crawled 9 200 (100 ∷ []) [] (unfold cleared in crawled-Threaded)

crawl-visits_example :
    let c = crawl (length ahead) crawled 9 in
    (c.1 ≡ ahead) × Threaded c.0 queue (9 ∷ backwards ahead []) × ((do_item_crawl_q c.0 9).1 ≡ 0)
crawl-visits_example = crawl-visits crawled 9 queue ahead [] in_queue crawled-Threaded
