-- ===== src/Extstore/Init/Freed.antt =====
-- The safety of the places that items keep of their objects, from the start of the engine on.
use analysis_memcached.Prelude.{ℕ, ◌≡◌, ◌≢◌, inr, Bool, false, some, List, arith}
use analysis_memcached.Extstore.{Engine, Io, extstore_check, read_start, gone, free_page}
use analysis_memcached.Extstore.Stale.{Reach, Reach-Issued, freed-gone}
use analysis_memcached.Extstore.Init.{Conf, ConfFile, extstore_init}
use analysis_memcached.Extstore.Init.Started.{extstore_init-Issued}

-- In an engine that the threads have reached from its start, a page that holds objects is freed. From
-- then on, whatever the threads do until 2^32 - 3 versions were given out, a check of the version that
-- the page had fails, and a read of an object of that version finds nothing, also when the page
-- has been given to other objects.
pub freed-forgotten :
    (files : List ConfFile) (cf : Conf) (engine_made pages_made wbufs_made : Bool)
    (start e f : Engine) (p : ℕ) (io : Io)
    → extstore_init files cf engine_made pages_made wbufs_made ≡ some (inr start)
    → Reach start e
    → (e.pages p).version ≢ 0
    → io.page_id ≡ p
    → io.page_version ≡ (e.pages p).version
    → Reach (free_page e p) f
    → (extstore_check f p io.page_version ≡ false) × ((read_start f io).1 ≡ gone)
freed-forgotten files cf engine_made pages_made wbufs_made start e f p io i r n at v s =
    let issued =
      Reach-Issued r (extstore_init-Issued files cf engine_made pages_made wbufs_made start i) in
    freed-gone e f p io (ground (arith, n, v)) (omega (arith, v, issued.pages p)) at s
