-- ===== src/Bipbuffer/Invariant.antt =====
-- The cursors of a bip buffer stay in order, and the arithmetic on them never wraps.
use analysis_memcached.Prelude.{ℕ, ◌+◌, ◌-◌, ◌^◌, ◌≤◌, ◌<◌, ◌≡◌, false, if◌then◌else◌, List, arith}
use analysis_memcached.Prelude.Int.{pos}
use analysis_memcached.Bipbuffer.{
  Bipbuf, bipbuf_init, bipbuf_unused, bipbuf_push, bipbuf_offer, bipbuf_poll,
}

pub record IsValid (me : Bipbuf) : Type 0 where
  pub small : me.size < 2 ^ 31
  pub ordered : me.a_start ≤ me.a_end
  pub within : me.a_end ≤ me.size
  pub before : me.b_end ≤ me.a_start
  pub unused_b : me.b_inuse ≡ false → me.b_end ≡ 0
  pub rewound : me.a_start ≡ me.a_end → (me.a_start ≡ 0) × (me.b_inuse ≡ false)

pub bipbuf_init-IsValid :
    (memory : ℕ → ℕ) (size : ℕ) → size < 2 ^ 31 → IsValid (bipbuf_init memory size)
unfolding bipbuf_init
bipbuf_init-IsValid memory size h = ground arith

pub bipbuf_unused_lem :
    (me : Bipbuf)
    → IsValid me
    → bipbuf_unused me ≡ pos (if me.b_inuse then me.a_start - me.b_end else me.size - me.a_end)
unfolding bipbuf_unused
bipbuf_unused_lem me v = ground arith

-- A push keeps a valid buffer valid, whatever the size.
pub bipbuf_push-IsValid : (me : Bipbuf) (n : ℕ) → IsValid me → IsValid (bipbuf_push me n).0
unfolding bipbuf_push
bipbuf_push-IsValid me n v = ground arith

pub bipbuf_offer-IsValid :
    (me : Bipbuf) (src : List ℕ) → IsValid me → IsValid (bipbuf_offer me src).0
unfolding bipbuf_offer
bipbuf_offer-IsValid me src v = ground arith

pub bipbuf_poll-IsValid :
    (me : Bipbuf) (n : ℕ) → me.a_start + n ≤ me.a_end → IsValid me → IsValid (bipbuf_poll me n).0
unfolding bipbuf_poll
bipbuf_poll-IsValid me n h v = ground arith
