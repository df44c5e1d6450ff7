-- ===== src/Bipbuffer/Tests.antt =====
-- Runs of the bip buffer, and its theorems at concrete buffers.
use analysis_memcached.Prelude.{◌+◌, ◌≡◌, refl, false, some, none, [], ◌∷◌, ◌++◌, arith}
use analysis_memcached.Prelude.Memory.{read}
use analysis_memcached.Bipbuffer.{
  Bipbuf, bipbuf_new, bipbuf_request, bipbuf_push, bipbuf_poll, bipbuf_peek, bipbuf_peek_all,
  bipbuf_used,
}
use analysis_memcached.Prelude.Int.{pos}
use analysis_memcached.Bipbuffer.Invariant.{IsValid}
use analysis_memcached.Bipbuffer.Fifo.{contents, fill, contents-push, contents-poll}

-- Eight bytes, of which those at offsets 2 to 5 are queued.
abbrev middle : Bipbuf
middle = record {
  size = 8;
  a_start = 2;
  a_end = 6;
  b_end = 0;
  b_inuse = false;
  bytes = λ i. 10 + i;
}

middle-IsValid : IsValid middle
middle-IsValid = ground arith

abbrev fresh : Bipbuf
fresh = record { size = 8; a_start = 0; a_end = 0; b_end = 0; b_inuse = false; bytes = λ i. 0 }

fresh_created : bipbuf_new (some (λ i. 0)) 8 ≡ some fresh
unfolding bipbuf_new
fresh_created = refl

peek_all-middle : bipbuf_peek_all middle ≡ some (2, 4)
unfolding bipbuf_peek_all
peek_all-middle = refl

used-middle : bipbuf_used middle ≡ pos 4
unfolding bipbuf_used
used-middle = refl

peek-middle : bipbuf_peek middle 7 ≡ none
unfolding bipbuf_peek
peek-middle = refl

contents-push_example :
    (contents (bipbuf_push (fill middle 6 (7 ∷ 9 ∷ [])) 2).0 ≡ contents middle ++ 7 ∷ 9 ∷ [])
    × ((bipbuf_push (fill middle 6 (7 ∷ 9 ∷ [])) 2).1 ≡ 2)
contents-push_example =
    contents-push middle (7 ∷ 9 ∷ []) 6 middle-IsValid (unfold bipbuf_request in refl)

contents-poll_example :
    let r = bipbuf_poll middle 3 in
    (r.1 ≡ some 2) × (contents middle ≡ read middle.bytes 2 3 ++ contents r.0)
contents-poll_example = contents-poll middle 3 middle-IsValid (omega arith) (omega arith)
