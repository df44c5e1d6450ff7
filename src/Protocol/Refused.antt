-- ===== src/Protocol/Refused.antt =====
-- A storing command whose item cannot be made: what becomes of its data.
use analysis_memcached.Prelude.{
  ℕ, zero, suc, ◌<◌, ◌≤◌, ltb, ◌==◌, ◌&&◌, ◌∷◌, take, ◌≡◌, refl, sym, ap, ◌∙◌, Bool, true, false,
  List, length, if◌then◌else◌, if_elim, arith,
}
use mathlib.Core.Path.{subst}
use analysis_memcached.Prelude.Memory.{memcpy, read, length-read, read-memcpy}
use analysis_memcached.Protocol.Framing.{unread}
use analysis_memcached.Prelude.Text.{codes}
use analysis_memcached.Store.{Comm}
use analysis_memcached.Protocol.Tokens.{TokenScan}
use analysis_memcached.Protocol.Conn.{
  Conn, Sizes, out_string, out_of_memory, conn_new_cmd, conn_write, conn_swallow, conn_parse_cmd,
  conn_shrink, move_down,
}
use analysis_memcached.Protocol.Commands.{Server, Calls, UpdateArgs, update_refused}
use analysis_memcached.Protocol.Buffer.{update_refused-Same}
use analysis_memcached.Protocol.Machine.{Request, Event, turn, turn_new_cmd, reset_cmd_handler}

abbrev Answered : Conn → Conn → Type 0
Answered c d = (d.state ≡ (if c.noreply then conn_new_cmd else conn_write)) × (d.noreply ≡ false)

out_string-Answered : (c : Conn) (str : List ℕ) → Answered c (out_string c str)
unfolding out_string
out_string-Answered c str = ground arith

out_of_memory-Answered : (c : Conn) (str : List ℕ) → Answered c (out_of_memory c str)
unfolding out_of_memory
out_of_memory-Answered c str = out_string-Answered c str

out_string-unread : (c : Conn) (str : List ℕ) → unread (out_string c str) ≡ unread c
unfolding out_string
out_string-unread c str =
    if_elim (λ (d : Conn). unread d ≡ unread c) c.noreply (λ _. refl) (λ _. refl)

out_of_memory-unread : (c : Conn) (str : List ℕ) → unread (out_of_memory c str) ≡ unread c
unfolding out_of_memory
out_of_memory-unread c str = out_string-unread c str

conn_shrink-rbytes :
    (sizes : Sizes) (resized : Bool) (place : ℕ) (c : Conn)
    → (conn_shrink sizes resized place c).rbytes ≡ c.rbytes
unfolding conn_shrink move_down
conn_shrink-rbytes sizes resized place c = ground arith

take-read : (m : ℕ → ℕ) (i n k : ℕ) → n ≤ k → take n (read m i k) ≡ read m i n
unfolding read
take-read m i zero k h = refl
take-read m i (suc n) zero h = absurd (omega arith)
take-read m i (suc n) (suc k) h = ap (λ v. m i ∷ v) (take-read m (suc i) n k (omega arith))

copied : (to m : ℕ → ℕ) (p i n : ℕ) → read (memcpy to p (read m i n)) p n ≡ read m i n
copied to m p i n =
    subst (λ k. read (memcpy to p (read m i n)) p k ≡ read m i n) (length-read m i n)
      (read-memcpy to p (read m i n))

copied_front :
    (to m : ℕ → ℕ) (p i n k : ℕ) → n ≤ k → read (memcpy to p (read m i k)) p n ≡ read m i n
copied_front to m p i n k h =
    sym (take-read (memcpy to p (read m i k)) p n k h)
    ∙ ap (take n) (copied to m p i k)
    ∙ take-read m i n k h

conn_shrink-unread :
    (sizes : Sizes) (resized : Bool) (place : ℕ) (c : Conn)
    → unread (conn_shrink sizes resized place c) ≡ unread c
unfolding conn_shrink move_down
conn_shrink-unread sizes resized place c =
    let moved = if c.rcurr == c.rbuf then c else move_down c in
    let down : read moved.bytes c.rbuf c.rbytes ≡ unread c =
      if_elim (λ (d : Conn). read d.bytes c.rbuf c.rbytes ≡ unread c) (c.rcurr == c.rbuf)
        (λ e.
          let same : c.rbuf ≡ c.rcurr = ground (arith, e) in ap (λ i. read c.bytes i c.rbytes) same)
        (λ _. copied c.bytes c.bytes c.rbuf c.rcurr c.rbytes) in
    let kept : moved.rbytes ≡ c.rbytes =
      if_elim (λ (d : Conn). d.rbytes ≡ c.rbytes) (c.rcurr == c.rbuf) (λ _. refl) (λ _. refl) in
    let size = sizes.data_buffer_size in
    if_elim (λ (d : Conn). unread d ≡ unread c)
      (ltb sizes.read_buffer_highwat c.rsize && ltb c.rbytes size)
      (λ big.
        let fits : c.rbytes ≤ size = ground (arith, big) in
        if_elim (λ (d : Conn). unread d ≡ unread c) resized
          (λ _.
            ap (read (memcpy moved.bytes place (read moved.bytes c.rbuf size)) place) kept
            ∙ copied_front moved.bytes moved.bytes place c.rbuf c.rbytes size fits
            ∙ down)
          (λ _. ap (read moved.bytes c.rbuf) kept ∙ down))
      (λ _. refl)

module _ (calls : Calls) (comm : Comm) (a : UpdateArgs) (key : List ℕ) (s : Server) (c : Conn) where
  -- A client that wants an answer gets one, and then its data is thrown away; for one that wants none
  -- the next command is read at once.
  pub update_refused-answer :
      let d = (update_refused calls comm a key s c).1 in
      (d.state ≡ (if c.noreply then conn_new_cmd else conn_write))
      × (d.write_and_go ≡ conn_swallow)
      × (d.sbytes ≡ a.vlen)
      × (d.noreply ≡ false)
  unfolding update_refused
  update_refused-answer =
      let h =
        if_elim (Answered c) (calls.item_size_ok (length key) a.flags a.vlen)
          (λ _. out_of_memory-Answered c (codes "SERVER_ERROR out of memory storing object"))
          (λ _. out_string-Answered c (codes "SERVER_ERROR object too large for cache")) in
      (h.0, refl, refl, h.1)

  update_refused-rbytes : (update_refused calls comm a key s c).1.rbytes ≡ c.rbytes
  update_refused-rbytes = (update_refused-Same calls comm a key s c).rbytes

  update_refused-unread : unread (update_refused calls comm a key s c).1 ≡ unread c
  unfolding update_refused
  update_refused-unread =
      if_elim (λ (d : Conn). unread d ≡ unread c) (calls.item_size_ok (length key) a.flags a.vlen)
        (λ _. out_of_memory-unread c (codes "SERVER_ERROR out of memory storing object"))
        (λ _. out_string-unread c (codes "SERVER_ERROR object too large for cache"))

  -- A storing command without an answer whose item cannot be made, while the connection may have one
  -- more command: the next turn leaves it about to parse a command from the very bytes that were
  -- unread, so that a data line among them is taken for a command instead of thrown away.
  pub refused-parsed :
      (sizes : Sizes) (others : Request → TokenScan → Server → Conn → Server × Conn) (fuel n : ℕ)
      (ev : Event)
      → c.noreply ≡ true
      → 0 < c.rbytes
      → let r = update_refused calls comm a key s c in
        let t = turn calls sizes others fuel ev r.1.state r.0 r.1 (suc n) in
        (t.conn.state ≡ conn_parse_cmd) × (unread t.conn ≡ unread c) × (t.stop ≡ false)
  unfolding turn turn_new_cmd reset_cmd_handler
  refused-parsed sizes others fuel n ev quiet some_left =
      let r = update_refused calls comm a key s c in
      let new : r.1.state ≡ conn_new_cmd =
        update_refused-answer.0 ∙ ap (λ b. if b then conn_new_cmd else conn_write) quiet in
      let left =
        conn_shrink-rbytes sizes ev.resized ev.new_place (record (r.1) { item = 0 })
        ∙ update_refused-rbytes in
      subst
        (λ state.
          let t = turn calls sizes others fuel ev state r.0 r.1 (suc n) in
          (t.conn.state ≡ conn_parse_cmd) × (unread t.conn ≡ unread c) × (t.stop ≡ false))
        (sym new)
        (
          ground (arith, left),
          ground (
            arith,
            left,
            conn_shrink-unread sizes ev.resized ev.new_place (record (r.1) { item = 0 }),
            update_refused-unread,
          ),
          refl,
        )
