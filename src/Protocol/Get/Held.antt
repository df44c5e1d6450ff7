-- ===== src/Protocol/Get/Held.antt =====
-- The answer to a key whose item was found, where there is memory for it.
use analysis_memcached.Prelude.{
  ℕ, ◌+◌, ◌≡◌, refl, ap, ◌∙◌, Bool, true, not, ◌||◌, List, [], ◌∷◌, ◌++◌, length, take, ◌-◌,
  if◌then◌else◌, if_elim, arith,
}
use analysis_memcached.Prelude.Text.{codes}
use analysis_memcached.Items.{World, item_at}
use analysis_memcached.Protocol.Commands.{Calls}
use analysis_memcached.Protocol.Get.{
  GetCalls, Gets, Served, kept, add_iovs, hold, add_chunks, answer_suffixed, answer_inline,
  answer_hit,
}

-- Memory for the answer is always there.
pub record Granted (g : GetCalls) : Type 0 where
  pub expanded : (i : ℕ) → g.expanded i ≡ true
  pub suffix_buf : (i : ℕ) → g.suffix_buf i ≡ true
  pub iov_space : (n : ℕ) → g.iov_space n ≡ true
  pub chunked :
      (w : World) (it : ℕ) (pieces : List (List ℕ)) → (g.chunked_iovs w it pieces).1 ≡ true

module _ (calls : Calls) (g : GetCalls) (granted : Granted g) (return_cas should_touch : Bool)
    (exptime : ℕ) where
  -- The server and the items of a state.
  record SameGets (st after : Gets) : Type 0 where
    pub server : after.server ≡ st.server
    pub items : after.items ≡ st.items

  add_iovs-SameGets :
      (xs : List (List ℕ)) (st : Gets)
      → let r = add_iovs calls g return_cas should_touch exptime xs st in
        SameGets st r.0 × (r.1 ≡ true)
  unfolding add_iovs
  add_iovs-SameGets [] st = (record { server = refl; items = refl }, refl)
  add_iovs-SameGets (x ∷ xs) st =
      if_elim (λ (r : Gets × Bool). SameGets st r.0 × (r.1 ≡ true)) (g.iov_space (length st.pieces))
        (λ _.
          let r = add_iovs-SameGets xs (record st { pieces = st.pieces ++ x ∷ [] }) in
          (record { server = r.0.server; items = r.0.items }, r.1))
        (λ e. absurd (cc (granted.iov_space (length st.pieces))))

  -- An item is held for the answer.
  pub record IsHeld (it : ℕ) (st : Gets) (r : Served) : Type 0 where
    pub after : Gets
    pub kept : r ≡ kept after
    pub server : after.server ≡ st.server
    pub items : after.items ≡ st.items ++ it ∷ []

  hold-IsHeld :
      (it : ℕ) (st after : Gets)
      → SameGets st after
      → IsHeld it st (hold calls g return_cas should_touch exptime it after)
  hold-IsHeld it st after s = record {
    after = _;
    kept = refl;
    server = s.server;
    items = ap (λ v. v ++ it ∷ []) s.items;
  }

  add_chunks-IsHeld :
      (it : ℕ) (st after : Gets)
      → SameGets st after
      → IsHeld it st (add_chunks calls g return_cas should_touch exptime it after)
  unfolding add_chunks
  add_chunks-IsHeld it st after s =
      let r = g.chunked_iovs after.server.world it after.pieces in
      if_elim (IsHeld it st) r.1
        (λ _.
          hold-IsHeld it st (record after { pieces = r.0 })
            (record { server = s.server; items = s.items }))
        (λ e. absurd (cc (granted.chunked after.server.world it after.pieces)))

  SameGets-trans : (a b c : Gets) → SameGets a b → SameGets b c → SameGets a c
  SameGets-trans a b c s t = record { server = t.server ∙ s.server; items = t.items ∙ s.items }

  -- The pieces of an answer.
  abbrev suffix_of : ℕ → Gets → List ℕ
  suffix_of it st = take (item_at st.server.world it).nsuffix (g.item_suffix st.server.world it)

  abbrev value_of : ℕ → Gets → List ℕ
  value_of it st = take (item_at st.server.world it).nbytes (item_at st.server.world it).value

  abbrev suffixed_head : ℕ → Gets → List (List ℕ)
  suffixed_head it st =
      (codes "VALUE" ++ 0 ∷ [])
      ∷ (item_at st.server.world it).key
      ∷ ((if g.inline_ascii_response
            then take ((item_at st.server.world it).nsuffix - 2) (g.item_suffix st.server.world it)
              ∷ []
            else [])
          ++ g.make_suffix st.server.world it return_cas ∷ [])

  abbrev inline_head : ℕ → Gets → List (List ℕ)
  inline_head it st = codes "VALUE " ∷ (item_at st.server.world it).key ∷ []

  abbrev pieces_in : List (List ℕ) → Gets → Gets × Bool
  pieces_in xs st = add_iovs calls g return_cas should_touch exptime xs st

  suffixed-IsHeld :
      (it : ℕ) (st : Gets)
      → IsHeld it st (answer_suffixed calls g return_cas should_touch exptime it st)
  unfolding answer_suffixed
  suffixed-IsHeld it st =
      let begun : Gets = record st { si = st.si + 1 } in
      let r : Gets × Bool = pieces_in (suffixed_head it st) begun in
      let a : SameGets begun r.0 × (r.1 ≡ true) = add_iovs-SameGets (suffixed_head it st) begun in
      let s : SameGets st r.0 = record { server = a.0.server; items = a.0.items } in
      if_elim (IsHeld it st) (not (g.suffix_buf st.si))
        (λ e. absurd (ground (arith, e, granted.suffix_buf st.si)))
        (λ _.
          if_elim (IsHeld it st) (not r.1) (λ e. absurd (ground (arith, e, a.1)))
            (λ _.
              if_elim (IsHeld it st) (item_at st.server.world it).it_flags.chunked
                (λ _. add_chunks-IsHeld it st r.0 s)
                (λ _.
                  let d : Gets = (pieces_in (value_of it st ∷ []) r.0).0 in
                  hold-IsHeld it st d
                    (SameGets-trans st r.0 d s (add_iovs-SameGets (value_of it st ∷ []) r.0).0))))

  inline-IsHeld :
      (it : ℕ) (st : Gets)
      → IsHeld it st (answer_inline calls g return_cas should_touch exptime it st)
  unfolding answer_inline
  inline-IsHeld it st =
      let r : Gets × Bool = pieces_in (inline_head it st) st in
      let a : SameGets st r.0 × (r.1 ≡ true) = add_iovs-SameGets (inline_head it st) st in
      let all : List (List ℕ) = (suffix_of it st ++ value_of it st) ∷ [] in
      let front : List (List ℕ) = suffix_of it st ∷ [] in
      let p : Gets × Bool = pieces_in front r.0 in
      let b : SameGets r.0 p.0 × (p.1 ≡ true) = add_iovs-SameGets front r.0 in
      let q : Gets × Bool = pieces_in all r.0 in
      let c : SameGets r.0 q.0 × (q.1 ≡ true) = add_iovs-SameGets all r.0 in
      if_elim (IsHeld it st) (not r.1) (λ e. absurd (ground (arith, e, a.1)))
        (λ _.
          if_elim (IsHeld it st) (item_at st.server.world it).it_flags.chunked
            (λ _.
              if_elim (IsHeld it st) p.1
                (λ _. add_chunks-IsHeld it st p.0 (SameGets-trans st r.0 p.0 a.0 b.0))
                (λ e. absurd (cc (e, b.1))))
            (λ _.
              if_elim (IsHeld it st) q.1
                (λ _. hold-IsHeld it st q.0 (SameGets-trans st r.0 q.0 a.0 c.0))
                (λ e. absurd (cc (e, c.1)))))

  pub hit-IsHeld :
      (it : ℕ) (st : Gets) → IsHeld it st (answer_hit calls g return_cas should_touch exptime it st)
  unfolding answer_hit
  hit-IsHeld it st =
      if_elim (IsHeld it st) (not (g.expanded (length st.items)))
        (λ e. absurd (ground (arith, e, granted.expanded (length st.items))))
        (λ _.
          if_elim (IsHeld it st) (return_cas || not g.inline_ascii_response)
            (λ _. suffixed-IsHeld it st) (λ _. inline-IsHeld it st))
