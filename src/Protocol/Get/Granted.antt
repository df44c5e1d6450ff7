-- ===== src/Protocol/Get/Granted.antt =====
-- A get command with memory for its answer: the keys of its line and the look-ups of them.
use analysis_memcached.Prelude.{
  ℕ, suc, ◌≤◌, ◌<◌, ◌≡◌, refl, sym, ap, ◌∙◌, Bool, Option, none, some, List, [], ◌∷◌, ◌++◌, length,
  ltb, if_elim, append_assoc, append-nil, arith,
}
use analysis_memcached.Protocol.Tokens.{Token}
use analysis_memcached.Protocol.Tokens.Words.{Spelled}
use analysis_memcached.Protocol.Commands.{Calls, Server, key_max_length}
use analysis_memcached.Protocol.Get.{
  GetCalls, Gets, Served, kept, GetEnd, completed, serve_key, get_loop, look_up, answer_hit,
}
use analysis_memcached.Protocol.Get.Keys.{null_token, KeptAll, get_loop-KeptAll}
use analysis_memcached.Protocol.Get.Held.{Granted, hit-IsHeld}

-- Keys of 1 to 250 bytes.
abbrev pub AllKeys : List (List ℕ) → Type 0
AllKeys [] = Unit
AllKeys (w ∷ ws) = (0 < length w) × (length w ≤ key_max_length) × AllKeys ws

module _ (calls : Calls) (g : GetCalls) (granted : Granted g) (return_cas should_touch : Bool)
    (exptime : ℕ) where
  abbrev serve : List ℕ → Gets → Served
  serve = serve_key calls g return_cas should_touch exptime

  -- The items that one look-up adds.
  abbrev found_items : Option ℕ → List ℕ
  found_items none = []
  found_items (some i) = i ∷ []

  -- The server after the look-ups of some keys in turn, and the items that they have found.
  abbrev pub looked_up : List (List ℕ) → Server → Server × List ℕ
  looked_up [] s = (s, [])
  looked_up (w ∷ ws) s =
      let (after, it) = look_up calls g return_cas should_touch exptime w s in
      let (end, its) = looked_up ws after in (end, found_items it ++ its)

  -- What a look-up has found is held for the answer.
  record IsAdded (it : Option ℕ) (next : Gets) (r : Served) : Type 0 where
    pub after : Gets
    pub kept : r ≡ kept after
    pub server : after.server ≡ next.server
    pub items : after.items ≡ next.items ++ found_items it

  abbrev answer : Gets → Option ℕ → Served
  answer next it = elim it [
    | none ↦ kept next
    | some i ↦ answer_hit calls g return_cas should_touch exptime i next
  ]

  answer-IsAdded : (it : Option ℕ) (next : Gets) → IsAdded it next (answer next it)
  answer-IsAdded none next = record {
    after = next;
    kept = refl;
    server = refl;
    items = sym (append-nil next.items);
  }
  answer-IsAdded (some i) next =
      let h = hit-IsHeld calls g granted return_cas should_touch exptime i next in
      record { after = h.after; kept = h.kept; server = h.server; items = h.items }

  abbrev found_by : List ℕ → Gets → Server × Option ℕ
  found_by w st = look_up calls g return_cas should_touch exptime w st.server

  serve_key-IsAdded :
      (w : List ℕ) (st : Gets)
      → length w ≤ key_max_length
      → IsAdded (found_by w st).1 (record st { server = (found_by w st).0 }) (serve w st)
  unfolding serve_key
  serve_key-IsAdded w st short =
      let next : Gets = record st { server = (found_by w st).0 } in
      if_elim (IsAdded (found_by w st).1 next) (ltb key_max_length (length w))
        (λ long. absurd (ground (arith, long, short))) (λ _. answer-IsAdded (found_by w st).1 next)

  -- The whole line is served.
  record AllServed (ws : List (List ℕ)) (st : Gets) : Type 0 where
    pub end : Gets
    pub all : KeptAll calls g return_cas should_touch exptime ws st end
    pub server : end.server ≡ (looked_up ws st.server).0
    pub items : end.items ≡ st.items ++ (looked_up ws st.server).1

  AllKeys-AllServed : (ws : List (List ℕ)) (st : Gets) → AllKeys ws → AllServed ws st
  AllKeys-AllServed [] st ok = record {
    end = st;
    all = refl;
    server = refl;
    items = sym (append-nil st.items);
  }
  AllKeys-AllServed (w ∷ ws) st (filled, short, more) =
      let one = serve_key-IsAdded w st short in
      let rest = AllKeys-AllServed ws one.after more in
      let found : List ℕ = found_items (found_by w st).1 in
      record {
        end = rest.end;
        all = (filled, one.after, one.kept, rest.all);
        server = rest.server ∙ ap (λ s. (looked_up ws s).0) one.server;
        items =
            rest.items
            ∙ ap (λ v. v ++ (looked_up ws one.after.server).1) one.items
            ∙ ap (λ s. (st.items ++ found) ++ (looked_up ws s).1) one.server
            ∙ append_assoc st.items found _;
      }

  -- The answer to a line is complete, with the items that the look-ups have found.
  abbrev pub IsAnswered : List (List ℕ) → Gets → Option GetEnd → Type 0
  IsAnswered ws st result =
      (end : Gets) × (result ≡ some (completed end))
      × (end.server ≡ (looked_up ws st.server).0)
      × (end.items ≡ st.items ++ (looked_up ws st.server).1)

  -- Where there is always memory for an answer, the loop of process_get_command over keys of 1 to 250
  -- bytes ends complete: the server is that after one look-up of each key, in the order of the line,
  -- and the items for the answer are those that were held before and, behind them, the ones that the
  -- look-ups have found, in that order.
  pub get_loop-IsAnswered :
      (fuel : ℕ) (buf : ℕ → ℕ) (limit : ℕ) (ts : List Token) (ws : List (List ℕ)) (st : Gets)
      → Spelled buf limit ts ws
      → AllKeys ws
      → IsAnswered ws st (
          get_loop calls g return_cas should_touch exptime
            (suc fuel)
            buf
            (ts ++ null_token ∷ [])
            st)
  get_loop-IsAnswered fuel buf limit ts ws st spelled ok =
      let r = AllKeys-AllServed ws st ok in
      let done =
        get_loop-KeptAll calls g return_cas should_touch exptime fuel buf limit ts ws st r.end
          spelled r.all in
      (r.end, done, r.server, r.items)
