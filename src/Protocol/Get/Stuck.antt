-- ===== src/Protocol/Get/Stuck.antt =====
-- A key whose answer finds no memory: the loop of process_get_command begins with it again.
use analysis_memcached.Prelude.{
  ℕ, zero, suc, ◌+◌, ◌-◌, ◌<◌, ◌≡◌, ◌≢◌, ap, ◌∙◌, Bool, true, false, Option, some, List, [], ◌∷◌,
  ◌==◌, if◌then◌else◌, if_elim, arith,
}
use analysis_memcached.Prelude.Memory.{read}
use analysis_memcached.Protocol.Tokens.{
  Token, TokenScan, separator, scan_byte, is_last_token, scan, close_tokens, tokenize_command,
}
use analysis_memcached.Protocol.Commands.{Calls}
use analysis_memcached.Protocol.Machine.{max_tokens}
use analysis_memcached.Protocol.Get.{
  GetCalls, Gets, Served, kept, broke, refused, Walked, stopped, returned, GetEnd, completed,
  too_long, serve_key, walk_tokens, get_loop, first_value,
}

-- No blank among the bytes.
abbrev pub Unbroken : (ℕ → ℕ) → ℕ → ℕ → Type 0
Unbroken buf at zero = Unit
Unbroken buf at (suc n) = (buf at ≢ separator) × Unbroken buf (at + 1) n

scan-word :
    (m n : ℕ) (st : TokenScan) → Unbroken st.buf st.e n → scan m n st ≡ record st { e = st.e + n }
unfolding scan scan_byte is_last_token
scan-word m zero st u = ap (λ v. record st { e = v }) (omega arith)
scan-word m (suc n) st u =
    let inside : (st.buf st.e == separator) ≡ false = ground (arith, u.0) in
    let step : scan m (suc n) st ≡ scan m n (record st { e = st.e + 1 }) = rw inside in
    step
    ∙ scan-word m n (record st { e = st.e + 1 }) u.1
    ∙ ap (λ v. record st { e = v }) (omega arith)

abbrev pub word_at : ℕ → ℕ → List Token
word_at at n = record { value = at; length = n } ∷ record { value = 0; length = 0 } ∷ []

close-word :
    (buf : ℕ → ℕ) (at n : ℕ)
    → (at == at + n) ≡ false
    → buf (at + n) ≡ 0
    → close_tokens (record { buf = buf; tokens = []; s = at; e = at + n })
      ≡ record { buf = buf; tokens = word_at at n; s = at; e = at + n }
unfolding close_tokens
close-word buf at n odd z =
    let nul : (buf (at + n) == 0) ≡ true = ground (arith, z) in
    let len : at + n - at ≡ n = omega arith in rw (odd, nul, len)

tokenize-word :
    (buf : ℕ → ℕ) (at n : ℕ)
    → Unbroken buf at n
    → 0 < n
    → buf (at + n) ≡ 0
    → tokenize_command max_tokens buf at n
      ≡ record { buf = buf; tokens = word_at at n; s = at; e = at + n }
unfolding tokenize_command
tokenize-word buf at n u h z =
    let start : TokenScan = record { buf = buf; tokens = []; s = at; e = at } in
    let odd : (at == at + n) ≡ false = ground (arith, h) in
    ap close_tokens (scan-word max_tokens n start u) ∙ close-word buf at n odd z

module _ (calls : Calls) (g : GetCalls) (return_cas should_touch : Bool) (exptime : ℕ) where
  walk_tokens-stopped :
      (buf : ℕ → ℕ) (at n : ℕ) (ts : List Token) (st after : Gets)
      → 0 < n
      → serve_key calls g return_cas should_touch exptime (read buf at n) st ≡ broke after
      → walk_tokens calls g return_cas should_touch exptime buf
          (record { value = at; length = n } ∷ ts)
          st
        ≡ stopped at after
  unfolding walk_tokens
  walk_tokens-stopped buf at n ts st after h broken =
      let on : Served → Walked = λ s. elim s [
        | kept v ↦ walk_tokens calls g return_cas should_touch exptime buf ts v
        | broke v ↦ stopped at v
        | refused v ↦ returned v
      ] in
      if_elim (λ w. w ≡ stopped at after) (n == 0) (λ e. absurd (ground (arith, e, h)))
        (λ _. ap on broken)

  -- What the outer loop does where the inner one has stopped.
  abbrev loop_on : ℕ → (ℕ → ℕ) → Walked → Option GetEnd
  loop_on fuel buf (returned after) = some (too_long after)
  loop_on fuel buf (stopped value after) =
      let out = tokenize_command max_tokens buf value (g.strlen buf value) in
      let rest = get_loop calls g return_cas should_touch exptime fuel out.buf out.tokens after in
      if value == 0
      then some (completed after)
      else if first_value out.tokens == 0
      then some (completed after)
      else rest

  -- Where the answer to a key that lies in the line as a NUL-terminated string is given up for want of
  -- memory, the loop of process_get_command goes on with that key alone and with what the attempt
  -- has left: the key is looked up again, and the keys behind it are dropped.
  pub get_loop-again :
      (fuel : ℕ) (buf : ℕ → ℕ) (at n : ℕ) (ts : List Token) (st after : Gets)
      → 0 < at
      → 0 < n
      → Unbroken buf at n
      → buf (at + n) ≡ 0
      → g.strlen buf at ≡ n
      → serve_key calls g return_cas should_touch exptime (read buf at n) st ≡ broke after
      → get_loop calls g return_cas should_touch exptime
          (suc fuel)
          buf
          (record { value = at; length = n } ∷ ts)
          st
        ≡ get_loop calls g return_cas should_touch exptime fuel buf (word_at at n) after
  unfolding get_loop
  get_loop-again fuel buf at n ts st after p h u z len broken =
      let out = tokenize_command max_tokens buf at (g.strlen buf at) in
      let cut : out ≡ record { buf = buf; tokens = word_at at n; s = at; e = at + n } =
        ap (tokenize_command max_tokens buf at) len ∙ tokenize-word buf at n u h z in
      let goal = get_loop calls g return_cas should_touch exptime fuel buf (word_at at n) after in
      ap (loop_on fuel buf) (walk_tokens-stopped buf at n ts st after h broken)
      ∙ if_elim (λ o. o ≡ goal) (at == 0) (λ e. absurd (ground (arith, e, p)))
          (λ _.
            if_elim (λ o. o ≡ goal) (first_value out.tokens == 0)
              (λ e. absurd (ground (arith, e, p, ap (λ o. first_value o.tokens) cut)))
              (λ _.
                ap
                  (λ (o : TokenScan).
                    get_loop calls g return_cas should_touch exptime fuel o.buf o.tokens after)
                  cut))
