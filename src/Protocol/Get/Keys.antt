-- ===== src/Protocol/Get/Keys.antt =====
-- The keys of a line that a get command serves.
use analysis_memcached.Prelude.{
  ℕ, suc, ◌<◌, ◌≡◌, sym, ap, ◌∙◌, Bool, Option, some, List, [], ◌∷◌, ◌++◌, length, ◌==◌,
  if◌then◌else◌, if_elim, arith,
}
use analysis_memcached.Prelude.Memory.{length-read}
use analysis_memcached.Protocol.Tokens.{Token, tokenize_command}
use analysis_memcached.Protocol.Tokens.Words.{Spelled}
use analysis_memcached.Protocol.Commands.{Calls}
use analysis_memcached.Protocol.Machine.{max_tokens}
use analysis_memcached.Protocol.Get.{
  GetCalls, Gets, Served, kept, broke, refused, Walked, stopped, returned, GetEnd, completed,
  too_long, serve_key, walk_tokens, get_loop, first_value,
}

-- The token behind the last key of a line.
abbrev pub null_token : Token
null_token = record { value = 0; length = 0 }

module _ (calls : Calls) (g : GetCalls) (return_cas should_touch : Bool) (exptime : ℕ) where
  -- The keys, none of them empty, are served one after the other.
  abbrev pub KeptAll : List (List ℕ) → Gets → Gets → Type 0
  KeptAll [] st end = st ≡ end
  KeptAll (w ∷ ws) st end =
      (0 < length w)
      × (after : Gets) × (serve_key calls g return_cas should_touch exptime w st ≡ kept after)
      × KeptAll ws after end

  walk_tokens-KeptAll :
      (buf : ℕ → ℕ) (limit : ℕ) (ts : List Token) (ws : List (List ℕ)) (st end : Gets)
      → Spelled buf limit ts ws
      → KeptAll ws st end
      → walk_tokens calls g return_cas should_touch exptime buf (ts ++ null_token ∷ []) st
        ≡ stopped 0 end
  unfolding walk_tokens
  walk_tokens-KeptAll buf limit [] [] st end s k = ap (stopped 0) k
  walk_tokens-KeptAll buf limit [] (w ∷ ws) st end s k = absurd s
  walk_tokens-KeptAll buf limit (t ∷ ts) [] st end s k = absurd s
  walk_tokens-KeptAll buf limit (t ∷ ts) (w ∷ ws) st end (a, b, c, d) (filled, after, e, more) =
      let serve = λ (key : List ℕ). serve_key calls g return_cas should_touch exptime key st in
      let on : Served → Walked = λ s. elim s [
        | kept v ↦ walk_tokens calls g return_cas should_touch exptime buf (ts ++ null_token ∷ []) v
        | broke v ↦ stopped t.value v
        | refused v ↦ returned v
      ] in
      let size : t.length ≡ length w = sym (length-read buf t.value t.length) ∙ ap length a in
      if_elim (λ r. r ≡ stopped 0 end) (t.length == 0)
        (λ empty. absurd (ground (arith, empty, size, filled)))
        (λ _. ap on (ap serve a ∙ e) ∙ walk_tokens-KeptAll buf limit ts ws after end d more)

  pub get_loop-KeptAll :
      (fuel : ℕ) (buf : ℕ → ℕ) (limit : ℕ) (ts : List Token) (ws : List (List ℕ)) (st end : Gets)
      → Spelled buf limit ts ws
      → KeptAll ws st end
      → get_loop calls g return_cas should_touch exptime (suc fuel) buf (ts ++ null_token ∷ []) st
        ≡ some (completed end)
  unfolding get_loop
  get_loop-KeptAll fuel buf limit ts ws st end s k =
      let on : Walked → Option GetEnd = λ w. elim w [
        | returned v ↦ some (too_long v)
        | stopped value v ↦
            let out = tokenize_command max_tokens buf value (g.strlen buf value) in
            let rest = get_loop calls g return_cas should_touch exptime fuel out.buf out.tokens v in
            if value == 0
            then some (completed v)
            else if first_value out.tokens == 0
            then some (completed v)
            else rest
      ] in
      ap on (walk_tokens-KeptAll buf limit ts ws st end s k)
