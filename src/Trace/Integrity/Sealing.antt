-- ===== src/Trace/Integrity/Sealing.antt =====
-- A sealed line is split into the entry and the envelope that it was made of.
use flux7_mesh.Base.{
  true, ap, Option, ltb, is_empty, zero, suc, inl, inr, ℕ, Bool-cases, codes, ◌+◌, has_prefix, refl,
  false, none, some, [], Text, All, ◌≡◌, ◌∷◌, ◌++◌, ◌==◌, arith,
}
use flux7_mesh.Trace.Integrity.{
  without_last, ◌/◌, ◌%◌, decimal, decimal_from, envelope_text, Envelope, split_last, seal_line,
  split_line, envelope_marker,
}

-- Without a comma before it, the last marker of a text is that of its rest.
abbrev pub IsPlain : Text → Type 0
IsPlain s = All (λ c. (c == b',') ≡ false) s

split_last-plain :
    (a t : Text)
    → IsPlain a
    → split_last envelope_marker t ≡ none
    → split_last envelope_marker (a ++ t) ≡ none
unfolding split_last has_prefix
split_last-plain [] t h e = e
split_last-plain (c ∷ a) t (here, later) e =
    let rest = split_last-plain a t later e in rw rest (ground arith)

split_last-first :
    (a t : Text)
    → split_last envelope_marker t ≡ some ([], t)
    → split_last envelope_marker (a ++ t) ≡ some (a, t)
unfolding split_last
split_last-first [] t e = e
split_last-first (c ∷ a) t e = let rest = split_last-first a t e in rw rest refl

IsPlain-append : (a b : Text) → IsPlain a → IsPlain b → IsPlain (a ++ b)
IsPlain-append [] b h k = k
IsPlain-append (c ∷ a) b h k = (h.0, IsPlain-append a b h.1 k)

decimal_from-IsPlain : (fuel n : ℕ) → IsPlain (decimal_from fuel n)
unfolding decimal_from
decimal_from-IsPlain zero n = tt
decimal_from-IsPlain (suc fuel) n =
    let low : IsPlain ((b'0' + n % 10) ∷ []) = (ground arith, tt) in
    let high =
      IsPlain-append (decimal_from fuel (n / 10)) ((b'0' + n % 10) ∷ [])
        (decimal_from-IsPlain fuel (n / 10)) low in
    elim (Bool-cases (ltb n 10)) [ inl small ↦ rw small low | inr large ↦ rw large high ]

-- A word behind a comma, which do not start a marker.
after_comma :
    (word t : Text)
    → IsPlain word
    → has_prefix (b',' ∷ word ++ t) envelope_marker ≡ false
    → split_last envelope_marker t ≡ none
    → split_last envelope_marker (b',' ∷ word ++ t) ≡ none
unfolding split_last
after_comma word t plain start rest = rw (split_last-plain word t plain rest, start) refl

abbrev quote : Text
quote = b'"' ∷ []

quoted :
    (word t : Text)
    → IsPlain word
    → has_prefix (b',' ∷ word ++ t) envelope_marker ≡ false
    → split_last envelope_marker t ≡ none
    → split_last envelope_marker (quote ++ b',' ∷ word ++ t) ≡ none
quoted word t plain start rest =
    split_last-plain quote (b',' ∷ word ++ t) (refl, tt) (after_comma word t plain start rest)

-- Its fields have no comma in them, and it has a hash: so it is with hexadecimal digests.
abbrev pub IsWritable : Envelope → Type 0
IsWritable env =
    IsPlain env.alg × IsPlain env.prev_hash × IsPlain env.hash × (is_empty env.hash ≡ false)

envelope_text-none :
    (env : Envelope) → IsWritable env → split_last envelope_marker (envelope_text env) ≡ none
unfolding envelope_text decimal split_last has_prefix
envelope_text-none env (alg, prev, hash, there) =
    let at_hash = split_last-plain env.hash (codes "\"}") hash refl in
    let t_hash = env.hash ++ codes "\"}" in
    let at_prev =
      split_last-plain env.prev_hash (codes "\",\"hash\":\"" ++ t_hash) prev
        (quoted (codes "\"hash\":\"") t_hash (ground arith) refl at_hash) in
    let t_prev = env.prev_hash ++ (codes "\",\"hash\":\"" ++ t_hash) in
    let at_alg =
      split_last-plain env.alg (codes "\",\"prev_hash\":\"" ++ t_prev) alg
        (quoted (codes "\"prev_hash\":\"") t_prev (ground arith) refl at_prev) in
    let t_alg = env.alg ++ (codes "\",\"prev_hash\":\"" ++ t_prev) in
    split_last-plain (codes "\"seq\":") (decimal env.seq ++ (codes ",\"alg\":\"" ++ t_alg))
      (ground arith)
      (split_last-plain (decimal env.seq) (codes ",\"alg\":\"" ++ t_alg)
        (decimal_from-IsPlain (suc env.seq) env.seq)
        (after_comma (codes "\"alg\":\"") t_alg (ground arith) refl at_alg))

without_last-append : (body : Text) (c : ℕ) → without_last (body ++ c ∷ []) ≡ body
without_last-append [] c = refl
without_last-append (b ∷ []) c = refl
without_last-append (b ∷ d ∷ body) c = ap (λ s. b ∷ s) (without_last-append (d ∷ body) c)

seal_line-brace :
    (body : Text) (env : Envelope)
    → seal_line (body ++ codes "}") env ≡ body ++ b',' ∷ envelope_text env
unfolding seal_line
seal_line-brace body env = rw (without_last-append body b'}') refl

starts_marker : (env : Envelope) → has_prefix (b',' ∷ envelope_text env) envelope_marker ≡ true
unfolding envelope_text has_prefix
starts_marker env = refl

first_marker :
    (t : Text)
    → split_last envelope_marker t ≡ none
    → has_prefix (b',' ∷ t) envelope_marker ≡ true
    → split_last envelope_marker (b',' ∷ t) ≡ some ([], b',' ∷ t)
unfolding split_last
first_marker t rest start = rw (rest, start) refl

split_line_lem :
    (parse : Text → Option Envelope) (line before t : Text) (env : Envelope)
    → split_last envelope_marker line ≡ some (before, b',' ∷ t)
    → parse (codes "{" ++ t) ≡ some env
    → is_empty env.hash ≡ false
    → split_line parse line ≡ some (before ++ codes "}", env)
unfolding split_line
split_line_lem parse line before t env found reads there = ground (arith, found, reads, there)

-- A sealed line gives back the entry and the envelope that it was made of, where encoding/json reads
-- the envelope back from its text, the entry ends with a brace, and no field of the envelope has a
-- comma, as digests have none.
pub split_line-seal_line :
    (parse : Text → Option Envelope) (body : Text) (env : Envelope)
    → IsWritable env
    → parse (codes "{" ++ envelope_text env) ≡ some env
    → split_line parse (seal_line (body ++ codes "}") env) ≡ some (body ++ codes "}", env)
split_line-seal_line parse body env writable reads =
    let t = envelope_text env in
    let first = first_marker t (envelope_text-none env writable) (starts_marker env) in
    let found = split_last-first body (b',' ∷ t) first in
    rw (seal_line-brace body env)
      (split_line_lem parse (body ++ b',' ∷ t) body t env found reads writable.3)
