-- ===== src/Trace/Integrity/Chaining.antt =====
-- The chain that the store appends is one that `Verify` accepts.
use flux7_mesh.Trace.Scanner.{scan_short}
use flux7_mesh.Base.{
  All, ◌<◌, sym, subst, is_empty, length, suc, refl, inr, [], List, codes, ◌+◌, ◌∷◌, ◌++◌,
  text_eq_refl, text_eq, false, none, some, Option, ℕ, Text, ◌≡◌, ◌⊎◌, arith,
}
use flux7_mesh.Trace.Integrity.{
  max_verified_line, verify_reader, split_last, advanced, split_line, envelope_text, verify_line,
  alg_hmac, next_seq, alg_sha256, fault_of, Envelope, Walk, append_lines, verify_lines,
  envelope_after, chain_hash, seal_line,
}
use flux7_mesh.Trace.Integrity.Sealing.{IsWritable, split_line-seal_line}

module _ (sha : Text → Text) (hmac : Text → Text → Text) where
  -- The walk stands at the line with the sequence number and the hash, or before any chained line.
  abbrev pub StandsAt : ℕ → Text → Walk → Type 0
  StandsAt seq prev w =
      (w.report.broken ≡ none)
      × ((w.started ≡ false) ⊎ ((w.report.last_seq ≡ seq) × (w.prev ≡ prev)))

  fault_of-envelope_after :
      (key : Option Text) (seq : ℕ) (prev payload : Text) (w : Walk)
      → StandsAt seq prev w
      → fault_of sha hmac key payload (envelope_after sha hmac key seq prev payload) w ≡ none
  unfolding fault_of envelope_after text_eq
  fault_of-envelope_after none seq prev payload w h = ground (
    arith,
    text_eq_refl prev,
    text_eq_refl (chain_hash sha hmac none alg_sha256 (next_seq seq) prev payload),
  )
  fault_of-envelope_after (some k) seq prev payload w h = ground (
    arith,
    text_eq_refl prev,
    text_eq_refl (chain_hash sha hmac (some k) alg_hmac (next_seq seq) prev payload),
  )

split_line-nonempty :
    (parse : Text → Option Envelope) (line payload : Text) (env : Envelope)
    → split_line parse line ≡ some (payload, env)
    → is_empty line ≡ false
unfolding split_line split_last
split_line-nonempty parse [] payload env h = absurd (ground arith)
split_line-nonempty parse (c ∷ line) payload env h = refl

module _ (sha : Text → Text) (hmac : Text → Text → Text) (parse : Text → Option Envelope)
    (key : Option Text) where
  -- The entry that is written, from the text before its closing brace.
  abbrev closed : Text → Text
  closed body = body ++ codes "}"

  abbrev closed_all : List Text → List Text
  closed_all [] = []
  closed_all (body ∷ bodies) = closed body ∷ closed_all bodies

  -- The digests of the lines have no comma in them, and encoding/json reads the envelopes back.
  abbrev pub AreReadable : ℕ → Text → List Text → Type 0
  AreReadable seq prev [] = Unit {0}
  AreReadable seq prev (body ∷ bodies) =
      let env = envelope_after sha hmac key seq prev (closed body) in
      IsWritable env
      × (parse (codes "{" ++ envelope_text env) ≡ some env)
      × AreReadable env.seq env.hash bodies

  -- What the walk has found after the lines.
  abbrev pub HasChained : Walk → ℕ → Walk → Type 0
  HasChained w n w' =
      (w'.report.broken ≡ none)
      × (w'.report.chained ≡ w.report.chained + n)
      × (w'.report.lines ≡ w.report.lines + n)
      × (w'.report.unchained ≡ w.report.unchained)

  verify_line-seal_line :
      (file : Text) (n seq : ℕ) (prev body : Text) (w : Walk)
      → StandsAt sha hmac seq prev w
      → let env = envelope_after sha hmac key seq prev (closed body) in
        IsWritable env
        → parse (codes "{" ++ envelope_text env) ≡ some env
        → verify_line sha hmac parse key file n (seal_line (closed body) env) w
          ≡ advanced sha hmac env
              (record w { report = record w.report { lines = suc w.report.lines } })
  unfolding verify_line
  verify_line-seal_line file n seq prev body w stands writable reads =
      let env = envelope_after sha hmac key seq prev (closed body) in
      let found = split_line-seal_line parse body env writable reads in
      let fine =
        fault_of-envelope_after sha hmac key seq prev (closed body)
          (record w { report = record w.report { lines = suc w.report.lines } }) stands in
      rw (verify_line, found, fine) refl

  verify_lines_step :
      (file : Text) (n : ℕ) (line : Text) (lines : List Text) (w w' : Walk)
      → is_empty line ≡ false
      → verify_line sha hmac parse key file n line w ≡ w'
      → w'.report.broken ≡ none
      → verify_lines sha hmac parse key file n (line ∷ lines) w
        ≡ verify_lines sha hmac parse key file (suc n) lines w'
  unfolding verify_lines
  verify_lines_step file n line lines w w' there next whole =
      rw (verify_lines, there, next, whole) refl

  verify_lines-append_lines :
      (file : Text) (n seq : ℕ) (prev : Text) (bodies : List Text) (w : Walk)
      → StandsAt sha hmac seq prev w
      → AreReadable seq prev bodies
      → HasChained w (length bodies) (
          verify_lines sha hmac parse key file n
            (append_lines sha hmac key seq prev (closed_all bodies))
            w)
  unfolding append_lines verify_lines
  verify_lines-append_lines file n seq prev [] w stands readable = ground arith
  verify_lines-append_lines file n seq prev (body ∷ bodies) w stands (writable, reads, more) =
      let env = envelope_after sha hmac key seq prev (closed body) in
      let line = seal_line (closed body) env in
      let w' =
        advanced sha hmac env
          (record w { report = record w.report { lines = suc w.report.lines } }) in
      let first = verify_line-seal_line file n seq prev body w stands writable reads in
      let there =
        split_line-nonempty parse line (closed body) env
          (split_line-seal_line parse body env writable reads) in
      let rest =
        verify_lines-append_lines file (suc n) env.seq env.hash bodies w'
          (stands.0, inr (refl, refl)) more in
      let step =
        verify_lines_step file n line
          (append_lines sha hmac key env.seq env.hash (closed_all bodies)) w w' there first
          stands.0 in
      let (whole, chained, lines, unchained) = rest in
      subst (HasChained w (suc (length bodies))) (sym step)
        (whole, omega (arith, chained), omega (arith, lines), unchained)

  -- A file of the lines that the store appends for any entries, from any place of the chain, is
  -- verified without a break or an error by a walk that stands at that place or before the chain: all
  -- the lines are counted as chained. Each line is shorter than 16 MB, the digests have no comma in
  -- them, and encoding/json reads the envelopes back.
  pub verify_reader-append_lines :
      (file : Text) (seq : ℕ) (prev : Text) (bodies : List Text) (w : Walk)
      → StandsAt sha hmac seq prev w
      → AreReadable seq prev bodies
      → All
          (λ line. length line < max_verified_line)
          (append_lines sha hmac key seq prev (closed_all bodies))
      → let lines = append_lines sha hmac key seq prev (closed_all bodies) in
        let (w', failed) = verify_reader sha hmac parse key file lines w in
        HasChained w (length bodies) w' × (failed ≡ false)
  unfolding verify_reader
  verify_reader-append_lines file seq prev bodies w stands readable short =
      let lines = append_lines sha hmac key seq prev (closed_all bodies) in
      let whole = scan_short max_verified_line lines short in
      let walked = verify_lines-append_lines file 1 seq prev bodies w stands readable in
      rw (verify_reader, whole) (walked, refl)
