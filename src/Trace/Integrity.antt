-- ===== src/Trace/Integrity.antt =====
-- trace/integrity.go and `appendLocked` of trace/store.go: the hash chain over the lines of the trace
-- file. `sha` and `hmac` answer the hexadecimal digest of a text, `parse` is encoding/json on an
-- envelope. A file is the list of its lines; sequence numbers have 64 bits.
use flux7_mesh.Trace.Scanner.{scan}
use Prim.Native.Nat.{◌/◌, ◌%◌}
use flux7_mesh.Base.{
  ◌||◌, ltb, has_prefix, drop, text_eq, is_some, is_empty, zero, suc, true, false, not, none, some,
  [], Bool, List, Option, ℕ, if◌then◌else◌, Text, codes, ◌+◌, ◌&&◌, ◌∷◌, ◌++◌, ◌==◌,
}
pub mod Sealing
pub mod Chaining

pub record Envelope : Type 0 where
  pub seq : ℕ
  pub alg : Text
  pub prev_hash : Text
  pub hash : Text

abbrev pub alg_sha256 : Text
alg_sha256 = codes "sha256"

abbrev pub alg_hmac : Text
alg_hmac = codes "hmac-sha256"

abbrev pub envelope_marker : Text
envelope_marker = codes ",\"seq\":"

-- The decimal digits; a number has fewer digits than the fuel.
unfoldable pub decimal_from : ℕ → ℕ → Text
decimal_from zero n = []
decimal_from (suc fuel) n =
    let high = decimal_from fuel (n / 10) in
    let low = (b'0' + n % 10) ∷ [] in if ltb n 10 then low else high ++ low

unfoldable pub decimal : ℕ → Text
unfolding decimal_from
decimal n = decimal_from (suc n) n

-- `next_seq` is `seq + 1` of a uint64.
abbrev pub next_seq : ℕ → ℕ
next_seq n = (n + 1) % 18_446_744_073_709_551_616

-- The envelope without its leading comma, up to the closing brace.
unfoldable pub envelope_text : Envelope → Text
unfolding decimal
envelope_text env =
    codes "\"seq\":"
    ++ (decimal env.seq
        ++ (codes ",\"alg\":\""
            ++ (env.alg
                ++ (codes "\",\"prev_hash\":\""
                    ++ (env.prev_hash ++ (codes "\",\"hash\":\"" ++ (env.hash ++ codes "\"}")))))))

abbrev pub without_last : Text → Text
without_last [] = []
without_last (c ∷ []) = []
without_last (c ∷ d ∷ s) = c ∷ without_last (d ∷ s)

-- The entry without its closing brace, then the envelope.
unfoldable pub seal_line : Text → Envelope → Text
unfolding envelope_text
seal_line payload env = without_last payload ++ (codes "," ++ envelope_text env)

-- The last place where the text has the part: what is before it, and what follows from there.
unfoldable pub split_last : Text → Text → Option (Text × Text)
unfolding has_prefix
split_last part [] = none
split_last part (c ∷ s) = elim (split_last part s) [
  | some (before, found) ↦ some (c ∷ before, found)
  | none ↦ if has_prefix (c ∷ s) part then some ([], c ∷ s) else none
]

module _ (parse : Text → Option Envelope) where
  -- None for a line that has no envelope.
  unfoldable pub split_line : Text → Option (Text × Envelope)
  unfolding split_last
  split_line line = elim (split_last envelope_marker line) [
    | none ↦ none
    | some (before, found) ↦ elim (parse (codes "{" ++ drop 1 found)) [
      | none ↦ none
      | some env ↦ if is_empty env.hash then none else some (before ++ codes "}", env)
    ]
  ]

pub data Fault : Type 0 where
  unchained_line not_keyed no_key unknown_alg wrong_seq wrong_prev wrong_hash : Fault

pub record Break : Type 0 where
  pub file : Text
  pub line : ℕ
  pub seq : ℕ
  pub fault : Fault

pub record Report : Type 0 where
  pub lines : ℕ
  pub unchained : ℕ
  pub chained : ℕ
  pub first_seq : ℕ
  pub last_seq : ℕ
  pub anchor : Text
  pub head : Text
  pub alg : Text
  pub broken : Option Break

abbrev pub empty_report : Report
empty_report = record {
  lines = 0;
  unchained = 0;
  chained = 0;
  first_seq = 0;
  last_seq = 0;
  anchor = [];
  head = [];
  alg = [];
  broken = none;
}

-- The report so far, the hash of the last chained line, and whether the chain has started.
pub record Walk : Type 0 where
  pub report : Report
  pub prev : Text
  pub started : Bool

-- The buffer of the scan, of 16 MB.
abbrev pub max_verified_line : ℕ
max_verified_line = 16_777_216

module _ (sha : Text → Text) (hmac : Text → Text → Text) where
  -- A key that is nil is the empty key of an HMAC.
  unfoldable pub chain_hash : Option Text → Text → ℕ → Text → Text → Text
  unfolding decimal
  chain_hash key alg seq prev payload =
      let message = decimal seq ++ 10 ∷ alg ++ 10 ∷ prev ++ 10 ∷ payload in
      if text_eq alg alg_hmac
      then hmac (elim key [ none ↦ [] | some k ↦ k ]) message
      else sha message

  -- The first fault of a chained line, if it has one.
  unfoldable pub fault_of : Option Text → Text → Envelope → Walk → Option Fault
  unfolding chain_hash
  fault_of key payload env w =
      if is_some key && not (text_eq env.alg alg_hmac)
      then some not_keyed
      else if not (is_some key) && text_eq env.alg alg_hmac
      then some no_key
      else if not (text_eq env.alg alg_hmac) && not (text_eq env.alg alg_sha256)
      then some unknown_alg
      else if w.started && not (env.seq == next_seq w.report.last_seq)
      then some wrong_seq
      else if w.started && not (text_eq env.prev_hash w.prev)
      then some wrong_prev
      else if text_eq (chain_hash key env.alg env.seq env.prev_hash payload) env.hash
      then none
      else some wrong_hash

  abbrev pub advanced : Envelope → Walk → Walk
  advanced env w = record {
    report = record w.report {
      first_seq = if w.started then w.report.first_seq else env.seq;
      anchor = if w.started then w.report.anchor else env.prev_hash;
      chained = suc w.report.chained;
      last_seq = env.seq;
      head = env.hash;
      alg = env.alg;
    };
    prev = env.hash;
    started = true;
  }

  abbrev pub failing : Text → ℕ → ℕ → Fault → Walk → Walk
  failing file n seq fault w = record w {
    report = record w.report {
      broken = some (record { file = file; line = n; seq = seq; fault = fault });
    };
  }

  unfoldable pub verify_line :
      (Text → Option Envelope) → Option Text → Text → ℕ → Text → Walk → Walk
  unfolding split_line fault_of
  verify_line parse key file n line w0 =
      let w : Walk = record w0 { report = record w0.report { lines = suc w0.report.lines } } in
      elim (split_line parse line) [
        | none ↦
            if w.started
            then failing file n 0 unchained_line w
            else record w { report = record w.report { unchained = suc w.report.unchained } }
        | some (payload, env) ↦ elim (fault_of key payload env w) [
          | some fault ↦ failing file n env.seq fault w
          | none ↦ advanced env w
        ]
      ]

  -- The lines of one file, from the line `n`; the walk ends at a break.
  unfoldable pub verify_lines :
      (Text → Option Envelope) → Option Text → Text → ℕ → List Text → Walk → Walk
  unfolding verify_line
  verify_lines parse key file n [] w = w
  verify_lines parse key file n (line ∷ lines) w =
      let w' = if is_empty line then w else verify_line parse key file n line w in
      let rest = verify_lines parse key file (suc n) lines w' in
      if is_some w'.report.broken then w' else rest

  -- The walk over one file, and whether the scan failed before a break was met: a line was too long.
  unfoldable pub verify_reader :
      (Text → Option Envelope) → Option Text → Text → List Text → Walk → Walk × Bool
  unfolding verify_lines scan
  verify_reader parse key file lines w =
      let (read, failed) = scan max_verified_line lines in
      let w' = verify_lines parse key file 1 read w in
      (w', failed && not (is_some w'.report.broken))

  -- The walk over the files, none for one that cannot be opened, and whether it ended by an error.
  unfoldable pub verify_files :
      (Text → Option Envelope) → Option Text → List (Text × Option (List Text)) → Walk → Walk × Bool
  unfolding verify_reader
  verify_files parse key [] w = (w, false)
  verify_files parse key ((file, none) ∷ files) w = (w, true)
  verify_files parse key ((file, some lines) ∷ files) w =
      let (w', failed) = verify_reader parse key file lines w in
      let rest = verify_files parse key files w' in
      if failed || is_some w'.report.broken then (w', failed) else rest

  unfoldable pub verify :
      (Text → Option Envelope) → Option Text → List (Text × Option (List Text)) → Report × Bool
  unfolding verify_files
  verify parse key files =
      let (w, failed) =
        verify_files parse key files
          (record { report = empty_report; prev = []; started = false }) in
      (w.report, failed)

  -- The envelope that `appendLocked` writes behind an entry, after the sequence number and the hash
  -- of the line before.
  unfoldable pub envelope_after : Option Text → ℕ → Text → Text → Envelope
  unfolding chain_hash
  envelope_after key seq prev payload =
      let alg = if is_some key then alg_hmac else alg_sha256 in
      record {
        seq = next_seq seq;
        alg = alg;
        prev_hash = prev;
        hash = chain_hash key alg (next_seq seq) prev payload;
      }

  -- The lines that are appended for the entries, in their JSON form.
  unfoldable pub append_lines : Option Text → ℕ → Text → List Text → List Text
  unfolding seal_line envelope_after
  append_lines key seq prev [] = []
  append_lines key seq prev (p ∷ ps) =
      let env = envelope_after key seq prev p in
      seal_line p env ∷ append_lines key env.seq env.hash ps
