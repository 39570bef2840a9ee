-- ===== src/Exec/Output.antt =====
-- What is kept of a program's output.
use flux7_mesh.Registry.{CliToolMeta}
use flux7_mesh.Base.{
  take, inl, inr, false, none, some, Option, Option-cases, ◌<◌, ◌≢◌, length-append, max, [], ◌-◌,
  ◌++◌, ◌∷◌, ◌≤◌, List, length, ℕ, Text, ◌≡◌, refl, arith,
}
use flux7_mesh.Exec.{
  exited, max_output, RunError, command_of, Result, validate_args, Input, run, Ended, Command,
  LimitWriter, write, copy, limit_writer,
}

abbrev concat : List Text → Text
concat [] = []
concat (p ∷ ps) = p ++ concat ps

-- The count is the buffer's length, within the limit.
abbrev pub IsWithin : LimitWriter → Type 0
IsWithin lw = (lw.written ≡ length lw.buffer) × (lw.written ≤ lw.max)

length-take : (n : ℕ) (s : Text) → length (take n s) ≤ n
length-take n [] = omega arith
length-take n (c ∷ s) = ground (arith, length-take (n - 1) s)

write-IsWithin : (p : Text) (lw : LimitWriter) → IsWithin lw → IsWithin (write p lw).1
unfolding write
write-IsWithin p lw h = ground (
  arith,
  length-take (lw.max - lw.written) p,
  length-append lw.buffer p,
  length-append lw.buffer (take (lw.max - lw.written) p),
)

copy-IsWithin : (ps : List Text) (lw : LimitWriter) → IsWithin lw → IsWithin (copy ps lw).1
unfolding copy
copy-IsWithin [] lw h = h
copy-IsWithin (p ∷ ps) lw h =
    let here = write-IsWithin p lw h in
    let rest = copy-IsWithin ps (write p lw).1 here in ground (arith, here, rest)

write-max : (p : Text) (lw : LimitWriter) → (write p lw).1.max ≡ lw.max
unfolding write
write-max p lw = ground arith

copy-max : (ps : List Text) (lw : LimitWriter) → (copy ps lw).1.max ≡ lw.max
unfolding copy
copy-max [] lw = refl
copy-max (p ∷ ps) lw = ground (arith, copy-max ps (write p lw).1, write-max p lw)

copy_bound : (ps : List Text) (max : ℕ) → length (copy ps (limit_writer max)).1.buffer ≤ max
copy_bound ps max =
    let (kept, low) = copy-IsWithin ps (limit_writer max) (refl, omega arith) in
    omega (arith, kept, low, copy-max ps (limit_writer max))

take_all : (n : ℕ) (p : Text) → length p ≤ n → take n p ≡ p
take_all n [] h = refl
take_all n (c ∷ p) h = ground (arith, take_all (n - 1) p)

-- A write that crosses the limit takes less than it was given, so that copying ends with an error.
copy_crossing :
    (p : Text) (ps : List Text) (max : ℕ)
    → 0 < max
    → max < length p
    → (copy (p ∷ ps) (limit_writer max)).0 ≡ false
unfolding copy write
copy_crossing p ps max pos long = ground (arith, length-take max p)

module _ (path home : Text) (process : Command → Ended) where
  -- Whatever a program writes, no more than the runner's limit of it is kept, of either stream.
  pub run_bound :
      (configured : ℕ) (m : CliToolMeta) (input : Input) (r : Result) (error : Option RunError)
      → run path home process configured m input ≡ (some r, error)
      → (length r.stdout ≤ max_output configured) × (length r.stderr ≤ max_output configured)
  unfolding run
  run_bound configured m input r error h =
      let done = process (command_of path home process m input) in
      let out = copy_bound done.stdout (max_output configured) in
      let err = copy_bound done.stderr (max_output configured) in
      elim (Option-cases (validate_args m.allowed_args input.args)) [
        | inr (e, found) ↦ absurd (ground arith)
        | inl fine ↦ ground arith
      ]

  -- A program whose first write is longer than the limit has a run that reports an error, though the
  -- program succeeded: the rest is not discarded silently.
  pub run_overflow :
      (configured : ℕ) (m : CliToolMeta) (input : Input) (p : Text) (ps : List Text)
      → validate_args m.allowed_args input.args ≡ none
      → (process (command_of path home process m input)).stdout ≡ p ∷ ps
      → max_output configured < length p
      → (process (command_of path home process m input)).exit_code ≡ exited 0
      → (run path home process configured m input).1 ≢ none
  unfolding run max_output
  run_overflow configured m input p ps fine wrote long success h =
      let positive : 0 < max_output configured = ground arith in
      let short = copy_crossing p ps (max_output configured) positive long in
      let short_out : (copy (process (command_of path home process m input)).stdout
            (limit_writer (max_output configured))).0
          ≡ false =
        rw wrote short in
      ground arith
