-- ===== src/Exec.antt =====
-- exec/runner.go: the checks and limits around the programs that CLI tools run. What a process writes
-- and how it ends is the parameter `process`; the host's PATH and HOME are arguments. Durations are
-- nanoseconds.
pub mod Arguments
pub mod Output
use flux7_mesh.Base.{
  take, ℕ, ◌+◌, ◌-◌, ◌*◌, ◌≡◌, Bool, true, false, not, ◌&&◌, ◌||◌, Option, none, some, List, [],
  ◌∷◌, ◌++◌, ◌⊎◌, inl, inr, map, if◌then◌else◌, ltb, leb, ◌==◌, Text, codes, text_eq, is_empty,
  is_some, has_prefix, contains, any, length, Map,
}
use flux7_mesh.Policy.Value.{
  FloatOps, Params, Value, Items, Fields, nil, cons, end, field, str, arr, obj, get_field, render,
}
use flux7_mesh.Registry.{CliToolMeta}

pub record Input : Type 0 where
  pub command : Text
  pub args : List Text
  pub stdin : Text

abbrev pub dangerous_metachars : List Text
dangerous_metachars =
    codes ";"
    ∷ codes "&&"
    ∷ codes "||"
    ∷ codes "|"
    ∷ codes "`"
    ∷ codes "$("
    ∷ codes "${"
    ∷ (10 ∷ [])
    ∷ (13 ∷ [])
    ∷ []

pub data ArgError : Type 0 where
  dangerous_character flag_not_allowed : Text → ArgError

-- The first metacharacter of the list that is in the argument.
unfoldable pub find_metachar : List Text → Text → Option Text
find_metachar [] arg = none
find_metachar (mc ∷ mcs) arg = if contains arg mc then some mc else find_metachar mcs arg

unfoldable pub check_metachars : Text → Option ArgError
unfolding find_metachar
check_metachars arg = elim (find_metachar dangerous_metachars arg) [
  | none ↦ none
  | some mc ↦ some (dangerous_character mc)
]

-- A flag without its value.
unfoldable pub flag_name : Text → Text
flag_name [] = []
flag_name (c ∷ s) = if c == b'=' then [] else c ∷ flag_name s

unfoldable pub matches_allowed : List Text → Text → Bool
unfolding flag_name
matches_allowed allowed flag = any (λ a. text_eq (flag_name flag) a) allowed

unfoldable pub check_all : List Text → Option ArgError
unfolding check_metachars
check_all [] = none
check_all (arg ∷ args) = elim (check_metachars arg) [ some e ↦ some e | none ↦ check_all args ]

unfoldable pub check_flags : List Text → List Text → Option ArgError
unfolding matches_allowed
check_flags allowed [] = none
check_flags allowed (arg ∷ args) =
    if not (has_prefix arg (codes "-"))
    then check_flags allowed args
    else if matches_allowed allowed arg
    then check_flags allowed args
    else some (flag_not_allowed arg)

-- Of a list of allowed flags that is nil, only the metacharacters are checked.
unfoldable pub validate_args : Option (List Text) → List Text → Option ArgError
unfolding check_all check_flags
validate_args allowed args = elim (check_all args) [
  | some e ↦ some e
  | none ↦ elim allowed [ none ↦ none | some flags ↦ check_flags flags args ]
]

module _ {N : Type 0} (ops : FloatOps N) where
  abbrev item_texts : Value N → List Text
  item_texts (arr xs) = go xs
    where
      go : Items N → List Text
      go nil = []
      go (cons v vs) = render ops v ∷ go vs
  item_texts _ = []

  -- A flag has one dash if its name has one byte.
  abbrev flag_texts : Value N → List Text
  flag_texts (obj fs) = go fs
    where
      go : Fields N → List Text
      go end = []
      go (field k v fs) =
          ((if ltb 1 (length k) then codes "--" else codes "-") ++ k) ∷ render ops v ∷ go fs
  flag_texts _ = []

  abbrev text_or : Text → Value N → Text
  text_or d (str t) = t
  text_or d _ = d

  unfoldable pub extract_command : Params N → CliToolMeta → Input
  unfolding get_field
  extract_command params m = record {
    command =
        if m.is_catch_all
        then text_or m.command (get_field (codes "command") params)
        else m.command;
    args =
        item_texts (get_field (codes "args") params)
        ++ flag_texts (get_field (codes "flags") params);
    stdin = text_or [] (get_field (codes "stdin") params);
  }

-- `limitWriter` above a `bytes.Buffer`, which takes whatever it is given.
pub record LimitWriter : Type 0 where
  pub buffer : Text
  pub max : ℕ
  pub written : ℕ

-- The count that `Write` answers, and the writer after it.
unfoldable pub write : Text → LimitWriter → ℕ × LimitWriter
write p lw =
    let remaining = lw.max - lw.written in
    let q = if ltb remaining (length p) then take remaining p else p in
    if leb lw.max lw.written
    then (length p, lw)
    else (length q, record lw { buffer = lw.buffer ++ q; written = lw.written + length q })

abbrev pub limit_writer : ℕ → LimitWriter
limit_writer max = record { buffer = []; max = max; written = 0 }

-- `io.Copy` of the chunks that a process writes: it ends at a write that takes less than it was
-- given, which is an error.
unfoldable pub copy : List Text → LimitWriter → Bool × LimitWriter
unfolding write
copy [] lw = (true, lw)
copy (p ∷ ps) lw =
    let (n, lw') = write p lw in
    let rest = copy ps lw' in if n == length p then rest else (false, lw')

-- A runner's limit of zero stands for 1 MB.
unfoldable pub max_output : ℕ → ℕ
max_output configured = if configured == 0 then 1_048_576 else configured

pub record Command : Type 0 where
  pub bin : Text
  pub arguments : List Text
  pub env : List Text
  pub dir : Text
  pub stdin : Text
  pub timeout : ℕ

-- The code of a process that exited, or the -1 of one that a signal ended.
pub data ExitCode : Type 0 where
  exited : ℕ → ExitCode
  no_code : ExitCode

abbrev pub is_success : ExitCode → Bool
is_success (exited n) = n == 0
is_success no_code = false

-- The end of a process: what it wrote, its code, whether the time ran out, and whether it could not be
-- run.
pub record Ended : Type 0 where
  pub stdout : List Text
  pub stderr : List Text
  pub exit_code : ExitCode
  pub timed_out : Bool
  pub broken : Bool

pub record Result : Type 0 where
  pub stdout : Text
  pub stderr : Text
  pub exit_code : ExitCode

pub data RunError : Type 0 where
  invalid_argument : ArgError → RunError
  out_of_time exec_error : RunError

unfoldable pub build_env : Text → Text → Map Text → List Text
build_env path home custom =
    (codes "PATH=" ++ path)
    ∷ (codes "HOME=" ++ home)
    ∷ codes "LANG=en_US.UTF-8"
    ∷ map (λ e. e.0 ++ codes "=" ++ e.1) custom

module _ (path home : Text) (process : Command → Ended) where
  unfoldable pub command_of : CliToolMeta → Input → Command
  unfolding build_env
  command_of m input = record {
    bin = m.bin;
    arguments = if is_empty input.command then input.args else input.command ∷ input.args;
    env = build_env path home m.env;
    dir = m.working_dir;
    stdin = input.stdin;
    timeout = if m.timeout == 0 then 30_000_000_000 else m.timeout;
  }

  -- The result, if there is one, and the error. An exit code that is not zero is no error.
  unfoldable pub run : ℕ → CliToolMeta → Input → Option Result × Option RunError
  unfolding validate_args command_of max_output copy
  run configured m input = elim (validate_args m.allowed_args input.args) [
    | some e ↦ (none, some (invalid_argument e))
    | none ↦
        let done = process (command_of m input) in
        let (out_fits, out) = copy done.stdout (limit_writer (max_output configured)) in
        let (err_fits, err) = copy done.stderr (limit_writer (max_output configured)) in
        let result : Result = record {
          stdout = out.buffer;
          stderr = err.buffer;
          exit_code = done.exit_code;
        } in
        (
          some result,
          if done.timed_out
              then some out_of_time
              else if done.broken
              then some exec_error
              else if is_success done.exit_code
              then (if out_fits && err_fits then none else some exec_error)
              else none,
        )
  ]
