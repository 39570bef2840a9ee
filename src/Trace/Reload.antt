-- ===== src/Trace/Reload.antt =====
-- What `Record` and `Update` of trace/store.go append to the file, and what `loadFromFile` makes of it
-- at the next start. The JSON of an entry is the entry; lines that are no entry are left out.
use flux7_mesh.Trace.Scanner.{scan}
use flux7_mesh.Base.{
  is_empty, map, Bool, All, length, length-append, ◌≤◌, ◌<◌, is_some, text_eq_iff, refl, sym, true,
  false, ap, inl, inr, Option-cases, ◌≡◌, ◌∙◌, ltb, none, some, [], List, Option, ℕ, if◌then◌else◌,
  Text, ◌∷◌, ◌++◌, arith,
}
use flux7_mesh.Trace.{
  Entry, Store, record_entry, update, update_last, with_parent, stamped, revised, has_trace,
  find_last, newest,
}

-- The buffer of the scan, of 1 MB.
abbrev pub max_loaded_line : ℕ
max_loaded_line = 1_048_576

module _ {N : Type 0} where
  -- The last entry of the trace gives way to the one that was read.
  unfoldable pub replace_last : Entry N → List (Entry N) → Option (List (Entry N))
  replace_last e [] = none
  replace_last e (f ∷ fs) = elim (replace_last e fs) [
    | some fs' ↦ some (f ∷ fs')
    | none ↦ if has_trace e.trace_id f then some (e ∷ fs) else none
  ]

  -- One line of the file. A revision replaces the entry of its trace that came last.
  unfoldable pub load_entry : List (Entry N) → Entry N → List (Entry N)
  unfolding replace_last
  load_entry es e = elim (replace_last e es) [
    | none ↦ es ++ e ∷ []
    | some es' ↦ if ltb 0 e.revision then es' else es ++ e ∷ []
  ]

  abbrev pub load_entries : List (Entry N) → List (Entry N) → List (Entry N)
  load_entries es [] = es
  load_entries es (e ∷ log) = load_entries (load_entry es e) log

  -- The lines that are read: those that are empty or malformed are skipped.
  unfoldable pub decode_lines : (Text → Option (Entry N)) → List Text → List (Entry N)
  decode_lines decode [] = []
  decode_lines decode (line ∷ lines) =
      let rest = decode_lines decode lines in
      if is_empty line then rest else elim (decode line) [ none ↦ rest | some e ↦ e ∷ rest ]

  -- The entries, and whether the scan failed: what was read before stays loaded. `decode` is
  -- json.Unmarshal of a line.
  unfoldable pub load_from_file : (Text → Option (Entry N)) → ℕ → List Text → List (Entry N) × Bool
  unfolding load_entry decode_lines scan
  load_from_file decode max_size lines =
      let (read, failed) = scan max_loaded_line lines in
      (newest max_size (load_entries [] (decode_lines decode read)), failed)

-- A call of `Record` or `Update`.
pub data Event (N : Type 0) : Type 0 where
  recording : ℕ → Text → Entry N → Event N
  updating : Text → (Entry N → Entry N) → Event N

module _ {N : Type 0} where
  abbrev pub after_event : Event N → Store N → Store N
  after_event (recording now fresh e) s = record_entry now fresh e s
  after_event (updating id change) s = (update id change s).1

  -- The lines that a call appends.
  abbrev pub logged : Event N → Store N → List (Entry N)
  logged (recording now fresh e) s = with_parent s.entries (stamped now fresh e) ∷ []
  logged (updating id change) s = elim (find_last (has_trace id) s.entries) [
    | none ↦ []
    | some e ↦ revised change e ∷ []
  ]

  abbrev pub run_events : List (Event N) → Store N → Store N
  run_events [] s = s
  run_events (v ∷ vs) s = run_events vs (after_event v s)

  abbrev pub log_of : List (Event N) → Store N → List (Entry N)
  log_of [] s = []
  log_of (v ∷ vs) s = logged v s ++ log_of vs (after_event v s)

  found_updates :
      (id : Text) (change : Entry N → Entry N) (es : List (Entry N)) (g : Entry N)
      → find_last (has_trace id) es ≡ some g
      → is_some (update_last id change es) ≡ true
  unfolding update_last find_last
  found_updates id change [] g h = absurd (ground arith)
  found_updates id change (f ∷ es) g h = elim (Option-cases (find_last (has_trace id) es)) [
    | inr (x, found) ↦ ground (arith, found_updates id change es x found)
    | inl missing ↦ ground arith
  ]

  missing_update :
      (id : Text) (change : Entry N → Entry N) (es : List (Entry N))
      → find_last (has_trace id) es ≡ none
      → update_last id change es ≡ none
  unfolding update_last find_last
  missing_update id change [] h = refl
  missing_update id change (f ∷ es) h = elim (Option-cases (find_last (has_trace id) es)) [
    | inr (x, found) ↦ absurd (ground arith)
    | inl missing ↦ ground (arith, missing_update id change es missing)
  ]

  missing_updates :
      (id : Text) (change : Entry N → Entry N) (e : Entry N) (es : List (Entry N))
      → e.trace_id ≡ id
      → find_last (has_trace id) es ≡ none
      → (update_last id change es ≡ none) × (replace_last e es ≡ none)
  unfolding update_last find_last replace_last
  missing_updates id change e [] same h = (refl, refl)
  missing_updates id change e (f ∷ es) same h = elim (Option-cases (find_last (has_trace id) es)) [
    | inr (x, found) ↦ absurd (ground arith)
    | inl missing ↦
        let tail = missing_updates id change e es same missing in
        let apart : has_trace id f ≡ false = ground arith in
        let apart' : has_trace e.trace_id f ≡ false = rw same apart in
        (rw (tail.0, apart) refl, rw (tail.1, apart') refl)
  ]

  replace_last-update_last :
      (id : Text) (change : Entry N → Entry N) (es : List (Entry N)) (e : Entry N)
      → ((x : Entry N) → (change x).trace_id ≡ x.trace_id)
      → find_last (has_trace id) es ≡ some e
      → replace_last (revised change e) es ≡ update_last id change es
  unfolding replace_last update_last find_last
  replace_last-update_last id change [] e keeps h = absurd (ground arith)
  replace_last-update_last id change (f ∷ es) e keeps h =
      elim (Option-cases (find_last (has_trace id) es)) [
        | inr (g, found) ↦
            let same : g ≡ e = ground arith in
            let ih = replace_last-update_last id change es e keeps (found ∙ ap some same) in
            let there = found_updates id change es e (found ∙ ap some same) in
            ground (arith, ih, there)
        | inl missing ↦
            let here : f ≡ e = ground arith in
            let hit : has_trace id f ≡ true = ground arith in
            let named : (revised change e).trace_id ≡ id =
              keeps e ∙ ap (λ x. x.trace_id) (sym here) ∙ (text_eq_iff f.trace_id id).0 hit in
            let tail = missing_updates id change (revised change e) es named missing in
            let hit' : has_trace (revised change e).trace_id f ≡ true = rw named hit in
            rw (tail.0, tail.1, hit, hit', here) refl
      ]

  replace_last-revision :
      (e : Entry N) (es : List (Entry N)) → e.revision ≡ 0 → load_entry es e ≡ es ++ e ∷ []
  unfolding load_entry
  replace_last-revision e es h = ground arith

  -- A new entry has revision 0 and there is room for it; a change keeps the trace of an entry.
  abbrev pub IsKept : Event N → Store N → Type 0
  IsKept (recording now fresh e) s = (e.revision ≡ 0) × (length s.entries < s.max_size)
  IsKept (updating id change) s = (x : Entry N) → (change x).trace_id ≡ x.trace_id

  abbrev pub AreKept : List (Event N) → Store N → Type 0
  AreKept [] s = Unit {0}
  AreKept (v ∷ vs) s = IsKept v s × AreKept vs (after_event v s)

  with_parent-revision :
      (es : List (Entry N)) (e : Entry N) → (with_parent es e).revision ≡ e.revision
  unfolding with_parent
  with_parent-revision es e = ground arith

  load_logged :
      (v : Event N) (s : Store N)
      → IsKept v s
      → load_entries s.entries (logged v s) ≡ (after_event v s).entries
  unfolding record_entry update load_entry
  load_logged (recording now fresh e) s (first, room) =
      let new = with_parent s.entries (stamped now fresh e) in
      let zero_revision : new.revision ≡ 0 =
        with_parent-revision s.entries (stamped now fresh e) ∙ first in
      let whole : newest s.max_size (s.entries ++ new ∷ []) ≡ s.entries ++ new ∷ [] =
        ground (arith, length-append s.entries (new ∷ [])) in
      replace_last-revision new s.entries zero_revision ∙ sym whole
  load_logged (updating id change) s keeps =
      elim (Option-cases (find_last (has_trace id) s.entries)) [
        | inl missing ↦
            let stays = missing_update id change s.entries missing in
            let nothing : logged (updating id change) s ≡ [] = rw (logged, missing) refl in
            rw (nothing, after_event, update, stays) refl
        | inr (e, found) ↦
            let same = replace_last-update_last id change s.entries e keeps found in
            let there = found_updates id change s.entries e found in
            let one : logged (updating id change) s ≡ revised change e ∷ [] =
              rw (logged, found) refl in
            rw one (ground (arith, same, there))
      ]

  load_entries-append :
      (es : List (Entry N)) (a b : List (Entry N))
      → load_entries es (a ++ b) ≡ load_entries (load_entries es a) b
  load_entries-append es [] b = refl
  load_entries-append es (e ∷ a) b = load_entries-append (load_entry es e) a b

  load-log_of :
      (vs : List (Event N)) (s : Store N)
      → AreKept vs s
      → load_entries s.entries (log_of vs s) ≡ (run_events vs s).entries
  load-log_of [] s h = refl
  load-log_of (v ∷ vs) s (first, later) =
      load_entries-append s.entries (logged v s) (log_of vs (after_event v s))
      ∙ ap (λ es. load_entries es (log_of vs (after_event v s))) (load_logged v s first)
      ∙ load-log_of vs (after_event v s) later

  abbrev pub new_store : ℕ → Store N
  new_store max_size = record { entries = []; max_size = max_size }

  -- The line of each entry is read back as the entry, is not empty and is shorter than 1 MB.
  abbrev pub AreLoadable : (Text → Option (Entry N)) → (Entry N → Text) → List (Entry N) → Type 0
  AreLoadable decode encode log =
      All
        (λ e.
          (decode (encode e) ≡ some e)
          × (is_empty (encode e) ≡ false)
          × (length (encode e) < max_loaded_line))
        log

  read-lines :
      (decode : Text → Option (Entry N)) (encode : Entry N → Text) (log : List (Entry N))
      → AreLoadable decode encode log
      → (scan max_loaded_line (map encode log) ≡ (map encode log, false))
        × (decode_lines decode (map encode log) ≡ log)
  unfolding scan decode_lines
  read-lines decode encode [] h = (refl, refl)
  read-lines decode encode (e ∷ log) ((reads, there, short), later) =
      let (whole, decoded) = read-lines decode encode log later in
      let fits : ltb (length (encode e)) max_loaded_line ≡ true = ground arith in
      (rw (fits, whole) refl, rw (there, reads, decoded) refl)

  -- What a new store is after any calls of `Record` and `Update`, the next start reads back from the
  -- lines that they appended, where each of them is shorter than 1 MB and is decoded to its entry: no
  -- call and no revision is lost, and the scan ends without an error. There is room for the entries in
  -- the store, calls are recorded at revision 0, and no update changes the trace of an entry.
  pub load_from_file-log_of :
      (decode : Text → Option (Entry N)) (encode : Entry N → Text) (vs : List (Event N))
      (max_size : ℕ)
      → AreKept vs (new_store max_size)
      → length (run_events vs (new_store max_size)).entries ≤ max_size
      → AreLoadable decode encode (log_of vs (new_store max_size))
      → load_from_file decode max_size (map encode (log_of vs (new_store max_size)))
        ≡ ((run_events vs (new_store max_size)).entries, false)
  unfolding load_from_file
  load_from_file-log_of decode encode vs max_size kept room loadable =
      let (whole, decoded) = read-lines decode encode (log_of vs (new_store max_size)) loadable in
      let loaded = load-log_of vs (new_store max_size) kept in
      rw (load_from_file, whole, decoded, loaded) (ground arith)
