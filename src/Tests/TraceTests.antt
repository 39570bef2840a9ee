-- ===== src/Tests/TraceTests.antt =====
-- The trace file and the lineage of calls at work, with a digest of two letters.
use flux7_mesh.Trace.Context.Joining.{new_context-traceparent}
use flux7_mesh.Trace.Context.{traceparent, Context, new_context}
use flux7_mesh.Trace.Lineage.{chain-IsLinked, chain, IsLinked}
use flux7_mesh.Trace.Reload.{
  updating, load_from_file-log_of, run_events, new_store, recording, log_of, Event, load_from_file,
}
use flux7_mesh.Trace.Integrity.Chaining.{verify_reader-append_lines, HasChained}
use flux7_mesh.Trace.Integrity.{
  seal_line, decimal_from, decimal, chain_hash, envelope_after, envelope_text, append_lines,
  alg_sha256, empty_report, verify_reader, Envelope, Walk,
}
use flux7_mesh.Base.{
  map, length, text_eq, refl, inl, false, none, some, [], arith, List, Option, ℕ, if◌then◌else◌,
  Text, codes, ◌≤◌, ◌≡◌, ◌∷◌, ◌++◌, ◌==◌,
}
use flux7_mesh.Trace.{revised, stamped, Entry, with_parent, record_entry, update, Store}
use flux7_mesh.Tests.LimitTests.{entry, failed}

abbrev sha : Text → Text
sha t = codes "ab"

abbrev hmac : Text → Text → Text
hmac key t = codes "cd"

abbrev bodies : List Text
bodies = codes "{\"a\":1" ∷ codes "{\"b\":2" ∷ []

abbrev first_envelope : Envelope
first_envelope = record { seq = 1; alg = alg_sha256; prev_hash = []; hash = codes "ab" }

abbrev second_envelope : Envelope
second_envelope = record { seq = 2; alg = alg_sha256; prev_hash = codes "ab"; hash = codes "ab" }

abbrev parse : Text → Option Envelope
parse t =
    if text_eq t (codes "{" ++ envelope_text first_envelope)
    then some first_envelope
    else some second_envelope

abbrev at_start : Walk
at_start = record { report = empty_report; prev = []; started = false }

verify_reader-append_lines_example :
    let lines = append_lines sha hmac none 0 [] (codes "{\"a\":1}" ∷ codes "{\"b\":2}" ∷ []) in
    let (w', failed) = verify_reader sha hmac parse none (codes "traces") lines at_start in
    HasChained sha hmac parse none at_start 2 w' × (failed ≡ false)
unfolding envelope_after chain_hash envelope_text decimal decimal_from text_eq append_lines
    seal_line
verify_reader-append_lines_example =
    verify_reader-append_lines sha hmac parse none (codes "traces") 0 [] bodies at_start
      (refl, inl refl)
      (
        ((refl, (refl, (refl, (refl, (refl, (refl, tt)))))), tt, (refl, (refl, tt)), refl),
        refl,
        (
          (
            (refl, (refl, (refl, (refl, (refl, (refl, tt)))))),
            (refl, (refl, tt)),
            (refl, (refl, tt)),
            refl,
          ),
          refl,
          tt,
        ),
      )
      (omega arith, (omega arith, tt))

abbrev events : List (Event ℕ)
events = recording 5 (codes "t9") (entry (codes "t1")) ∷ updating (codes "t1") failed ∷ []

-- A line of the revision of the only entry.
abbrev encode : Entry ℕ → Text
encode e = codes "t" ++ e.revision ∷ []

abbrev decode : Text → Option (Entry ℕ)
decode line =
    if text_eq line (codes "t" ++ 0 ∷ [])
    then some (stamped 5 (codes "t9") (entry (codes "t1")))
    else some (revised failed (stamped 5 (codes "t9") (entry (codes "t1"))))

load_from_file-log_of_example :
    load_from_file decode 4 (map encode (log_of events (new_store 4)))
    ≡ ((run_events events (new_store 4)).entries, false)
unfolding flux7_mesh.Trace.update record_entry text_eq with_parent
load_from_file-log_of_example =
    load_from_file-log_of decode encode events 4 ((refl, omega arith), ((λ x. refl), tt))
      (omega arith) ((refl, refl, omega arith), ((refl, refl, omega arith), tt))

abbrev linked : Store ℕ
linked = record {
  entries =
      entry (codes "t1")
      ∷ record (entry (codes "t2")) { parent_trace_id = codes "t1" }
      ∷ record (entry (codes "t3")) { parent_trace_id = codes "t2" }
      ∷ [];
  max_size = 4;
}

chain-IsLinked_example :
    IsLinked (chain (codes "t3") 2 linked)
    × (length (chain (codes "t3") 2 linked) ≤ (if 2 == 0 then 10 else 2))
chain-IsLinked_example = chain-IsLinked (codes "t3") 2 linked

abbrev sender : Context
sender = record {
  trace_id = codes "0123456789abcdef0123456789abcdef";
  span_id = codes "00000000000000a1";
  parent_span_id = [];
}

new_context-traceparent_example :
    new_context (codes "t") (codes "s") (traceparent (codes "r") sender) (codes "x")
    ≡ record { trace_id = sender.trace_id; span_id = codes "s"; parent_span_id = sender.span_id }
new_context-traceparent_example =
    new_context-traceparent (codes "t") (codes "s") (codes "r") (codes "x") sender
      (refl, ground arith, refl) (refl, ground arith, refl)
