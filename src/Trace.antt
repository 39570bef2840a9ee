-- ===== src/Trace.antt =====
-- trace/store.go: the calls that were decided, the oldest first. A time is in nanoseconds, zero for
-- none; the new trace ID that `Record` may need is an argument. The lock makes a call one step. The
-- append-only file, the export and the token counts are left out.
pub mod Order
pub mod Reload
pub mod Lineage
pub mod Integrity
pub mod Scanner
pub mod Context
use flux7_mesh.Base.{
  ℕ, suc, ◌-◌, Bool, true, false, not, ◌&&◌, Option, none, some, List, [], ◌∷◌, ◌++◌, if◌then◌else◌,
  ◌==◌, ltb, Text, text_eq, is_empty, is_some, length, drop,
}
use flux7_mesh.Policy.Value.{Params}

pub record Entry (N : Type 0) : Type 0 where
  pub trace_id : Text
  pub session_id : Text
  pub agent_id : Text
  pub user_id : Text
  pub tool : Text
  pub params : Params N
  pub policy : Text
  pub policy_rule : Text
  pub status_code : ℕ
  pub error : Text
  pub timestamp : ℕ
  pub grant_id : Text
  pub parent_trace_id : Text
  pub span_id : Text
  pub parent_span_id : Text
  pub approval_id : Text
  pub approval_status : Text
  pub approved_by : Text
  pub supervisor_reasoning : Text
  pub supervisor_confidence : Option N
  pub revision : ℕ

pub record Store (N : Type 0) : Type 0 where
  pub entries : List (Entry N)
  pub max_size : ℕ

module _ {N : Type 0} where
  -- The last entry of the list that passes the test: a loop from the end.
  unfoldable pub find_last : (Entry N → Bool) → List (Entry N) → Option (Entry N)
  find_last p [] = none
  find_last p (e ∷ es) = elim (find_last p es) [
    | some f ↦ some f
    | none ↦ if p e then some e else none
  ]

  abbrev pub has_trace : Text → Entry N → Bool
  has_trace id e = text_eq e.trace_id id

  -- The span of the call that motivated the grant, where the entry names no other parent.
  unfoldable pub with_parent : List (Entry N) → Entry N → Entry N
  unfolding find_last
  with_parent es e =
      if not (is_empty e.parent_trace_id) && is_empty e.parent_span_id
      then elim (find_last (has_trace e.parent_trace_id) es) [
        | none ↦ e
        | some p ↦ record e { parent_span_id = p.span_id }
      ]
      else e

  -- The trace ID and the time that `Record` fills in.
  abbrev pub stamped : ℕ → Text → Entry N → Entry N
  stamped now fresh e = record e {
    trace_id = if is_empty e.trace_id then fresh else e.trace_id;
    timestamp = if e.timestamp == 0 then now else e.timestamp;
  }

  -- The newest `max_size` entries.
  abbrev pub newest : ℕ → List (Entry N) → List (Entry N)
  newest max_size es = if ltb max_size (length es) then drop (length es - max_size) es else es

  unfoldable pub record_entry : ℕ → Text → Entry N → Store N → Store N
  unfolding with_parent
  record_entry now fresh e s = record s {
    entries = newest s.max_size (s.entries ++ with_parent s.entries (stamped now fresh e) ∷ []);
  }

  abbrev pub revised : (Entry N → Entry N) → Entry N → Entry N
  revised change e = let changed = change e in record changed { revision = suc changed.revision }

  -- The list with its last entry of the trace revised.
  unfoldable pub update_last : Text → (Entry N → Entry N) → List (Entry N) → Option (List (Entry N))
  update_last id change [] = none
  update_last id change (e ∷ es) = elim (update_last id change es) [
    | some es' ↦ some (e ∷ es')
    | none ↦ if has_trace id e then some (revised change e ∷ es) else none
  ]

  unfoldable pub update : Text → (Entry N → Entry N) → Store N → Bool × Store N
  unfolding update_last
  update id change s = elim (update_last id change s.entries) [
    | none ↦ (false, s)
    | some es ↦ (true, record s { entries = es })
  ]

  -- The entries that pass the test, the newest first, at most `limit` of them.
  unfoldable pub select : ℕ → (Entry N → Bool) → List (Entry N) → List (Entry N)
  select limit p [] = []
  select limit p (e ∷ es) =
      let newer = select limit p es in
      if ltb (length newer) limit && p e then newer ++ e ∷ [] else newer

  -- A limit of zero is 200.
  unfoldable pub query_by_session : Text → ℕ → Store N → List (Entry N)
  unfolding select
  query_by_session session limit s =
      select (if limit == 0 then 200 else limit) (λ e. text_eq e.session_id session) s.entries
