-- ===== src/Trace/Lineage.antt =====
-- The queries of trace/store.go: `Query`, `QueryTrace`, `Chain`, `Stats`.
use mathlib.Core.List.{reverse}
use flux7_mesh.Base.{
  keep, any, count, is_empty, text_eq, length, text_eq_iff, zero, suc, sym, inl, inr, not, none,
  some, [], Bool, List, ℕ, Bool-cases, Option-cases, if◌then◌else◌, Text, codes, ◌+◌, ◌-◌, ◌≤◌, ◌≡◌,
  ◌&&◌, ◌||◌, ◌∷◌, ◌==◌, arith,
}
use flux7_mesh.Trace.{Entry, Store, find_last, has_trace, select}

abbrev pub fits : Text → Text → Bool
fits wanted value = is_empty wanted || text_eq value wanted

pub record Stats : Type 0 where
  pub total : ℕ
  pub allowed : ℕ
  pub denied : ℕ
  pub human_approval : ℕ
  pub errors : ℕ

module _ {N : Type 0} where
  -- The newest entries of the agent and the tool, where they are given; a limit of zero is 100.
  unfoldable pub query : Text → Text → ℕ → Store N → List (Entry N)
  unfolding select
  query agent tool limit s =
      select (if limit == 0 then 100 else limit) (λ e. fits agent e.agent_id && fits tool e.tool)
        s.entries

  unfoldable pub query_trace : Text → Store N → List (Entry N)
  query_trace id s = if is_empty id then [] else reverse (keep (has_trace id) s.entries)

  -- The walk of `Chain`: at most `fuel` ancestors are put before the chain, none twice.
  unfoldable pub walk_back :
      ℕ → List (Entry N) → List Text → Entry N → List (Entry N) → List (Entry N)
  unfolding find_last
  walk_back zero es seen e rest = e ∷ rest
  walk_back (suc fuel) es seen e rest =
      if is_empty e.parent_trace_id || any (λ id. text_eq id e.parent_trace_id) seen
      then e ∷ rest
      else elim (find_last (has_trace e.parent_trace_id) es) [
        | none ↦ e ∷ rest
        | some p ↦ walk_back fuel es (e.parent_trace_id ∷ seen) p (e ∷ rest)
      ]

  -- A depth of zero is 10.
  unfoldable pub chain : Text → ℕ → Store N → List (Entry N)
  unfolding walk_back
  chain id max_depth s = elim (find_last (has_trace id) s.entries) [
    | none ↦ []
    | some e ↦ walk_back ((if max_depth == 0 then 10 else max_depth) - 1) s.entries (id ∷ []) e []
  ]

  abbrev has_policy : Text → Entry N → Bool
  has_policy policy e = text_eq e.policy policy

  unfoldable pub stats : Store N → Stats
  stats s = record {
    total = length s.entries;
    allowed = count (has_policy (codes "allow")) s.entries;
    denied = count (has_policy (codes "deny")) s.entries;
    human_approval = count (has_policy (codes "human_approval")) s.entries;
    errors = count (λ e. not (is_empty e.error)) s.entries;
  }

  -- Each entry behind the first names the one before it as the call that motivated it.
  abbrev pub IsLinked : List (Entry N) → Type 0
  IsLinked [] = Unit {0}
  IsLinked (e ∷ []) = Unit {0}
  IsLinked (p ∷ e ∷ es) = (e.parent_trace_id ≡ p.trace_id) × IsLinked (e ∷ es)

  find_last-has_trace :
      (id : Text) (es : List (Entry N)) (e : Entry N)
      → find_last (has_trace id) es ≡ some e
      → e.trace_id ≡ id
  unfolding find_last
  find_last-has_trace id [] e h = absurd (ground arith)
  find_last-has_trace id (f ∷ es) e h = elim (Option-cases (find_last (has_trace id) es)) [
    | inl missing ↦ ground (arith, text_eq_iff f.trace_id id)
    | inr (g, found) ↦ ground (arith, find_last-has_trace id es g found)
  ]

  walk_back-IsLinked :
      (fuel : ℕ) (es : List (Entry N)) (seen : List Text) (e : Entry N) (rest : List (Entry N))
      → IsLinked (e ∷ rest)
      → IsLinked (walk_back fuel es seen e rest)
        × (length (walk_back fuel es seen e rest) ≤ length rest + suc fuel)
  unfolding walk_back
  walk_back-IsLinked zero es seen e rest h = (h, omega arith)
  walk_back-IsLinked (suc fuel) es seen e rest h =
      elim (Bool-cases
        (is_empty e.parent_trace_id || any (λ id. text_eq id e.parent_trace_id) seen)) [
          | inl ends ↦ rw (walk_back, ends) (h, omega arith)
          | inr goes ↦ elim (Option-cases (find_last (has_trace e.parent_trace_id) es)) [
            | inl gone ↦ rw (walk_back, goes, gone) (h, omega arith)
            | inr (p, found) ↦
                let parent = sym (find_last-has_trace e.parent_trace_id es p found) in
                let (linked, bound) =
                  walk_back-IsLinked fuel es (e.parent_trace_id ∷ seen) p (e ∷ rest) (parent, h) in
                rw (walk_back, goes, found) (linked, omega (arith, bound))
          ]
        ]

  -- The chain of a trace has at most as many entries as the depth, 10 where none is given, and each
  -- entry behind the first names the one before it as the call that motivated it, whatever the
  -- entries of the store refer to.
  pub chain-IsLinked :
      (id : Text) (max_depth : ℕ) (s : Store N)
      → IsLinked (chain id max_depth s)
        × (length (chain id max_depth s) ≤ (if max_depth == 0 then 10 else max_depth))
  unfolding chain
  chain-IsLinked id max_depth s = elim (Option-cases (find_last (has_trace id) s.entries)) [
    | inl gone ↦ rw (chain, gone) (tt, ground arith)
    | inr (e, found) ↦
        let depth = if max_depth == 0 then 10 else max_depth in
        let (linked, bound) = walk_back-IsLinked (depth - 1) s.entries (id ∷ []) e [] tt in
        rw (chain, found) (linked, ground (arith, bound))
  ]
