-- ===== src/Proxy/Completion.antt =====
-- The end of `handleToolCall` of proxy/handler.go for a call that waited: what it does with the
-- resolution that it receives. What the backend answers is the parameter `forward`.
use flux7_mesh.Base.{
  ℕ, ◌≡◌, refl, sym, ◌∙◌, ap, ◌⊎◌, inl, inr, false, Option, none, some, List, ◌∷◌, arith,
  if◌then◌else◌, Text, codes, is_empty, lookup, All-lookup,
}
use flux7_mesh.Policy.Value.{Params}
use flux7_mesh.Registry.{Tool}
use flux7_mesh.Approval.{
  Status, pending, approved, denied, timed_out, Resolution, PendingApproval, has_status, status_eq,
}
use flux7_mesh.Approval
use flux7_mesh.Approval.Machine.{IsSound, IsEntrySound}
use flux7_mesh.Trace.{Entry, update}
use flux7_mesh.Identity.{Identity}
use flux7_mesh.Proxy.Mesh.{Mesh, Call, Printer}
use flux7_mesh.Proxy.Calls.{Answer, refused, forwarded, answer_status, record_usage}

abbrev pub status_text : Status → Text
status_text pending = codes "pending"
status_text approved = codes "approved"
status_text denied = codes "denied"
status_text timed_out = codes "timeout"

module _ {N : Type 0} where
  unfoldable pub updating : Text → (Entry N → Entry N) → Mesh N → Mesh N
  updating id change m = record m { traces = (update id change m.traces).1 }

  abbrev pub note_resolution : Resolution N → Entry N → Entry N
  note_resolution r e = record e {
    approval_status = status_text r.status;
    approved_by = r.resolved_by;
    supervisor_reasoning = r.reasoning;
    supervisor_confidence = r.confidence;
  }

  -- The error stays as it was where there is none.
  abbrev pub note_backend : ℕ → Text → Entry N → Entry N
  note_backend status err e = record e {
    status_code = status;
    error = if is_empty err then e.error else err;
  }

module _ {N : Type 0} (show : Printer N)
    (forward : Call N → Tool → Params N → Text → ℕ × Text) where
  -- None for a resolution that is "pending", which no store sends: the source answers nothing.
  unfoldable pub complete_call :
      Call N → Identity → Params N → Tool → Resolution N → Mesh N → Option Answer × Mesh N
  unfolding updating
  complete_call c who params t r m =
      let noted = updating c.trace_id (note_resolution r) m in
      elim r.status [
        | pending ↦ (none, noted)
        | denied ↦ (some (refused 403), noted)
        | timed_out ↦ (some (refused 408), noted)
        | approved ↦
            let (status, err) = forward c t params who.agent_id in
            (
              some (forwarded t (answer_status err)),
              updating c.trace_id (note_backend status err)
                  (record_usage show c who.agent_id params noted),
            )
      ]

  by_status :
      (c : Call N) (who : Identity) (params : Params N) (t : Tool) (r : Resolution N) (m : Mesh N)
      (st : Status)
      → r.status ≡ st
      → status_eq st pending ≡ false
      → ((st ≡ approved)
          × ((status : ℕ) × ((complete_call c who params t r m).0 ≡ some (forwarded t status))))
        ⊎ (((st ≡ denied) × ((complete_call c who params t r m).0 ≡ some (refused 403)))
            ⊎ ((st ≡ timed_out) × ((complete_call c who params t r m).0 ≡ some (refused 408))))
  unfolding complete_call
  by_status c who params t r m pending e final = absurd (ground arith)
  by_status c who params t r m approved e final =
      inl (refl, (answer_status (forward c t params who.agent_id).1, rw (complete_call, e) refl))
  by_status c who params t r m denied e final = inr (inl (refl, rw (complete_call, e) refl))
  by_status c who params t r m timed_out e final = inr (inr (refl, rw (complete_call, e) refl))

  -- A call that waited for an approval of a sound store, and goes on with a resolution that was
  -- sent for it, is always answered. It reaches the backend if the approval was approved, and is
  -- refused, with 403 or 408, if it was denied or timed out.
  pub complete_call_outcome :
      (c : Call N) (who : Identity) (params : Params N) (t : Tool) (r : Resolution N)
      (rs : List (Resolution N)) (m : Mesh N) (s : Approval.Store N) (id : Text)
      (pa : PendingApproval N)
      → IsSound s
      → lookup id s.entries ≡ some pa
      → pa.result ≡ r ∷ rs
      → ((pa.status ≡ approved)
          × ((status : ℕ) × ((complete_call c who params t r m).0 ≡ some (forwarded t status))))
        ⊎ (((pa.status ≡ denied) × ((complete_call c who params t r m).0 ≡ some (refused 403)))
            ⊎ ((pa.status ≡ timed_out)
                × ((complete_call c who params t r m).0 ≡ some (refused 408))))
  unfolding complete_call
  complete_call_outcome c who params t r rs m s id pa sound here sent =
      let (_, settled) = All-lookup IsEntrySound id pa s.entries sound here in
      elim settled [
        | inl (waiting, empty) ↦ absurd (ground arith)
        | inr (q, final, is, status, _) ↦
            let same : q ≡ r = ground arith in
            let agrees : r.status ≡ pa.status = ap (λ x. x.status) (sym same) ∙ status in
            by_status c who params t r m pa.status agrees final
      ]
