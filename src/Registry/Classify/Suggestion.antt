-- ===== src/Registry/Classify/Suggestion.antt =====
-- Which tools the classification suggests to allow, in terms of what they declare.
use flux7_mesh.Policy.Engine.{allow}
use flux7_mesh.Registry.Classify.{
  access_signals, name_tokens, classify, dispatch_signals, suggested_action, unknown, run_verbs,
  read, has_any, write, generic, language_params, read_verbs, named, write_verbs, action_for, words,
  param_signal, Reason, is_in, Signal, family_signals, method_signals, annotation_signals,
  verb_signals,
}
use flux7_mesh.Registry.{Tool, Param, Annotations}
use flux7_mesh.Base.{
  any-append, ◌≢◌, is_some, sym, ap, Option-cases, ◌∙◌, to_lower, text_eq, is_empty, any, to_upper,
  refl, inl, inr, true, false, not, none, some, [], arith, Bool, List, Option, Bool-cases,
  if◌then◌else◌, Text, codes, ◌≡◌, ◌↔◌, ◌&&◌, ◌||◌, ◌∷◌, ◌++◌,
}
use flux7_mesh.Registry.Classify.{language_argument, run_argument}
use flux7_mesh.Registry.Classify.{Reason}
use mathlib.Core.Path.{ap₂}

abbrev is_dispatcher : Tool → Bool
is_dispatcher t = elim t.cli_meta [ none ↦ false | some m ↦ m.is_catch_all ]

-- A text argument that is run: its name is one of a language, or it is the query of a tool that runs.
abbrev pub is_run : List Text → Param → Bool
is_run tokens p =
    (is_empty p.param_type || text_eq p.param_type (codes "string"))
    && (is_in language_params (to_lower p.name)
        || (text_eq (to_lower p.name) (codes "query") && has_any tokens run_verbs))

abbrev pub is_safe_method : Text → Bool
is_safe_method method = is_in (words ("GET" ∷ "HEAD" ∷ "OPTIONS" ∷ [])) (to_upper method)

abbrev says : Bool → Option Bool → Bool
says b none = false
says true (some a) = a
says false (some a) = not a

abbrev pub declares_write : Option Annotations → Bool
declares_write none = false
declares_write (some a) = says false a.read_only || says true a.destructive

abbrev pub declares_read : Option Annotations → Bool
declares_read none = false
declares_read (some a) = says true a.read_only

param_signal-is_run :
    (tokens : List Text) (p : Param) → is_some (param_signal tokens p) ≡ is_run tokens p
unfolding param_signal
param_signal-is_run tokens p =
    by_tests (is_empty p.param_type) (text_eq p.param_type (codes "string"))
      (is_in language_params (to_lower p.name))
      (text_eq (to_lower p.name) (codes "query") && has_any tokens run_verbs)
  where
    by_tests :
        (empty string language run : Bool)
        → is_some (
            if not empty && not string
            then none
            else if language
            then some (language_argument p.name)
            else if run
            then some (run_argument p.name)
            else none)
          ≡ ((empty || string) && (language || run))
    by_tests empty string language run = ground arith

abbrev after_signal : List Reason → Option Reason → List Reason
after_signal rest found = elim found [ none ↦ rest | some r ↦ r ∷ rest ]

cons≢nil : {r : Reason} {rs : List Reason} → r ∷ rs ≢ []
cons≢nil e = cc

true≢false : true ≢ false
true≢false e = cc

family_signals_iff :
    (tokens : List Text) (ps : List Param)
    → (family_signals tokens ps ≡ []) ↔ (any (is_run tokens) ps ≡ false)
unfolding family_signals param_signal
family_signals_iff tokens [] = (λ h. refl, λ h. refl)
family_signals_iff tokens (p ∷ ps) =
    let ih = family_signals_iff tokens ps in
    let first = param_signal-is_run tokens p in
    let goes : family_signals tokens (p ∷ ps)
        ≡ after_signal (family_signals tokens ps) (param_signal tokens p) =
      refl in
    elim (Option-cases (param_signal tokens p)) [
      | inl silent ↦
          let free : is_run tokens p ≡ false = sym first ∙ ap is_some silent in
          let same = goes ∙ ap (after_signal (family_signals tokens ps)) silent in
          (
            λ h. ap (λ b. b || any (is_run tokens) ps) free ∙ ih.0 (sym same ∙ h),
            λ h. same ∙ ih.1 (sym (ap (λ b. b || any (is_run tokens) ps) free) ∙ h),
          )
      | inr (reason, found) ↦
          let runs : is_run tokens p ≡ true = sym first ∙ ap is_some found in
          let same = goes ∙ ap (after_signal (family_signals tokens ps)) found in
          (
            λ h. absurd (cons≢nil (sym same ∙ h)),
            λ h. absurd (true≢false (sym (ap (λ b. b || any (is_run tokens) ps) runs) ∙ h)),
          )
    ]

method_lem :
    (m : Text)
    → (any (λ s. s.writes) (method_signals m) ≡ not (is_empty m || is_safe_method m))
      × (any (λ s. s.reads) (method_signals m) ≡ is_safe_method m)
unfolding method_signals to_upper text_eq
method_lem [] = (refl, refl)
method_lem (c ∷ m) = elim (Bool-cases (is_safe_method (c ∷ m))) [
  | inl safe ↦ rw (method_signals, safe) (refl, refl)
  | inr other ↦ rw (method_signals, other) (refl, refl)
]

annotation_lem :
    (a : Option Annotations)
    → (any (λ s. s.writes) (annotation_signals a) ≡ declares_write a)
      × (any (λ s. s.reads) (annotation_signals a) ≡ declares_read a)
unfolding annotation_signals
annotation_lem none = (refl, refl)
annotation_lem (some a) = (ground arith, ground arith)

verb_lem :
    (ws : List Text)
    → (any (λ s. s.writes) (verb_signals ws) ≡ any (is_in write_verbs) ws)
      × (any (λ s. s.reads) (verb_signals ws)
          ≡ any (λ w. not (is_in write_verbs w) && is_in read_verbs w) ws)
unfolding verb_signals
verb_lem [] = (refl, refl)
verb_lem (w ∷ ws) =
    let (writes, reads) = verb_lem ws in
    elim (Bool-cases (is_in write_verbs w)) [
      | inl hit ↦ rw (verb_signals, hit) (refl, reads)
      | inr other ↦ elim (Bool-cases (is_in read_verbs w)) [
        | inl reading ↦ rw (verb_signals, other, reading) (writes, refl)
        | inr neither ↦ rw (verb_signals, other, neither) (writes, reads)
      ]
    ]

by_signals :
    (generics : List Reason) (signals : List Signal)
    → (action_for
          (elim generics [ [] ↦ named | r ∷ rs ↦ generic ])
          (if any (λ s. s.writes) signals
            then write
            else if any (λ s. s.reads) signals
            then read
            else unknown)
        ≡ allow)
      ↔ ((generics ≡ [])
          × (any (λ s. s.writes) signals ≡ false)
          × (any (λ s. s.reads) signals ≡ true))
by_signals [] signals = elim (Bool-cases (any (λ s. s.writes) signals)) [
  | inl w ↦ (λ h. absurd (ground arith), λ h. absurd (ground arith))
  | inr w ↦ (λ h. (refl, w, ground arith), λ h. rw (w, h.2) refl)
]
by_signals (r ∷ rs) signals = (λ h. absurd (ground arith), λ h. absurd (ground arith))

-- Where no word writes, those that read are not lost.
any_without :
    (p q : Text → Bool) (ws : List Text)
    → any p ws ≡ false
    → any (λ w. not (p w) && q w) ws ≡ any q ws
any_without p q [] h = refl
any_without p q (w ∷ ws) h = ground (arith, any_without p q ws)

dispatch_iff : (t : Tool) → (dispatch_signals t ≡ []) ↔ (is_dispatcher t ≡ false)
dispatch_iff t = elim (Option-cases t.cli_meta) [
  | inl plain ↦ rw plain (λ h. refl, λ h. refl)
  | inr (m, cli) ↦ elim (Bool-cases m.is_catch_all) [
    | inl all ↦ rw (cli, all) (λ h. absurd (cons≢nil h), λ h. absurd (true≢false h))
    | inr one ↦ rw (cli, one) (λ h. refl, λ h. refl)
  ]
]

append-nil_iff : (xs ys : List Reason) → (xs ++ ys ≡ []) ↔ ((xs ≡ []) × (ys ≡ []))
append-nil_iff [] ys = (λ h. (refl, h), λ h. h.1)
append-nil_iff (x ∷ xs) ys = (λ h. absurd (cons≢nil h), λ h. absurd (cons≢nil h.0))

access_lem :
    (t : Tool)
    → (any (λ s. s.writes) (access_signals t) ≡ (
        not (is_empty t.method || is_safe_method t.method)
        || declares_write t.annotations
        || any (is_in write_verbs) (name_tokens t)))
      × (any (λ s. s.reads) (access_signals t) ≡ (
          is_safe_method t.method
          || declares_read t.annotations
          || any (λ w. not (is_in write_verbs w) && is_in read_verbs w) (name_tokens t)))
access_lem t =
    let m = method_signals t.method in
    let a = annotation_signals t.annotations in
    let v = verb_signals (name_tokens t) in
    let (m_writes, m_reads) = method_lem t.method in
    let (a_writes, a_reads) = annotation_lem t.annotations in
    let (v_writes, v_reads) = verb_lem (name_tokens t) in
    (
      any-append (λ s. s.writes) (m ++ a) v
          ∙ ap₂ (λ b c. b || c)
              (any-append (λ s. s.writes) m a ∙ ap₂ (λ b c. b || c) m_writes a_writes) v_writes,
      any-append (λ s. s.reads) (m ++ a) v
          ∙ ap₂ (λ b c. b || c)
              (any-append (λ s. s.reads) m a ∙ ap₂ (λ b c. b || c) m_reads a_reads) v_reads,
    )

by_classify :
    (t : Tool)
    → (suggested_action (classify (some t)) ≡ allow) ↔ (
        (dispatch_signals t ++ family_signals (name_tokens t) t.params ≡ [])
        × (any (λ s. s.writes) (access_signals t) ≡ false)
        × (any (λ s. s.reads) (access_signals t) ≡ true))
unfolding suggested_action classify
by_classify t =
    by_signals (dispatch_signals t ++ family_signals (name_tokens t) t.params) (access_signals t)

or_lem :
    (empty safe writes verb : Bool)
    → ((not (empty || safe) || writes || verb) ≡ false)
      ↔ (((empty || safe) ≡ true) × (writes ≡ false) × (verb ≡ false))
or_lem empty safe writes verb = (λ h. ground arith, λ h. ground arith)

-- A tool is suggested as allowed just if it is no dispatcher of subcommands; takes no text argument that
-- is run, as a language or as the query of a tool that executes; has no HTTP method but GET, HEAD or
-- OPTIONS; is not declared to write or to destroy; has no word of a write in its name; and is shown to
-- read, by its method, its declaration or a word of its name.
pub suggested_action-classify :
    (t : Tool)
    → (suggested_action (classify (some t)) ≡ allow) ↔ (
        (is_dispatcher t ≡ false)
        × (any (is_run (name_tokens t)) t.params ≡ false)
        × ((is_empty t.method || is_safe_method t.method) ≡ true)
        × (declares_write t.annotations ≡ false)
        × (any (is_in write_verbs) (name_tokens t) ≡ false)
        × ((is_safe_method t.method
              || declares_read t.annotations
              || any (is_in read_verbs) (name_tokens t))
            ≡ true))
suggested_action-classify t =
    let tokens = name_tokens t in
    let (writes, reads) = access_lem t in
    let split = append-nil_iff (dispatch_signals t) (family_signals tokens t.params) in
    let quiet =
      or_lem (is_empty t.method) (is_safe_method t.method) (declares_write t.annotations)
        (any (is_in write_verbs) tokens) in
    let words_read = any_without (is_in write_verbs) (is_in read_verbs) tokens in
    let shown = λ (b : Bool). (is_safe_method t.method || declares_read t.annotations || b) in
    (
      λ h.
          let (none_generic, no_write, some_read) = (by_classify t).0 h in
          let (no_dispatch, no_run) = split.0 none_generic in
          let (safe, undeclared, unnamed) = quiet.0 (sym writes ∙ no_write) in
          (
            (dispatch_iff t).0 no_dispatch,
            (family_signals_iff tokens t.params).0 no_run,
            safe,
            undeclared,
            unnamed,
            ap shown (sym (words_read unnamed)) ∙ sym reads ∙ some_read,
          ),
      λ (no_dispatch, no_run, safe, undeclared, unnamed, shows). (by_classify t).1 (
        split.1 ((dispatch_iff t).1 no_dispatch, (family_signals_iff tokens t.params).1 no_run),
        writes ∙ quiet.1 (safe, undeclared, unnamed),
        reads ∙ ap shown (words_read unnamed) ∙ shows,
      ),
    )
