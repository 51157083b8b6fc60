-- ===== src/WriteScope/Confined.antt =====
-- Where the writes go that the gate lets through.
use ypi.Prelude.{
  ◌≡◌, refl, ◌∙◌, sym, subst, ◌⊎◌, inl, inr, Bool, true, false, Option, none, some, List, [], ◌++◌,
  Text, codes, text_eq, eq_of_text_eq, any, if◌then◌else◌, arith, Bool-cases, Option-cases,
}
use mathlib.Core.List.{reverse}
use ypi.Posix.{split, join, absolute_segments, resolve_path, relative}
use ypi.ImplementScope.{git, path_is_within_implement_scope}
use ypi.WriteScope.{
  Decision, denied, allowed, Ignore, not_ignored, writes, Policy, not_audited, is_within,
  is_submodule_path, is_valid_request, nearest_existing_path, canonical_candidate, decide_path,
  resolve_implement_path,
}
use ypi.WriteScope.Below.{within_below}
use ypi.WriteScope.Leads.{LeadsTo, leads_to}
use ypi.WriteScope.Gate.{
  FileCall, proceed, block, apply_policy, check_implement_write_path, on_tool_call, is_writing_tool,
  is_reading_tool, is_implement_tool,
}

-- The two tools that write are among those allowed, and are none of those that read.
is_write_or_edit : (t : Text) → is_writing_tool t ≡ true → (t ≡ codes "write") ⊎ (t ≡ codes "edit")
unfolding is_writing_tool
is_write_or_edit t h = elim (Bool-cases (text_eq t (codes "write"))) [
  | inl e ↦ inl (eq_of_text_eq t (codes "write") e)
  | inr n ↦ inr (eq_of_text_eq t (codes "edit") (ground arith))
]

writing_not_reading :
    (t : Text)
    → is_writing_tool t ≡ true
    → (is_implement_tool t ≡ true) × (is_reading_tool t ≡ false)
unfolding is_implement_tool is_reading_tool text_eq
writing_not_reading t h = elim (is_write_or_edit t h) [
  | inl e ↦
      subst (λ u. (is_implement_tool u ≡ true) × (is_reading_tool u ≡ false)) (sym e) (refl, refl)
  | inr e ↦
      subst (λ u. (is_implement_tool u ≡ true) × (is_reading_tool u ≡ false)) (sym e) (refl, refl)
]

written :
    {audited : Bool} {r record_of : Option Text}
    → (if audited then proceed r else block not_audited) ≡ proceed record_of
    → (audited ≡ true) × (record_of ≡ r)
written {audited = true} h = (refl, ground arith)
written {audited = false} h = absurd (cc)

-- A write that went ahead: what was checked of it.
pub record IsConfined (exists : Text → Bool) (realpath : Text → Option Text)
    (check_ignored : Bool → Text → Ignore) (root cwd : Text) (path : Option Text) (policy : Policy)
    (relative_path : Text) : Type 0 where
  pub real_root : Text
  pub candidate : Text
  pub below : List Text
  pub leads : LeadsTo exists realpath cwd path candidate
  pub root_is_real : realpath root ≡ some real_root
  pub stays_below : absolute_segments candidate ≡ absolute_segments real_root ++ below
  pub relative_below : relative_path ≡ join below
  pub no_metadata : any (text_eq git) (split relative_path) ≡ false
  pub in_scope : path_is_within_implement_scope relative_path policy.scope ≡ true
  pub no_submodule : is_submodule_path relative_path policy.submodule_paths ≡ false
  pub in_baseline : check_ignored true relative_path ≡ not_ignored
  pub in_checkout : check_ignored false relative_path ≡ not_ignored

module _ (exists : Text → Bool) (realpath : Text → Option Text)
    (check_ignored : Bool → Text → Ignore) where
  -- The candidate of an allowed path in the checkout.
  decide_path-allowed :
      (real_root absolute_path candidate : Text) (outside : List Text) (shown relative_path : Text)
      → decide_path exists realpath real_root absolute_path candidate writes outside
        ≡ allowed shown (some relative_path)
      → (is_within real_root candidate ≡ true)
        × (relative real_root candidate ≡ relative_path)
        × (any (text_eq git) (split relative_path) ≡ false)
  unfolding decide_path
  decide_path-allowed real_root absolute_path candidate outside shown relative_path h =
      elim (Bool-cases (is_within real_root candidate)) [
        | inr outer ↦ absurd (ground arith)
        | inl inner ↦ elim (Bool-cases (any (text_eq git) (split (relative real_root candidate)))) [
          | inl hit ↦ absurd (ground arith)
          | inr clean ↦
              let e : relative real_root candidate ≡ relative_path = ground arith in
              (inner, e, subst (λ r. any (text_eq git) (split r) ≡ false) e clean)
        ]
      ]

  -- An allowed write has a path below the real root.
  resolve_implement_path-allowed :
      (root cwd : Text) (requested : Option Text) (shown relative_path : Text)
      → resolve_implement_path exists realpath root cwd requested writes []
        ≡ allowed shown (some relative_path)
      → (real_root candidate : Text) × (realpath root ≡ some real_root)
        × LeadsTo exists realpath cwd requested candidate
        × (is_within real_root candidate ≡ true)
        × (relative real_root candidate ≡ relative_path)
        × (any (text_eq git) (split relative_path) ≡ false)
  unfolding resolve_implement_path
  resolve_implement_path-allowed root cwd none shown relative_path h = absurd (cc)
  resolve_implement_path-allowed root cwd (some requested) shown relative_path h =
      elim (Bool-cases (is_valid_request requested)) [
        | inr bad ↦ absurd (cc (rw (bad, resolve_implement_path) at h))
        | inl good ↦ elim (Option-cases (realpath root)) [
          | inl missing ↦ absurd (cc (rw (good, missing, resolve_implement_path) at h))
          | inr (real_root, at_root) ↦
              elim (Option-cases (
                nearest_existing_path exists realpath
                  (reverse (absolute_segments (resolve_path cwd requested))))) [
                    | inl missing ↦
                        absurd (cc (rw (good, at_root, missing, resolve_implement_path) at h))
                    | inr (existing, near) ↦
                        elim (Option-cases (
                          canonical_candidate exists realpath existing
                            (resolve_path cwd requested))) [
                              | inl missing ↦ absurd (
                                  cc (
                                    rw (good, at_root, near, missing, resolve_implement_path) at h))
                              | inr (candidate, real) ↦
                                  let (inner, shown_path, clean) =
                                    decide_path-allowed real_root (resolve_path cwd requested)
                                      candidate [] shown relative_path
                                      (rw (good, at_root, near, real, resolve_implement_path) at
                                        h) in
                                  (
                                    real_root,
                                    candidate,
                                    at_root,
                                    leads_to exists realpath cwd requested existing candidate near
                                        real,
                                    inner,
                                    shown_path,
                                    clean,
                                  )
                            ]
                  ]
        ]
      ]

  -- No write outside of the checkout is allowed.
  resolve_implement_path-inside :
      (root cwd : Text) (requested : Option Text) (shown : Text)
      → resolve_implement_path exists realpath root cwd requested writes [] ≡ allowed shown none
      → ⊥
  unfolding resolve_implement_path decide_path
  resolve_implement_path-inside root cwd requested shown h = ground arith

  apply_policy-allowed :
      (policy : Policy) (absolute_path shown relative_path : Text) (r : Option Text)
      → apply_policy exists realpath check_ignored policy absolute_path relative_path
        ≡ allowed shown r
      → (r ≡ some relative_path)
        × (path_is_within_implement_scope relative_path policy.scope ≡ true)
        × (is_submodule_path relative_path policy.submodule_paths ≡ false)
        × (check_ignored true relative_path ≡ not_ignored)
        × (check_ignored false relative_path ≡ not_ignored)
  unfolding apply_policy
  apply_policy-allowed policy absolute_path shown relative_path r h = ground arith

  -- What `checkImplementWritePath` allows under a policy.
  check_implement_write_path-IsConfined :
      (root cwd : Text) (requested : Option Text) (policy : Policy) (shown : Text) (r : Option Text)
      → check_implement_write_path exists realpath check_ignored root cwd requested (some policy)
        ≡ allowed shown r
      → (relative_path : Text) × (r ≡ some relative_path)
        × IsConfined exists realpath check_ignored root cwd requested policy relative_path
  unfolding check_implement_write_path
  check_implement_write_path-IsConfined root cwd requested policy shown r h =
      go (resolve_implement_path exists realpath root cwd requested writes []) refl
    where
      go :
          (d : Decision)
          → resolve_implement_path exists realpath root cwd requested writes [] ≡ d
          → (relative_path : Text) × (r ≡ some relative_path)
            × IsConfined exists realpath check_ignored root cwd requested policy relative_path
      go (denied d) e = absurd (cc (rw (e, check_implement_write_path) at h))
      go (allowed path none) e = absurd (resolve_implement_path-inside root cwd requested path e)
      go (allowed path (some rel)) e =
          let (real_root, candidate, at_root, leads, inner, shown_path, clean) =
            resolve_implement_path-allowed root cwd requested path rel e in
          let (same, scoped, own, baseline, checkout) =
            apply_policy-allowed policy path shown rel r
              (rw (e, check_implement_write_path) at h) in
          let (below, segments, printed) = within_below real_root candidate inner in
          (
            rel,
            same,
            record {
              real_root = real_root;
              candidate = candidate;
              below = below;
              leads = leads;
              root_is_real = at_root;
              stays_below = segments;
              relative_below = sym shown_path ∙ printed;
              no_metadata = clean;
              in_scope = scoped;
              no_submodule = own;
              in_baseline = baseline;
              in_checkout = checkout;
            },
          )

  -- A write or an edit that the gate lets through leads, links followed where their target exists,
  -- below the real root of the checkout, to a path
  -- of the declared scope that is no Git metadata, in no submodule and ignored by neither set of
  -- ignore files, and exactly this path is recorded in the audit file.
  pub on_tool_call-IsConfined :
      (root cwd : Text) (policy : Option Policy) (audited : Bool) (call : FileCall)
      (record_of : Option Text)
      → is_writing_tool call.tool ≡ true
      → on_tool_call exists realpath check_ignored root cwd policy audited call ≡ proceed record_of
      → (p : Policy) × (relative_path : Text) × (policy ≡ some p)
        × (audited ≡ true)
        × (record_of ≡ some relative_path)
        × IsConfined exists realpath check_ignored root cwd call.path p relative_path
  unfolding on_tool_call
  on_tool_call-IsConfined root cwd none audited call record_of w h = absurd (ground arith)
  on_tool_call-IsConfined root cwd (some p) audited call record_of w h =
      let tool = writing_not_reading call.tool w in
      go tool.0 tool.1
        (check_implement_write_path exists realpath check_ignored root cwd call.path (some p)) refl
    where
      go :
          is_implement_tool call.tool ≡ true
          → is_reading_tool call.tool ≡ false
          → (d : Decision)
          → check_implement_write_path exists realpath check_ignored root cwd call.path (some p) ≡ d
          → (q : Policy) × (relative_path : Text) × (some p ≡ some q)
            × (audited ≡ true)
            × (record_of ≡ some relative_path)
            × IsConfined exists realpath check_ignored root cwd call.path q relative_path
      go w_tool w_other (denied d) e = absurd (cc (rw (w_tool, w_other, w, e, on_tool_call) at h))
      go w_tool w_other (allowed path r) e =
          let (rel, same, confined) =
            check_implement_write_path-IsConfined root cwd call.path p path r e in
          let recorded : (audited ≡ true) × (record_of ≡ r) =
            written (rw (w_tool, w_other, w, e, on_tool_call) at h) in
          (p, rel, refl, recorded.0, recorded.1 ∙ same, confined)
