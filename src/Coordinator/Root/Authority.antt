-- ===== src/Coordinator/Root/Authority.antt =====
-- At most one generation has authority.
use ypi.Prelude.{
  ℕ, ◌≡◌, refl, ap, ◌∙◌, sym, subst, inl, inr, Bool, true, false, Option, none, some, List, [], ◌∷◌,
  Text, All, ◌&&◌, not, arith, Bool-cases,
}
use ypi.Coordinator.State.{Status, starting, active, terminal, Slots, Queued, respond}
use ypi.Coordinator.Handler.{Coordinator}
use ypi.Coordinator.Generation.{mark_terminal, is_terminal, refuse_all}
use ypi.Coordinator.Protocol.{Response}
use ypi.Coordinator.Root.{
  Root, Chance, RootResult, done, failed, start_generation, retire, ensure_root_tree_coordinator,
  begin_root_tree_coordinator, terminate_root_tree_coordinator, has_live, is_root_depth,
  names_current, RootCall, ensures, begins, terminates, root_call, replaced_by, then_start,
  reset_count,
}

-- Every coordinator that was replaced is terminal.
abbrev pub IsSole : Root → Type 0
IsSole r = All (λ (c : Coordinator). c.slots.status ≡ terminal) r.replaced

respond-status : (socket : ℕ) (r : Response) (s : Slots) → (respond socket r s).status ≡ s.status
unfolding respond
respond-status socket r s = ground arith

refuse_all-status : (qs : List Queued) (s : Slots) → (refuse_all qs s).status ≡ s.status
unfolding refuse_all
refuse_all-status [] s = refl
refuse_all-status (q ∷ qs) s = refuse_all-status qs _ ∙ respond-status q.socket _ s

is_terminal-eq : (s : Status) → is_terminal s ≡ true → s ≡ terminal
is_terminal-eq starting h = absurd (cc)
is_terminal-eq active h = absurd (cc)
is_terminal-eq terminal h = refl

-- Whatever a root operation does next with it, the coordinator may be replaced.
abbrev Retired : Root → Type 0
Retired r = has_live r.local_coordinator ≡ false

module _ (probe : ℕ → Option Text) (self : ℕ) where
  mark_terminal-status :
      (written : Bool) (s : Slots) → (mark_terminal probe self written s).0.status ≡ terminal
  unfolding mark_terminal
  mark_terminal-status written s = elim (Bool-cases (is_terminal s.status)) [
    | inl over ↦ rw over (is_terminal-eq s.status over)
    | inr live ↦ elim (Bool-cases written) [
      | inl kept ↦ rw (live, kept) (refuse_all-status s.queue (record s { status = terminal }))
      | inr lost ↦ rw (live, lost) refl
    ]
  ]

  start_generation-IsSole :
      (chance : Chance) (r : Root)
      → Retired r
      → IsSole r
      → IsSole (start_generation probe self chance r).0
  unfolding start_generation
  start_generation-IsSole chance r dead h = elim (Bool-cases chance.starts) [
    | inr refused ↦ rw (refused, start_generation) h
    | inl started ↦ rw (started, start_generation) (go r.local_coordinator dead)
  ]
    where
      go :
          (c : Option Coordinator)
          → has_live c ≡ false
          → All (λ (d : Coordinator). d.slots.status ≡ terminal) (replaced_by c r.replaced)
      go none e = h
      go (some c) e = (is_terminal-eq c.slots.status (ground arith), h)

  retire-Retired : (written : Bool) (r : Root) → Retired (retire probe self written r).0
  unfolding retire
  retire-Retired written r = go r.local_coordinator refl
    where
      go :
          (c : Option Coordinator)
          → r.local_coordinator ≡ c
          → Retired (retire probe self written r).0
      go none e = rw (e, retire) (ap has_live e)
      go (some c) e = elim (Bool-cases (is_terminal c.slots.status)) [
        | inl over ↦ rw (e, over, retire) (ap has_live e ∙ ap not over)
        | inr live ↦
            rw (e, live, retire)
              (ap (λ s. not (is_terminal s)) (mark_terminal-status written c.slots))
      ]

  retire-replaced :
      (written : Bool) (r : Root) → (retire probe self written r).0.replaced ≡ r.replaced
  unfolding retire
  retire-replaced written r = go r.local_coordinator refl
    where
      go :
          (c : Option Coordinator)
          → r.local_coordinator ≡ c
          → (retire probe self written r).0.replaced ≡ r.replaced
      go none e = rw (e, retire) refl
      go (some c) e = elim (Bool-cases (is_terminal c.slots.status)) [
        | inl over ↦ rw (e, over, retire) refl
        | inr live ↦ rw (e, live, retire) refl
      ]

  retire-IsSole : (written : Bool) (r : Root) → IsSole r → IsSole (retire probe self written r).0
  retire-IsSole written r h =
      subst (All (λ (c : Coordinator). c.slots.status ≡ terminal)) (sym (retire-replaced written r))
        h

  then_start-IsSole :
      (chance : Chance) (f : Root → Root) (out : Root × RootResult)
      → (f out.0).replaced ≡ out.0.replaced
      → (f out.0).local_coordinator ≡ out.0.local_coordinator
      → Retired out.0
      → IsSole out.0
      → IsSole (then_start probe self chance f out).0
  then_start-IsSole chance f (r, done) same alike dead h =
      start_generation-IsSole chance (f r) (ap has_live alike ∙ dead)
        (subst (All (λ (c : Coordinator). c.slots.status ≡ terminal)) (sym same) h)
  then_start-IsSole chance f (r, failed) same alike dead h = h

  -- Whatever the root begins, ensures or ends, and whether the system lets it or not: every
  -- coordinator that it has replaced is terminal, so at most the newest one has authority.
  pub root_call-IsSole :
      (call : RootCall) (r : Root) → IsSole r → IsSole (root_call probe self call r).0
  unfolding root_call ensure_root_tree_coordinator begin_root_tree_coordinator
      terminate_root_tree_coordinator
  root_call-IsSole (terminates written) r h = retire-IsSole written r h
  root_call-IsSole (begins chance) r h = elim (Bool-cases (is_root_depth r.depth)) [
    | inr deeper ↦ rw (deeper, root_call, begin_root_tree_coordinator) h
    | inl top ↦
        rw (top, root_call, begin_root_tree_coordinator)
          (then_start-IsSole chance (reset_count probe self) (retire probe self chance.written r)
            (ground arith) (ground arith) (retire-Retired chance.written r)
            (retire-IsSole chance.written r h))
  ]
  root_call-IsSole (ensures chance) r h = elim (Bool-cases (is_root_depth r.depth)) [
    | inr deeper ↦ rw (deeper, root_call, ensure_root_tree_coordinator) h
    | inl top ↦
        elim (Bool-cases
          (has_live r.local_coordinator && names_current r.tree_generation r.local_coordinator)) [
            | inl current ↦ rw (top, current, root_call, ensure_root_tree_coordinator) h
            | inr stale ↦
                rw (top, stale, root_call, ensure_root_tree_coordinator)
                  (then_start-IsSole chance (λ q. q) (retire probe self chance.written r) refl refl
                    (retire-Retired chance.written r) (retire-IsSole chance.written r h))
          ]
  ]
