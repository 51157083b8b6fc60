-- ===== src/Coordinator/Bound.antt =====
-- The concurrency limit of the tree: no callback of the coordinator raises the number of active
-- slots above the limit that the first slot request bound.
pub mod Events
use ypi.Prelude.{
  ℕ, suc, ◌≤◌, ◌≡◌, refl, ap, ◌∙◌, ◌⊎◌, inl, inr, Bool, true, false, Option, none, some, List, [],
  ◌∷◌, Text, length, length-keep-le, not, ◌&&◌, Bool-cases, Option-cases, arith, ltb, if◌then◌else◌,
}
use ypi.Coordinator.Protocol.{
  Result, ok, err, ◌>>=◌, fault, slot_exists, suspension_unavailable, Request, require_slot_token,
  Response, granted,
}
use ypi.Coordinator.State.{Queued, Grant, Slots, has, respond, destroy}
use ypi.Coordinator.State.Maps.{respond_fields, length-delete-le, length-put_new}
use ypi.Coordinator.Slots.{
  grant, take_slot, grant_slot, serve, drain_loop, drain_at, drain_queue, prune_dead_slots, revoke,
  rollback, new_slot, slot_process_alive, is_active,
}

abbrev pub limit_of : Option ℕ → ℕ
limit_of none = 0
limit_of (some n) = n

-- As many active slots as the bound limit, and none before a limit is bound.
pub record IsBounded (s : Slots) : Type 0 where
  pub within : length s.active ≤ limit_of s.maximum

pub respond-IsBounded :
    (socket : ℕ) (r : Response) (s : Slots) → IsBounded s → IsBounded (respond socket r s)
unfolding respond
respond-IsBounded socket r s b = ground arith

pub destroy-IsBounded : (socket : ℕ) (s : Slots) → IsBounded s → IsBounded (destroy socket s)
unfolding destroy
destroy-IsBounded socket s b = ground arith

new_slot_absent :
    (s : Slots) (request : Request) (resume : Bool) (token : Text)
    → has token s.active ≡ false
    → has (new_slot s.next_serial token request resume).token s.active ≡ false
unfolding new_slot
new_slot_absent s request resume token h = h

-- A grant adds one slot, and keeps the limit.
grant-active :
    (s : Slots) (socket : ℕ) (request : Request) (resume : Bool) (token : Text)
    → has token s.active ≡ false
    → (length (grant s socket request resume token).active ≡ suc (length s.active))
      × ((grant s socket request resume token).maximum ≡ s.maximum)
unfolding grant take_slot
grant-active s socket request resume token h =
    let taken = take_slot s socket request resume token in
    let f = respond_fields socket granted taken in
    (
      ap length f.0
          ∙ length-put_new (new_slot s.next_serial token request resume) s.active
              (new_slot_absent s request resume token h),
      f.3,
    )

-- What a grant that succeeds has checked, and the state that it leaves.
pub grant_slot-inversion :
    (s : Slots) (socket : ℕ) (request : Request) (resume : Bool) (s' : Slots)
    → grant_slot s socket request resume ≡ ok s'
    → (token : Text) × (require_slot_token request ≡ ok token)
      × (has token s.active ≡ false)
      × (resume ≡ true → has token s.suspended ≡ true)
      × (s' ≡ grant s socket request resume token)
unfolding grant_slot
grant_slot-inversion s socket request resume s' e = go (require_slot_token request) refl e
  where
    go :
        (r : Result Text)
        → require_slot_token request ≡ r
        → (r >>= λ token.
            if has token s.active
            then err (fault slot_exists)
            else if resume && not (has token s.suspended)
            then err (fault suspension_unavailable)
            else ok (grant s socket request resume token))
          ≡ ok s'
        → (token : Text) × (require_slot_token request ≡ ok token)
          × (has token s.active ≡ false)
          × (resume ≡ true → has token s.suspended ≡ true)
          × (s' ≡ grant s socket request resume token)
    go (ok token) known e = (token, known, ground arith, (λ r. ground arith), ground arith)
    go (err f) known e = absurd (cc)

pub grant_slot-bounds :
    (s : Slots) (socket : ℕ) (request : Request) (resume : Bool) (s' : Slots)
    → grant_slot s socket request resume ≡ ok s'
    → (length s'.active ≡ suc (length s.active)) × (s'.maximum ≡ s.maximum)
grant_slot-bounds s socket request resume s' e =
    let (token, _, absent, _, same) = grant_slot-inversion s socket request resume s' e in
    rw same (grant-active s socket request resume token absent)

serve-bounds :
    (q : Queued) (s : Slots)
    → (length (serve s q).active ≤ suc (length s.active)) × ((serve s q).maximum ≡ s.maximum)
unfolding serve respond
serve-bounds q s = go (grant_slot s q.socket q.request q.resume) refl
  where
    go :
        (r : Result Slots)
        → grant_slot s q.socket q.request q.resume ≡ r
        → (length (serve s q).active ≤ suc (length s.active)) × ((serve s q).maximum ≡ s.maximum)
    go (ok s') e =
        let b = grant_slot-bounds s q.socket q.request q.resume s' e in
        rw (e, serve) (ground arith, ground arith)
    go (err f) e = rw (e, serve) (ground arith, ground arith)

pub drain_loop-maximum :
    (limit : ℕ) (qs : List Queued) (s : Slots) → (drain_loop limit qs s).maximum ≡ s.maximum
unfolding drain_loop
drain_loop-maximum limit [] s = refl
drain_loop-maximum limit (q ∷ qs) s = elim (Bool-cases (ltb (length s.active) limit)) [
  | inl free ↦ rw free (drain_loop-maximum limit qs (serve s q) ∙ (serve-bounds q s).1)
  | inr full ↦ rw full
]

drain_loop-bounds :
    (limit : ℕ) (qs : List Queued) (s : Slots)
    → length s.active ≤ limit
    → (length (drain_loop limit qs s).active ≤ limit)
      × ((drain_loop limit qs s).maximum ≡ s.maximum)
unfolding drain_loop
drain_loop-bounds limit [] s h = (h, refl)
drain_loop-bounds limit (q ∷ qs) s h = elim (Bool-cases (ltb (length s.active) limit)) [
  | inl free ↦
      let b = serve-bounds q s in
      let ih = drain_loop-bounds limit qs (serve s q) (ground arith) in rw free (ih.0, ih.1 ∙ b.1)
  | inr full ↦ rw full (h, refl)
]

module _ (probe : ℕ → Option Text) where
  prune-bounds :
      (s : Slots)
      → (length (prune_dead_slots probe s).active ≤ length s.active)
        × ((prune_dead_slots probe s).maximum ≡ s.maximum)
  unfolding prune_dead_slots
  prune-bounds s = (length-keep-le (slot_process_alive probe) s.active, refl)

  drain_at-IsBounded :
      (limit : ℕ) (s : Slots)
      → s.maximum ≡ some limit
      → IsBounded s
      → IsBounded (drain_at probe limit s)
  unfolding drain_at
  drain_at-IsBounded limit s bound b =
      let p = prune-bounds s in
      let d =
        drain_loop-bounds limit s.queue (prune_dead_slots probe s)
          (omega (arith, p.0, b.within, ap limit_of bound)) in
      record { within = omega (arith, d.0, ap limit_of (d.1 ∙ p.1 ∙ bound)) }

  pub drain_queue-bound :
      (s : Slots) (limit : ℕ)
      → is_active s.status ≡ true
      → s.maximum ≡ some limit
      → drain_queue probe s ≡ drain_at probe limit s
  unfolding drain_queue
  drain_queue-bound s limit on bound = simp (on, bound)

  -- A drain does nothing, or serves the queue under the limit that is bound.
  pub drain_queue-cases :
      (s : Slots)
      → (drain_queue probe s ≡ s)
        ⊎ ((limit : ℕ) × (is_active s.status ≡ true)
            × (s.maximum ≡ some limit)
            × (drain_queue probe s ≡ drain_at probe limit s))
  unfolding drain_queue
  drain_queue-cases s = elim (Bool-cases (is_active s.status)) [
    | inr off ↦ inl (simp off)
    | inl on ↦ elim (Option-cases s.maximum) [
      | inl unbound ↦ inl (simp (on, unbound))
      | inr (limit, bound) ↦ inr (limit, on, bound, simp (on, bound))
    ]
  ]

  pub drain_queue-IsBounded : (s : Slots) → IsBounded s → IsBounded (drain_queue probe s)
  drain_queue-IsBounded s b = elim (drain_queue-cases s) [
    | inl same ↦ rw same b
    | inr (limit, _, bound, e) ↦ rw e (drain_at-IsBounded limit s bound b)
  ]

  revoke-IsBounded : (g : Grant) (s : Slots) → IsBounded s → IsBounded (revoke g s)
  unfolding revoke
  revoke-IsBounded g s b = ground (arith, b.within, length-delete-le g.token s.active)

  pub rollback-IsBounded : (g : Grant) (s : Slots) → IsBounded s → IsBounded (rollback probe g s)
  unfolding rollback
  rollback-IsBounded g s b =
      ground (arith, drain_queue-IsBounded (revoke g s) (revoke-IsBounded g s b))
