-- ===== src/Coordinator/Fairness.antt =====
-- Who gets a free slot: the queue of waiting requests against the limit.
use ypi.Prelude.{
  ℕ, ◌≤◌, ◌≡◌, refl, ap, ◌∙◌, ◌⊎◌, inl, inr, true, Option, some, List, [], ◌∷◌, ◌++◌, Text, length,
  ltb, any, map, ◌==◌, if◌then◌else◌, Bool-cases, arith,
}
use ypi.Coordinator.Protocol.{Response, Result-cases}
use ypi.Coordinator.State.{Slots, Queued, respond, is_destroyed}
use ypi.Coordinator.Slots.{
  grant, take_slot, grant_slot, serve, drain_loop, drain_at, drain_queue, prune_dead_slots,
  is_active,
}
use ypi.Coordinator.Bound.{drain_queue-bound, grant_slot-inversion}

-- The connections of the answers written so far, the newest first.
abbrev pub answered : Slots → List ℕ
answered s = map (λ (a : ℕ × Response). a.0) s.sent

-- One more answer to each of some requests whose connection is open, in their order.
unfoldable pub answers_to : List ℕ → List Queued → List ℕ → List ℕ
answers_to destroyed [] sockets = sockets
answers_to destroyed (q ∷ qs) sockets =
    answers_to destroyed qs
      (if any (λ n. n == q.socket) destroyed then sockets else q.socket ∷ sockets)

serve-answers :
    (s : Slots) (q : Queued)
    → (answered (serve s q)
        ≡ (if any (λ n. n == q.socket) s.destroyed then answered s else q.socket ∷ answered s))
      × ((serve s q).destroyed ≡ s.destroyed)
unfolding serve respond is_destroyed grant take_slot
serve-answers s q = elim (Bool-cases (any (λ n. n == q.socket) s.destroyed)) [
  | inl gone ↦ rw (gone, serve) (refl, refl)
  | inr here ↦ elim (Result-cases (grant_slot s q.socket q.request q.resume)) [
    | inl (s', e) ↦
        let (token, _, _, _, same) = grant_slot-inversion s q.socket q.request q.resume s' e in
        rw (e, same, serve, here) (refl, refl)
    | inr (f, e) ↦ rw (e, serve, here) (refl, refl)
  ]
]

drain_loop-answers :
    (limit : ℕ) (qs : List Queued) (s : Slots)
    → (served : List Queued) × (qs ≡ served ++ (drain_loop limit qs s).queue)
      × (answered (drain_loop limit qs s) ≡ answers_to s.destroyed served (answered s))
      × (((drain_loop limit qs s).queue ≡ []) ⊎ (limit ≤ length (drain_loop limit qs s).active))
unfolding drain_loop answers_to
drain_loop-answers limit [] s = ([], refl, refl, inl refl)
drain_loop-answers limit (q ∷ qs) s = elim (Bool-cases (ltb (length s.active) limit)) [
  | inl free ↦
      let (served, split, answers, over) = drain_loop-answers limit qs (serve s q) in
      let (one, same) = serve-answers s q in
      rw (free, drain_loop)
        (
          q ∷ served,
          ap (λ l. q ∷ l) split,
          answers
              ∙ ap (λ d. answers_to d served (answered (serve s q))) same
              ∙ ap (answers_to s.destroyed served) one,
          over,
        )
  | inr full ↦ rw (full, drain_loop) ([], refl, refl, inr (ground arith))
]

module _ (probe : ℕ → Option Text) where
  -- A drain of an active authority under a bound limit takes a front part of the queue, writes one
  -- answer for each request of it whose connection is open, in the order of arrival, and stops
  -- only when nobody waits or as many slots are active as the limit allows.
  pub drain_queue-answers :
      (s : Slots) (limit : ℕ)
      → is_active s.status ≡ true
      → s.maximum ≡ some limit
      → (served : List Queued) × (s.queue ≡ served ++ (drain_queue probe s).queue)
        × (answered (drain_queue probe s) ≡ answers_to s.destroyed served (answered s))
        × (((drain_queue probe s).queue ≡ []) ⊎ (limit ≤ length (drain_queue probe s).active))
  unfolding drain_at prune_dead_slots
  drain_queue-answers s limit on bound =
      rw (drain_queue-bound probe s limit on bound)
        (drain_loop-answers limit s.queue (prune_dead_slots probe s))
