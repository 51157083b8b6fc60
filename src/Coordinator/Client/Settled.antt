-- ===== src/Coordinator/Client/Settled.antt =====
-- How a request to the coordinator ends.
use ypi.Prelude.{
  ℕ, ◌≡◌, refl, subst, inl, inr, true, Option, none, some, List, [], ◌∷◌, ◌++◌, Text, arith,
  Bool-cases, Option-cases, ltb,
}
use ypi.Coordinator.Protocol.{Operation}
use ypi.Coordinator.Client.{
  ClientError, Reply, Phase, grant, confirmed, no_phase, Settlement, resolved, rejected, Client,
  initial_client, finish, on_reply, takes_slot, answer_too_long, answer_invalid, refused, cancelled,
  expired, unreachable, closed_early,
}
use ypi.Coordinator.Client.Waiting.{
  lines, is_open, max_protocol_bytes, on_line, on_lines, on_data, ClientEvent, data_arrives, aborts,
  times_out, fails, closes, client_step, client_steps,
}

-- A settlement that is there stays.
abbrev pub Keeps : Client → Client → Type 0
Keeps c d = (s : Settlement) → c.settled ≡ some s → d.settled ≡ some s

-- A request for a slot is resolved only by an answer that confirms it.
abbrev pub IsConfirmed : Client → Type 0
IsConfirmed c = (r : Reply) → c.settled ≡ some (resolved r) → r.phase ≡ confirmed

finish-Keeps : (s : Settlement) (c : Client) → Keeps c (finish s c)
unfolding finish
finish-Keeps s c t e = rw (e, finish) e

finish-IsConfirmed :
    (e : ClientError) (c : Client) → IsConfirmed c → IsConfirmed (finish (rejected e) c)
unfolding finish
finish-IsConfirmed e c h r = go c.settled refl
  where
    go :
        (s : Option Settlement)
        → c.settled ≡ s
        → (finish (rejected e) c).settled ≡ some (resolved r)
        → r.phase ≡ confirmed
    go none k q = absurd (cc (rw (k, finish) at q))
    go (some s) k q = h r (rw (k, finish) at q)

finish-resolved-IsConfirmed :
    (r : Reply) (c : Client)
    → r.phase ≡ confirmed
    → IsConfirmed c
    → IsConfirmed (finish (resolved r) c)
unfolding finish
finish-resolved-IsConfirmed r c p h q = go c.settled refl
  where
    go :
        (s : Option Settlement)
        → c.settled ≡ s
        → (finish (resolved r) c).settled ≡ some (resolved q)
        → q.phase ≡ confirmed
    go none k e =
        let same : r ≡ q = ground (arith, rw (k, finish) at e) in
        subst (λ (x : Reply). x.phase ≡ confirmed) same p
    go (some s) k e = h q (rw (k, finish) at e)

module _ (operation : Operation) (t : takes_slot operation ≡ true) where
  on_reply-IsConfirmed :
      (r : Reply) (c : Client) → IsConfirmed c → IsConfirmed (on_reply operation r c)
  unfolding on_reply
  on_reply-IsConfirmed r c h = elim (Bool-cases r.well_formed) [
    | inr bad ↦ rw (bad, on_reply) (finish-IsConfirmed answer_invalid c h)
    | inl good ↦ elim (Bool-cases r.accepted) [
      | inr no_slot ↦ rw (good, no_slot, on_reply) (finish-IsConfirmed (refused r.exit_code) c h)
      | inl accepted ↦ go r.phase refl good accepted
    ]
  ]
    where
      go :
          (p : Phase)
          → r.phase ≡ p
          → r.well_formed ≡ true
          → r.accepted ≡ true
          → IsConfirmed (on_reply operation r c)
      go grant e good accepted = rw (good, accepted, t, e, on_reply) h
      go confirmed e good accepted =
          rw (good, accepted, t, e, on_reply) (finish-resolved-IsConfirmed r c e h)
      go no_phase e good accepted =
          rw (good, accepted, t, e, on_reply) (finish-IsConfirmed answer_invalid c h)

module _ (parse : Text → Option Reply) (byte_length : Text → ℕ) (operation : Operation) where
  on_lines_settled :
      (ls : List Text) (c : Client) (s : Settlement)
      → c.settled ≡ some s
      → on_lines parse byte_length operation ls c ≡ c
  unfolding on_lines
  on_lines_settled [] c s e = refl
  on_lines_settled (l ∷ ls) c s e = rw (e, on_lines) refl

  client_step-Keeps :
      (e : ClientEvent) (c : Client) → Keeps c (client_step parse byte_length operation e c)
  unfolding client_step on_data
  client_step-Keeps (data_arrives chunk) c s e =
      elim (Bool-cases (ltb max_protocol_bytes (byte_length (c.input ++ chunk)))) [
        | inl long ↦
            rw (long, client_step, on_data)
              (finish-Keeps (rejected answer_too_long) (record c { input = c.input ++ chunk }) s e)
        | inr fits ↦
            rw
              (
                fits,
                client_step,
                on_data,
                on_lines_settled (lines (c.input ++ chunk)).0
                    (record c { input = (lines (c.input ++ chunk)).1 }) s e,
              )
              e
      ]
  client_step-Keeps aborts c s e = finish-Keeps (rejected cancelled) c s e
  client_step-Keeps times_out c s e = finish-Keeps (rejected expired) c s e
  client_step-Keeps fails c s e = finish-Keeps (rejected unreachable) c s e
  client_step-Keeps closes c s e = finish-Keeps (rejected closed_early) c s e

  -- A request is settled once: whatever arrives or happens afterwards, its outcome stays.
  pub client_steps-Keeps :
      (es : List ClientEvent) (c : Client) → Keeps c (client_steps parse byte_length operation es c)
  unfolding client_steps
  client_steps-Keeps [] c s e = e
  client_steps-Keeps (v ∷ es) c s e =
      client_steps-Keeps es (client_step parse byte_length operation v c) s
        (client_step-Keeps v c s e)

module _ (parse : Text → Option Reply) (byte_length : Text → ℕ) (operation : Operation)
    (t : takes_slot operation ≡ true) where
  on_line-IsConfirmed :
      (l : Text) (c : Client)
      → IsConfirmed c
      → IsConfirmed (on_line parse byte_length operation l c)
  unfolding on_line
  on_line-IsConfirmed l c h = elim (Option-cases (parse l)) [
    | inl garbled ↦ rw (garbled, on_line) (finish-IsConfirmed answer_invalid c h)
    | inr (r, e) ↦ rw (e, on_line) (on_reply-IsConfirmed operation t r c h)
  ]

  on_lines-IsConfirmed :
      (ls : List Text) (c : Client)
      → IsConfirmed c
      → IsConfirmed (on_lines parse byte_length operation ls c)
  unfolding on_lines
  on_lines-IsConfirmed [] c h = h
  on_lines-IsConfirmed (l ∷ ls) c h = elim (Bool-cases (is_open c)) [
    | inl waiting ↦ rw (waiting, on_lines) (on_lines-IsConfirmed ls _ (on_line-IsConfirmed l c h))
    | inr over ↦ rw (over, on_lines) h
  ]

  client_step-IsConfirmed :
      (e : ClientEvent) (c : Client)
      → IsConfirmed c
      → IsConfirmed (client_step parse byte_length operation e c)
  unfolding client_step on_data
  client_step-IsConfirmed (data_arrives chunk) c h =
      elim (Bool-cases (ltb max_protocol_bytes (byte_length (c.input ++ chunk)))) [
        | inl long ↦
            rw (long, client_step, on_data)
              (finish-IsConfirmed answer_too_long (record c { input = c.input ++ chunk }) h)
        | inr fits ↦
            rw (fits, client_step, on_data)
              (on_lines-IsConfirmed (lines (c.input ++ chunk)).0
                (record c { input = (lines (c.input ++ chunk)).1 }) h)
      ]
  client_step-IsConfirmed aborts c h = finish-IsConfirmed cancelled c h
  client_step-IsConfirmed times_out c h = finish-IsConfirmed expired c h
  client_step-IsConfirmed fails c h = finish-IsConfirmed unreachable c h
  client_step-IsConfirmed closes c h = finish-IsConfirmed closed_early c h

  client_steps_lem :
      (es : List ClientEvent) (c : Client)
      → IsConfirmed c
      → IsConfirmed (client_steps parse byte_length operation es c)
  unfolding client_steps
  client_steps_lem [] c h = h
  client_steps_lem (e ∷ es) c h =
      client_steps_lem es (client_step parse byte_length operation e c)
        (client_step-IsConfirmed e c h)

  -- A request to acquire or resume a slot never ends well on the offer alone, or on any other answer
  -- than the one that confirms it, however the answers are split into chunks.
  pub client_steps-IsConfirmed :
      (es : List ClientEvent)
      → IsConfirmed (client_steps parse byte_length operation es initial_client)
  unfolding initial_client
  client_steps-IsConfirmed es = client_steps_lem es initial_client (λ r e. absurd (cc))
