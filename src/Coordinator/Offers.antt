-- ===== src/Coordinator/Offers.antt =====
-- Offered slots: what a grant that its client does not confirm leaves behind.
use ypi.Prelude.{
  ℕ, ◌≡◌, refl, ap, subst, inl, inr, Option-cases, ◌∙◌, Bool, true, false, none, some, List, ◌∷◌,
  Text, ==_iff, if◌then◌else◌,
}
use ypi.Coordinator.Protocol.{Request, granted}
use ypi.Coordinator.State.{Slot, Slots, Grant, get, has, delete, put}
use ypi.Coordinator.State.Maps.{
  respond_fields, get-delete_restore, get-put_self, delete-put, has-delete_self, get_of_not_has,
}
use ypi.Coordinator.Slots.{grant, take_slot, revoke, new_slot}

-- The closure that a grant installs.
abbrev offer : Slots → ℕ → Bool → Text → Grant
offer s socket resume token = record {
  socket = socket;
  token = token;
  serial = s.next_serial;
  suspended = if resume then get token s.suspended else none;
  acknowledged = false;
  timer = true;
}

-- The grant is open under the offer until its connection closes.
grants-grant :
    (s : Slots) (socket : ℕ) (r : Request) (resume : Bool) (token : Text)
    → (grant s socket r resume token).grants ≡ offer s socket resume token ∷ s.grants
unfolding grant take_slot
grants-grant s socket r resume token =
    (respond_fields socket granted (take_slot s socket r resume token)).4

revoke-active :
    (g : Grant) (t : Slots) (x : Slot)
    → get g.token t.active ≡ some x
    → x.serial ≡ g.serial
    → (revoke g t).active ≡ delete g.token t.active
unfolding revoke
revoke-active g t x found same = rw (found, revoke, (==_iff x.serial g.serial).1 same)

module _ (s : Slots) (socket : ℕ) (r : Request) (token : Text) where
  revoked-active :
      (resume : Bool) (t : Slots)
      → has token s.active ≡ false
      → t.active ≡ put (new_slot s.next_serial token r resume) s.active
      → (revoke (offer s socket resume token) t).active ≡ s.active
  unfolding new_slot
  revoked-active resume t absent e =
      let made = new_slot s.next_serial token r resume in
      revoke-active (offer s socket resume token) t made
        (ap (get token) e ∙ get-put_self made s.active) refl
      ∙ ap (delete token) e
      ∙ delete-put made s.active absent

  revoked-suspended :
      (resume : Bool) (t : Slots)
      → t.suspended ≡ (if resume then delete token s.suspended else s.suspended)
      → get token (revoke (offer s socket resume token) t).suspended ≡ get token s.suspended
  unfolding revoke
  revoked-suspended false t e = ap (get token) e
  revoked-suspended true t e = elim (Option-cases (get token s.suspended)) [
    | inl missing ↦ rw (missing, e) (get_of_not_has token _ (has-delete_self token s.suspended))
    | inr (old, found) ↦
        rw (found, e, has-delete_self token s.suspended)
          (get-delete_restore token s.suspended old found)
  ]

  restored :
      (resume : Bool)
      → has token s.active ≡ false
      → ((revoke (offer s socket resume token) (grant s socket r resume token)).active ≡ s.active)
        × (get token
              (revoke (offer s socket resume token) (grant s socket r resume token)).suspended
            ≡ get token s.suspended)
  unfolding grant take_slot
  restored resume absent =
      let f = respond_fields socket granted (take_slot s socket r resume token) in
      (
        revoked-active resume (grant s socket r resume token) absent f.0,
        revoked-suspended resume (grant s socket r resume token) f.1,
      )

  -- When the token has no active slot, taking back the grant that a grant has opened in the state
  -- leaves the active slots exactly as they were, and the token with the suspension that it had,
  -- whether the grant was a first one or a resumption.
  pub revoke-grant :
      (resume : Bool) (g : Grant) (gs : List Grant)
      → has token s.active ≡ false
      → (grant s socket r resume token).grants ≡ g ∷ gs
      → ((revoke g (grant s socket r resume token)).active ≡ s.active)
        × (get token (revoke g (grant s socket r resume token)).suspended ≡ get token s.suspended)
  revoke-grant resume g gs absent opened =
      let same : offer s socket resume token ≡ g =
        cc (grants-grant s socket r resume token, opened) in
      subst
        (λ x.
          ((revoke x (grant s socket r resume token)).active ≡ s.active)
          × (get token (revoke x (grant s socket r resume token)).suspended
              ≡ get token s.suspended))
        same (restored resume absent)
