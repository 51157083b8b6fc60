-- ===== src/Coordinator/State/Maps.antt =====
-- The slot maps of the coordinator: sizes and lookups.
use ypi.Prelude.{
  ℕ, suc, ◌≤◌, ◌≡◌, refl, sym, subst, inl, inr, true, false, none, some, List, [], ◌∷◌, ◌++◌, Text,
  text_eq, text_eq_refl, eq_of_text_eq, length, Bool-cases, arith,
}
use ypi.Coordinator.Protocol.{Response}
use ypi.Coordinator.State.{Slots, respond, is_destroyed, Slot, get, has, delete, put}

pub length-delete-le : (t : Text) (ss : List Slot) → length (delete t ss) ≤ length ss
unfolding delete
length-delete-le t [] = omega arith
length-delete-le t (s ∷ ss) = ground (arith, length-delete-le t ss)

-- A lookup that succeeds finds a slot under its own token.
pub get-token : (t : Text) (ss : List Slot) (s : Slot) → get t ss ≡ some s → s.token ≡ t
unfolding get
get-token t [] s e = cc
get-token t (x ∷ ss) s e = elim (Bool-cases (text_eq x.token t)) [
  | inl hit ↦ ground (arith, eq_of_text_eq x.token t hit)
  | inr miss ↦ get-token t ss s (rw miss at e)
]

pub has_of_get : (t : Text) (ss : List Slot) (s : Slot) → get t ss ≡ some s → has t ss ≡ true
unfolding get has
has_of_get t [] s e = cc
has_of_get t (x ∷ ss) s e = ground (arith, has_of_get t ss s)

pub get_of_not_has : (t : Text) (ss : List Slot) → has t ss ≡ false → get t ss ≡ none
unfolding get has
get_of_not_has t [] h = refl
get_of_not_has t (x ∷ ss) h = ground (arith, get_of_not_has t ss)

pub length-put_new :
    (s : Slot) (ss : List Slot) → has s.token ss ≡ false → length (put s ss) ≡ suc (length ss)
unfolding put has
length-put_new s [] h = refl
length-put_new s (x ∷ ss) h = ground (arith, length-put_new s ss)

pub length-put_old :
    (s : Slot) (ss : List Slot) → has s.token ss ≡ true → length (put s ss) ≡ length ss
unfolding put has
length-put_old s [] h = cc
length-put_old s (x ∷ ss) h = ground (arith, length-put_old s ss)

pub get-put_self : (s : Slot) (ss : List Slot) → get s.token (put s ss) ≡ some s
unfolding put get
get-put_self s [] = ground (arith, text_eq_refl s.token)
get-put_self s (x ∷ ss) = ground (arith, text_eq_refl s.token, get-put_self s ss)

pub has-delete_self : (t : Text) (ss : List Slot) → has t (delete t ss) ≡ false
unfolding has delete
has-delete_self t [] = refl
has-delete_self t (x ∷ ss) = ground (arith, has-delete_self t ss)

pub delete_absent : (t : Text) (ss : List Slot) → has t ss ≡ false → delete t ss ≡ ss
unfolding has delete
delete_absent t [] h = refl
delete_absent t (x ∷ ss) h = ground (arith, delete_absent t ss)

-- Taking out a token that was just put in at the end gives the old map back.
pub delete-put :
    (s : Slot) (ss : List Slot) → has s.token ss ≡ false → delete s.token (put s ss) ≡ ss
unfolding has delete put
delete-put s [] h = ground (arith, text_eq_refl s.token)
delete-put s (x ∷ ss) h = ground (arith, delete-put s ss)

pub get-append_last :
    (s : Slot) (ss : List Slot) → has s.token ss ≡ false → get s.token (ss ++ s ∷ []) ≡ some s
unfolding get has
get-append_last s [] h = ground (arith, text_eq_refl s.token)
get-append_last s (x ∷ ss) h = ground (arith, get-append_last s ss)

-- A deletion brings in no token.
pub has-delete_sub : (t u : Text) (ss : List Slot) → has t (delete u ss) ≡ true → has t ss ≡ true
unfolding has delete
has-delete_sub t u [] h = h
has-delete_sub t u (x ∷ ss) h = ground (arith, has-delete_sub t u ss)

module _ (socket : ℕ) (r : Response) (s : Slots) where
  -- An answer changes nothing but the record of what was sent.
  pub respond_fields :
      ((respond socket r s).active ≡ s.active)
      × ((respond socket r s).suspended ≡ s.suspended)
      × ((respond socket r s).queue ≡ s.queue)
      × ((respond socket r s).maximum ≡ s.maximum)
      × ((respond socket r s).grants ≡ s.grants)
      × ((respond socket r s).status ≡ s.status)
  unfolding respond
  respond_fields = elim (Bool-cases (is_destroyed socket s)) [
    | inl gone ↦ simp gone (refl, refl, refl, refl, refl, refl)
    | inr here ↦ simp here (refl, refl, refl, refl, refl, refl)
  ]

-- A token taken out and appended again is found as before.
pub get-delete_restore :
    (t : Text) (ss : List Slot) (old : Slot)
    → get t ss ≡ some old
    → get t (delete t ss ++ old ∷ []) ≡ some old
get-delete_restore t ss old e =
    let same = get-token t ss old e in
    subst (λ u. get u (delete t ss ++ old ∷ []) ≡ some old) same
      (get-append_last old (delete t ss)
        (subst (λ u. has u (delete t ss) ≡ false) (sym same) (has-delete_self t ss)))
