-- ===== src/Files/Steps/Returned.antt =====
-- What holds when steps return.
use ypi.Prelude.{◌≡◌, refl, ap, subst, ◌∙◌, Option, none, some, ◌⊎◌, inl, inr}
use ypi.Files.{Fault, Run, done, failed}
use ypi.Files.Steps.{
  Checked, good, Step, pure, throw, or_else, ◌>>=◌, ◌>>◌, catch, look, taken, call, moved, act,
  look-done, >>=-done,
}

module _ {D : Type 0} where
  -- What a step that returns has established.
  abbrev pub Hoare : {A : Type 0} → (D → Type 0) → Step D A → (A → D → Type 0) → Type 0
  Hoare {A} P m Q = (d : D) (a : A) (d' : D) → P d → m d ≡ done a d' → Q a d'

  -- No condition.
  abbrev pub Any : D → Type 0
  Any d = Unit {0}

  pub bind-Hoare :
      {A B : Type 0} {P : D → Type 0} {M : A → D → Type 0} {Q : B → D → Type 0} (m : Step D A)
      (k : A → Step D B)
      → Hoare P m M
      → ((a : A) → Hoare (M a) (k a) Q)
      → Hoare P (m >>= k) Q
  unfolding ◌>>=◌
  bind-Hoare m k f g d b d' p e =
      let (a, d1, first, second) = >>=-done (m d) k e in g a d1 b d' (f d a d1 p first) second

  -- A first step that matters to nothing behind it.
  pub skip-Hoare :
      {A B : Type 0} {Q : B → D → Type 0} (m : Step D A) (k : A → Step D B)
      → ((a : A) → Hoare Any (k a) Q)
      → Hoare Any (m >>= k) Q
  unfolding ◌>>=◌
  skip-Hoare m k g d b d' p e =
      let (a, d1, first, second) = >>=-done (m d) k e in g a d1 b d' tt second

  pub look-Hoare :
      {A : Type 0} {P : D → Type 0} {Q : A → D → Type 0} (f : D → Checked A)
      → ((d : D) (a : A) → P d → f d ≡ good a → Q a d)
      → Hoare P (look f) Q
  look-Hoare {Q = Q} f h d a d' p e =
      let (g, same) = look-done f d e in subst (Q a) same (h d a p g)

  pub Run-cases :
      {A : Type 0} (r : Run D A)
      → ((a : A) × (d : D) × (r ≡ done a d)) ⊎ ((e : Fault) × (d : D) × (r ≡ failed e d))
  Run-cases (done a d) = inl (a, d, refl)
  Run-cases (failed e d) = inr (e, d, refl)

  pub failed_never_done : {A : Type 0} {e : Fault} {d d' : D} {a : A} → ¬ (failed e d ≡ done a d')
  failed_never_done k = cc (k)

  -- A step that ends with a throw does not return.
  pub never_returns :
      {A : Type 0} (m : Step D (Unit {0})) (e : Fault) (d : D) {a : A} {d' : D}
      → ¬ ((m >> throw e) d ≡ done a d')
  unfolding ◌>>=◌
  never_returns m e d k = let (_, _, _, k1) = >>=-done (m d) (λ _. throw e) k in cc (k1)

  pub catch-Hoare :
      {A : Type 0} {P : D → Type 0} {Q : A → D → Type 0} (m : Step D A) (k : Fault → Step D A)
      → ((e : Fault) (d : D) (a : A) (d' : D) → ¬ (k e d ≡ done a d'))
      → Hoare P m Q
      → Hoare P (catch m k) Q
  unfolding catch
  catch-Hoare {A} {P} {Q} m k never h d a d' p = go (m d) refl
    where
      go : (r : Run D A) → m d ≡ r → or_else r k ≡ done a d' → Q a d'
      go (done x d1) e g = h d a d' p (e ∙ g)
      go (failed x d1) e g = absurd (never x d1 a d' g)

  pub act-Hoare :
      {P : D → Type 0} (Q : Unit {0} → D → Type 0) (f : D → Option D)
      → ((d d' : D) → P d → f d ≡ some d' → Q tt d')
      → Hoare P (act f) Q
  unfolding act
  act-Hoare {P} Q f h d a d' p = go (f d) refl
    where
      go : (o : Option D) → f d ≡ o → moved o d ≡ done a d' → Q a d'
      go none e g = absurd (cc)
      go (some x) e g = subst (Q a) (cc) (h d x p e)

  pub pure-Hoare :
      {A : Type 0} {P : D → Type 0} (Q : A → D → Type 0) (x : A)
      → ((d : D) → P d → Q x d)
      → Hoare P (pure x) Q
  pure-Hoare Q x h d a d' p e =
      let same : x ≡ a = cc (e) in
      let here : d ≡ d' = cc (e) in subst (λ y. Q y d') same (subst (Q x) here (h d p))

  pub call-Hoare :
      {A : Type 0} {P : D → Type 0} {Q : A → D → Type 0} (f : D → Option (A × D))
      → ((d : D) (a : A) (d' : D) → P d → f d ≡ some (a, d') → Q a d')
      → Hoare P (call f) Q
  unfolding call
  call-Hoare {A} {P} {Q} f h d a d' p = go (f d) refl
    where
      go : (o : Option (A × D)) → f d ≡ o → taken o d ≡ done a d' → Q a d'
      go none e g = absurd (cc)
      go (some (x, d1)) e g = h d a d' p (e ∙ ap some (cc))
