-- ===== src/Files/Steps.antt =====
-- Steps on a disk that may throw.
pub mod Carried
pub mod Returned
use ypi.Prelude.{◌≡◌, refl, Bool, true, false, Option, none, some, ◌⊎◌, inl, inr, Option-cases}
use ypi.Files.{Fault, Run, done, failed}

-- A result or a fault of code that only looks at the disk.
pub data Checked (A : Type 0) : Type 0 where
  good : A → Checked A
  bad : Fault → Checked A

infixl 5 ◌>>?◌
abbrev pub ◌>>?◌ : {A B : Type 0} → Checked A → (A → Checked B) → Checked B
good a >>? f = f a
bad e >>? f = bad e

abbrev pub check : Bool → Fault → Checked (Unit {0})
check true e = good tt
check false e = bad e

abbrev pub found_or : {A : Type 0} → Option A → Fault → Checked A
found_or none e = bad e
found_or (some a) e = good a

pub Checked-cases :
    {A : Type 0} (c : Checked A) → ((a : A) × (c ≡ good a)) ⊎ ((e : Fault) × (c ≡ bad e))
Checked-cases (good a) = inl (a, refl)
Checked-cases (bad e) = inr (e, refl)

pub check-good : (b : Bool) (e : Fault) {u : Unit {0}} → check b e ≡ good u → b ≡ true
check-good true e h = refl
check-good false e h = absurd (cc)

pub found_or-good :
    {A : Type 0} (o : Option A) (e : Fault) {a : A} → found_or o e ≡ good a → o ≡ some a
found_or-good none e h = absurd (cc)
found_or-good (some x) e h = cc

pub >>?-good :
    {A B : Type 0} (m : Checked A) (f : A → Checked B) {b : B}
    → (m >>? f) ≡ good b
    → (a : A) × (m ≡ good a) × (f a ≡ good b)
>>?-good (good a) f h = (a, refl, h)
>>?-good (bad e) f h = absurd (cc)

abbrev pub Step : Type 0 → Type 0 → Type 0
Step D A = D → Run D A

pub check_then :
    {B : Type 0} (b : Bool) (e : Fault) (m : Checked B) {x : B}
    → (check b e >>? λ _. m) ≡ good x
    → (b ≡ true) × (m ≡ good x)
check_then true e m h = (refl, h)
check_then false e m h = absurd (cc)

module _ {D : Type 0} where
  abbrev pub pure : {A : Type 0} → A → Step D A
  pure = done

  abbrev pub throw : {A : Type 0} → Fault → Step D A
  throw = failed

  abbrev pub and_then : {A B : Type 0} → Run D A → (A → Step D B) → Run D B
  and_then (done a d) k = k a d
  and_then (failed e d) k = failed e d

  abbrev pub or_else : {A : Type 0} → Run D A → (Fault → Step D A) → Run D A
  or_else (done a d) k = done a d
  or_else (failed e d) k = k e d

  infixl 5 ◌>>=◌ ◌>>◌
  unfoldable pub ◌>>=◌ : {A B : Type 0} → Step D A → (A → Step D B) → Step D B
  m >>= k = λ d. and_then (m d) k

  abbrev pub ◌>>◌ : {B : Type 0} → Step D (Unit {0}) → Step D B → Step D B
  m >> n = m >>= λ _. n

  -- `try { ... } catch (error) { ... }`.
  unfoldable pub catch : {A : Type 0} → Step D A → (Fault → Step D A) → Step D A
  catch m k = λ d. or_else (m d) k

  abbrev pub settle : {A : Type 0} → Checked A → Step D A
  settle (good a) = done a
  settle (bad e) = failed e

  -- Code that only looks.
  unfoldable pub look : {A : Type 0} → (D → Checked A) → Step D A
  look f = λ d. settle (f d) d

  abbrev pub taken : {A : Type 0} → Option (A × D) → Step D A
  taken none = failed Fault.system
  taken (some (a, d')) = λ _. done a d'

  -- A call that happens, or throws and leaves the disk as it was.
  unfoldable pub call : {A : Type 0} → (D → Option (A × D)) → Step D A
  call f = λ d. taken (f d) d

  abbrev pub moved : Option D → Step D (Unit {0})
  moved none = failed Fault.system
  moved (some d') = λ _. done tt d'

  unfoldable pub act : (D → Option D) → Step D (Unit {0})
  act f = λ d. moved (f d) d

  pub look-done :
      {A : Type 0} (f : D → Checked A) (d : D) {a : A} {d' : D}
      → look f d ≡ done a d'
      → (f d ≡ good a) × (d ≡ d')
  unfolding look
  look-done {A} f d {a} {d'} h = go (f d) refl h
    where
      go : (c : Checked A) → f d ≡ c → settle c d ≡ done a d' → (f d ≡ good a) × (d ≡ d')
      go (good x) e k = (cc, cc)
      go (bad x) e k = absurd (cc)

  pub >>=-done :
      {A B : Type 0} (m : Run D A) (k : A → Step D B) {b : B} {d' : D}
      → and_then m k ≡ done b d'
      → (a : A) × (d : D) × (m ≡ done a d) × (k a d ≡ done b d')
  >>=-done (done a d) k h = (a, d, refl, h)
  >>=-done (failed e d) k h = absurd (cc)

  -- A step that begins with a look at the disk.
  pub look_then :
      {A B : Type 0} (X : Run D B → Type 0) (f : D → Checked A) (k : A → Step D B) (d : D)
      → ((e : Fault) → f d ≡ bad e → X (failed e d))
      → ((a : A) → f d ≡ good a → X (k a d))
      → X ((look f >>= k) d)
  unfolding ◌>>=◌ look
  look_then X f k d b g = elim (Checked-cases (f d)) [
    | inl (a, e) ↦ rw e (g a e)
    | inr (x, e) ↦ rw e (b x e)
  ]

  -- A step that begins with a call.
  pub call_then :
      {A B : Type 0} (X : Run D B → Type 0) (f : D → Option (A × D)) (k : A → Step D B) (d : D)
      → (f d ≡ none → X (failed Fault.system d))
      → ((a : A) (d' : D) → f d ≡ some (a, d') → X (k a d'))
      → X ((call f >>= k) d)
  unfolding ◌>>=◌ call
  call_then X f k d b g = elim (Option-cases (f d)) [
    | inl e ↦ rw e (b e)
    | inr ((a, d'), e) ↦ rw e (g a d' e)
  ]

  -- How a step and what follows it may end.
  pub bind_then :
      {A B : Type 0} (X : Run D B → Type 0) (m : Step D A) (k : A → Step D B) (d : D)
      → ((e : Fault) (d' : D) → m d ≡ failed e d' → X (failed e d'))
      → ((a : A) (d' : D) → m d ≡ done a d' → X (k a d'))
      → X ((m >>= k) d)
  unfolding ◌>>=◌
  bind_then {A} {B} X m k d b g = go (m d) refl
    where
      go : (r : Run D A) → m d ≡ r → X (and_then r k)
      go (done a d') e = g a d' e
      go (failed e d') k = b e d' k
