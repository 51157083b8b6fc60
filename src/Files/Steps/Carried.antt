-- ===== src/Files/Steps/Carried.antt =====
-- A relation between disks that is carried through steps.
use ypi.Prelude.{◌≡◌, refl, Option, none, some}
use ypi.Files.{Fault, Run, done, failed}
use ypi.Files.Laws.{disk_of}
use ypi.Files.Steps.{
  Checked, good, bad, Step, and_then, or_else, ◌>>=◌, catch, settle, look, taken, call, moved, act,
}

module _ {D : Type 0} where
  -- A relation between the disk before a step and the disk after it, thrown errors included.
  abbrev pub Within : {A : Type 0} → (R : D → D → Type 0) → Step D A → Type 0
  Within R m = (d : D) → R d (disk_of (m d))

  module _ (R : D → D → Type 0) (same : (d : D) → R d d)
      (both : (a b c : D) → R a b → R b c → R a c) where
    pub bind-Within :
        {A B : Type 0} (m : Step D A) (k : A → Step D B)
        → Within R m
        → ((a : A) → Within R (k a))
        → Within R (m >>= k)
    unfolding ◌>>=◌
    bind-Within {A} m k h g d = go (m d) (h d)
      where
        go : (r : Run D A) → R d (disk_of r) → R d (disk_of (and_then r k))
        go (done a d') s = both d d' (disk_of (k a d')) s (g a d')
        go (failed e d') s = s

    pub catch-Within :
        {A : Type 0} (m : Step D A) (k : Fault → Step D A)
        → Within R m
        → ((e : Fault) → Within R (k e))
        → Within R (catch m k)
    unfolding catch
    catch-Within {A} m k h g d = go (m d) (h d)
      where
        go : (r : Run D A) → R d (disk_of r) → R d (disk_of (or_else r k))
        go (done a d') s = s
        go (failed e d') s = both d d' (disk_of (k e d')) s (g e d')

    pub look-Within : {A : Type 0} (f : D → Checked A) → Within R (look f)
    unfolding look
    look-Within {A} f d = go (f d)
      where
        go : (c : Checked A) → R d (disk_of (settle c d))
        go (good a) = same d
        go (bad e) = same d

    pub call-Within :
        {A : Type 0} (f : D → Option (A × D))
        → ((d : D) (a : A) (d' : D) → f d ≡ some (a, d') → R d d')
        → Within R (call f)
    unfolding call
    call-Within {A} f h d = go (f d) refl
      where
        go : (o : Option (A × D)) → f d ≡ o → R d (disk_of (taken o d))
        go none e = same d
        go (some (a, d')) e = h d a d' e

    pub act-Within : (f : D → Option D) → ((d d' : D) → f d ≡ some d' → R d d') → Within R (act f)
    unfolding act
    act-Within f h d = go (f d) refl
      where
        go : (o : Option D) → f d ≡ o → R d (disk_of (moved o d))
        go none e = same d
        go (some d') e = h d d' e
