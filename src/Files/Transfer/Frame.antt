-- ===== src/Files/Transfer/Frame.antt =====
-- The writing loop alters one file only.
use ypi.Prelude.{ℕ, zero, suc, ◌+◌, refl, ◌∙◌, Text, length, leb, ltb, Bool-cases, inl, inr}
use ypi.Files.{FileSystem}
use ypi.Files.Bytes.{drop}
use ypi.Files.Laws.{IsPosix, Writes}
use ypi.Files.Steps.{Step, ◌>>=◌}
use ypi.Files.Steps.Carried.{Within, bind-Within}
use ypi.Files.Transfer.{write_from, write_all}

module _ (F : FileSystem) where
  open F use {Disk, File, Descriptor, opened}

  pub Writes-refl : (n : File) (d : Disk) → Writes F n d d
  Writes-refl n d = record { names = λ p. refl; others = λ m ne. refl }

  pub Writes-trans : (n : File) (a b c : Disk) → Writes F n a b → Writes F n b c → Writes F n a c
  Writes-trans n a b c v w = record {
    names = λ p. w.names p ∙ v.names p;
    others = λ m ne. w.others m ne ∙ v.others m ne;
  }

  module _ (posix : IsPosix F) (h : Descriptor) where
    abbrev R : Disk → Disk → Type 0
    R = Writes F (opened h)

    andthen :
        {A B : Type 0} (m : Step Disk A) (k : A → Step Disk B)
        → Within R m
        → ((a : A) → Within R (k a))
        → Within R (m >>= k)
    andthen = bind-Within R (Writes-refl (opened h)) (Writes-trans (opened h))

    write_from-Writes : (fuel : ℕ) (t : Text) (offset : ℕ) → Within R (write_from F fuel h t offset)
    unfolding write_from
    write_from-Writes zero t offset d = elim (Bool-cases (ltb offset (length t))) [
      | inl e ↦ rw e (Writes-refl (opened h) d)
      | inr e ↦ rw e (Writes-refl (opened h) d)
    ]
    write_from-Writes (suc fuel) t offset d = elim (Bool-cases (ltb offset (length t))) [
      | inl e ↦ rw e (
          andthen (λ d. F.write d h (drop offset t) offset) _
            (λ d. posix.write_frame d h (drop offset t) offset)
            (λ w d. elim (Bool-cases (leb w 0)) [
              | inl stuck ↦ rw stuck (Writes-refl (opened h) d)
              | inr moves ↦ rw moves (write_from-Writes fuel t (offset + w) d)
            ])
            d)
      | inr e ↦ rw e (Writes-refl (opened h) d)
    ]

    pub write_all-Writes : (t : Text) → Within R (write_all F h t)
    unfolding write_all
    write_all-Writes t = write_from-Writes (length t) t 0
