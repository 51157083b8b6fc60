-- ===== src/Files/Atomic/Create/Beyond.antt =====
-- Steps of creation leave every name and file but the temporary's.
use ypi.Prelude.{
  ℕ, ◌≡◌, ◌≢◌, refl, sym, ap, subst, ◌∙◌, false, Option, none, some, Text, text_eq, eq_of_text_eq,
  Bool-cases, inl, inr, if◌then◌else◌,
}
use ypi.Files.{FileSystem, Stats, Fault}
use ypi.Files.Laws.{IsPosix, Writes, Renames, disk_of}
use ypi.Files.Steps.{Checked, Step, look, ◌>>=◌, catch}
use ypi.Files.Steps.Carried.{Within, bind-Within, look-Within, act-Within, catch-Within}
use ypi.Files.Transfer.Frame.{write_all-Writes}
use ypi.Files.Atomic.{Stage, HeldDirectory, HeldTemporary}
use ypi.Files.Atomic.Temporary.{
  may_retire, retire_temporary, or_retire, secure_temporary, fill_temporary,
}
use ypi.Files.Atomic.Create.{link_temporary, confirm_published, publish_prepared_temporary}

module _ (F : FileSystem) where
  open F use {Disk, File, Descriptor, named, stats, bytes, opened}

  -- Every name still names its file, and the file has its bytes.
  pub record Kept (d d' : Disk) : Type 0 where
    pub names : (p : Text) (m : File) → named d p ≡ some m → named d' p ≡ some m
    pub contents : (p : Text) (m : File) → named d p ≡ some m → bytes d' m ≡ bytes d m

  -- The same but for one name and one file.
  pub record Beyond (t : Text) (n : File) (d d' : Disk) : Type 0 where
    pub names :
        (p : Text) (m : File) → text_eq p t ≡ false → named d p ≡ some m → named d' p ≡ some m
    pub contents :
        (p : Text) (m : File)
        → text_eq p t ≡ false
        → named d p ≡ some m
        → m ≢ n
        → bytes d' m ≡ bytes d m

  Kept-Beyond : (t : Text) (n : File) (d d' : Disk) → Kept d d' → Beyond t n d d'
  Kept-Beyond t n d d' k = record {
    names = λ p m _. k.names p m;
    contents = λ p m _ e _. k.contents p m e;
  }

  -- A name that was free and a file that was new do not matter.
  pub Beyond-Kept :
      (t : Text) (n : File) (d d' : Disk)
      → named d t ≡ none
      → ((q : Text) → named d q ≢ some n)
      → Beyond t n d d'
      → Kept d d'
  Beyond-Kept t n d d' free fresh b = record {
    names = λ p m e. b.names p m (other p m e) e;
    contents = λ p m e. b.contents p m (other p m e) e (λ same. fresh p (e ∙ ap some same));
  }
    where
      other : (p : Text) (m : File) → named d p ≡ some m → text_eq p t ≡ false
      other p m e = elim (Bool-cases (text_eq p t)) [
        | inl same ↦ absurd (cc (eq_of_text_eq p t same, free, e))
        | inr differs ↦ differs
      ]

  module _ (posix : IsPosix F) (t : Text) (n : File) where
    abbrev R : Disk → Disk → Type 0
    R = Beyond t n

    pub Beyond-refl : (d : Disk) → R d d
    Beyond-refl d = record { names = λ p m _ e. e; contents = λ p m _ _ _. refl }

    pub Beyond-trans : (a b c : Disk) → R a b → R b c → R a c
    Beyond-trans a b c v w = record {
      names = λ p m o e. w.names p m o (v.names p m o e);
      contents = λ p m o e k. w.contents p m o (v.names p m o e) k ∙ v.contents p m o e k;
    }

    pub andthen :
        {A B : Type 0} (m : Step Disk A) (k : A → Step Disk B)
        → Within R m
        → ((a : A) → Within R (k a))
        → Within R (m >>= k)
    andthen = bind-Within R Beyond-refl Beyond-trans

    pub looks : {A : Type 0} (f : Disk → Checked A) → Within R (look f)
    looks = look-Within R Beyond-refl Beyond-trans

    catches :
        {A : Type 0} (m : Step Disk A) (k : Fault → Step Disk A)
        → Within R m
        → ((e : Fault) → Within R (k e))
        → Within R (catch m k)
    catches = catch-Within R Beyond-refl Beyond-trans

    -- A call that writes the new file.
    pub wrote : (d d' : Disk) → Writes F n d d' → R d d'
    wrote d d' w = record { names = λ p m _ e. w.names p ∙ e; contents = λ p m _ _ o. w.others m o }

    renamed_temporary : (d d' : Disk) → Renames F t none d d' → R d d'
    renamed_temporary d d' r = record {
      names = λ p m o e. r.names p ∙ rw o e;
      contents = λ p m _ _ _. r.contents m;
    }

    linked :
        (d d' : Disk) (q : Text) (o : Option File) → named d q ≡ none → Renames F q o d d' → R d d'
    linked d d' q o free r = record {
      names = λ p m _ e. r.names p ∙ past p m e;
      contents = λ p m _ _ _. r.contents m;
    }
      where
        past :
            (p : Text) (m : File)
            → named d p ≡ some m
            → (if text_eq p q then o else named d p) ≡ some m
        past p m e = elim (Bool-cases (text_eq p q)) [
          | inl same ↦ absurd (cc (eq_of_text_eq p q same, free, e))
          | inr differs ↦ rw differs e
        ]

    pub retire_temporary-Beyond :
        (temporary : HeldTemporary F) (mode links : ℕ)
        → temporary.path ≡ t
        → Within R (retire_temporary F temporary mode links)
    unfolding retire_temporary
    retire_temporary-Beyond temporary mode links at_t =
        andthen _ _ (looks (may_retire F temporary mode links)) λ _.
          act-Within R Beyond-refl Beyond-trans _ λ d d' e.
            renamed_temporary d d'
              (posix.unlink_names d t d' (subst (λ p. F.unlink d p ≡ some d') at_t e))

    pub or_retire-Beyond :
        {A : Type 0} (temporary : HeldTemporary F) (action : Step Disk A)
        → temporary.path ≡ t
        → Within R action
        → Within R (or_retire F temporary action)
    unfolding or_retire
    or_retire-Beyond temporary action at_t w = catches _ _ w λ error.
        andthen _ _
          (catches _ _ (retire_temporary-Beyond temporary temporary.identity.mode 1 at_t)
            λ cleanup d. Beyond-refl d)
          λ _ d. Beyond-refl d

    pub secure_temporary-Beyond :
        (h : Descriptor) (s : Stats) (mode : ℕ) → Within R (secure_temporary F h s mode)
    unfolding secure_temporary
    secure_temporary-Beyond h s mode = andthen _ _ (looks _) λ _.
        andthen _ _
          (act-Within R Beyond-refl Beyond-trans _ λ d d' e.
            let (names, contents) = posix.chmod_keeps d h mode d' e in
            record { names = λ p m _ k. names p ∙ k; contents = λ p m _ _ _. contents m })
          λ _. looks _

    pub fill_temporary-Beyond :
        (temporary : HeldTemporary F) (s : Stats) (content : Text) (mode : ℕ)
        → opened temporary.descriptor ≡ n
        → Within R (fill_temporary F temporary s content mode)
    unfolding fill_temporary
    fill_temporary-Beyond temporary s content mode at_n = andthen _ _ (looks _) λ _.
        andthen _ _
          (λ d. wrote d _ (rw (sym at_n) (write_all-Writes F posix temporary.descriptor content d)))
          λ _. andthen _ _ (looks _) λ _. looks _

    module _ (hook : Stage → Step Disk (Unit {0}))
        (quiet : (stage : Stage) (d : Disk) → Kept d (disk_of (hook stage d))) where
      hooks : (stage : Stage) → Within R (hook stage)
      hooks stage d = Kept-Beyond t n d _ (quiet stage d)

      pub publish_prepared_temporary-Beyond :
          (target : Text) (temporary : HeldTemporary F) (directory : HeldDirectory F) (mode : ℕ)
          → temporary.path ≡ t
          → Within R (publish_prepared_temporary F hook target temporary directory mode)
      unfolding publish_prepared_temporary link_temporary confirm_published
      publish_prepared_temporary-Beyond target temporary directory mode at_t =
          andthen _ _
            (catches _ _
              (andthen _ _ (hooks Stage.temporary_ready) λ _. andthen _ _ (looks _) λ _.
                andthen _ _ (looks _) λ _. andthen _ _ (hooks Stage.before_publish) λ _.
                  andthen _ _ (looks _) λ _. andthen _ _ (looks _) λ _.
                    act-Within R Beyond-refl Beyond-trans _ λ d d' e.
                      linked d d' target _ (posix.link_free d _ target d' e)
                        (posix.link_names d _ target d' e))
              λ error.
                andthen _ _
                  (catches _ _
                    (andthen _ _ (retire_temporary-Beyond temporary mode 1 at_t) λ _. looks _)
                    λ cleanup d. Beyond-refl d)
                  λ _ d. Beyond-refl d)
            λ _.
              catches _ _
                (andthen _ _ (hooks Stage.after_publish) λ _. andthen _ _ (looks _) λ _.
                  andthen _ _ (looks _) λ _. andthen _ _ (looks _) λ _.
                    andthen _ _ (hooks Stage.before_temporary_retire) λ _.
                      andthen _ _ (looks _) λ _.
                        andthen _ _ (retire_temporary-Beyond temporary mode 2 at_t) λ _.
                          andthen _ _ (looks _) λ _. andthen _ _ (looks _) λ _ d. Beyond-refl d)
                λ error d. Beyond-refl d
