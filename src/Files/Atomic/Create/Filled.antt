-- ===== src/Files/Atomic/Create/Filled.antt =====
-- A prepared temporary holds its content.
use ypi.Prelude.{ℕ, ◌≡◌, refl, ap, subst, ◌∙◌, some, [], ◌++◌, Text, text_eq_refl, length}
use ypi.Files.{FileSystem, Stats, done}
use ypi.Files.Laws.{IsPosix, Writes}
use ypi.Files.Steps.{Step}
use ypi.Files.Steps.Returned.{
  pure-Hoare, Hoare, Any, skip-Hoare, bind-Hoare, look-Hoare, act-Hoare, call-Hoare, catch-Hoare,
  pure-Hoare, never_returns,
}
use ypi.Files.Transfer.{write_all}
use ypi.Files.Transfer.Frame.{write_all-Writes}
use ypi.Files.Atomic.{HeldTemporary}
use ypi.Files.Atomic.Temporary.{
  or_retire, secure_temporary, fill_temporary, complete_temporary, prepare_temporary,
}
use ypi.Files.Bytes.{drop, drop-nil, append-nil}
use ypi.Files.Transfer.Whole.{write_all-done}
use ypi.Files.Atomic.Create.Beyond.{Kept}

module _ (F : FileSystem) where
  open F use {Disk, File, Descriptor, named, stats, bytes, opened}

  -- A name, its file and the bytes of that.
  pub record Holds (t : Text) (n : File) (x : Text) (d : Disk) : Type 0 where
    pub name : named d t ≡ some n
    pub contents : bytes d n ≡ x

  pub Kept-Holds :
      (t : Text) (n : File) (x : Text) (d d' : Disk) → Kept F d d' → Holds t n x d → Holds t n x d'
  Kept-Holds t n x d d' k h = record {
    name = k.names t n h.name;
    contents = k.contents t n h.name ∙ h.contents;
  }

  or_retire-Hoare :
      {A : Type 0} {P : Disk → Type 0} {Q : A → Disk → Type 0} (temporary : HeldTemporary F)
      (action : Step Disk A)
      → Hoare P action Q
      → Hoare P (or_retire F temporary action) Q
  unfolding or_retire
  or_retire-Hoare temporary action h = catch-Hoare _ _ (λ e d a d' k. never_returns _ e d k) h

  module _ (posix : IsPosix F) (t : Text) (h : Descriptor) where
    secure_temporary-Holds :
        (s : Stats) (mode : ℕ)
        → Hoare (Holds t (opened h) []) (secure_temporary F h s mode) (λ _. Holds t (opened h) [])
    unfolding secure_temporary
    secure_temporary-Holds s mode = bind-Hoare _ _ (look-Hoare _ λ d a p _. p) λ _.
        bind-Hoare _ _
          (act-Hoare (λ _. Holds t (opened h) []) _
            λ d d' p e.
              let (names, contents) = posix.chmod_keeps d h mode d' e in
              record { name = names t ∙ p.name; contents = contents (opened h) ∙ p.contents })
          λ _. look-Hoare _ λ d a p _. p

    written :
        (content : Text) (d d' : Disk) {u : Unit {0}}
        → Holds t (opened h) [] d
        → write_all F h content d ≡ done u d'
        → Holds t (opened h) content d'
    written content d d' p e =
        let frame : Writes F (opened h) d d' = rw e at (write_all-Writes F posix h content d) in
        record {
          name = frame.names t ∙ p.name;
          contents =
              write_all-done F posix d h content d' e
              ∙ ap (λ x. content ++ drop (length content) x) p.contents
              ∙ ap (λ x. content ++ x) (drop-nil (length content))
              ∙ append-nil content;
        }

    fill_temporary-Holds :
        (temporary : HeldTemporary F) (s : Stats) (content : Text) (mode : ℕ)
        → temporary.descriptor ≡ h
        → Hoare
            (Holds t (opened h) [])
            (fill_temporary F temporary s content mode)
            (λ _. Holds t (opened h) content)
    unfolding fill_temporary
    fill_temporary-Holds temporary s content mode same =
        bind-Hoare _ _ (look-Hoare _ λ d a p _. p) λ _.
          bind-Hoare _ _
            (λ d a d' p e.
              written content d d' p (subst (λ g. write_all F g content d ≡ done a d') same e))
            λ _. bind-Hoare _ _ (look-Hoare _ λ d a p _. p) λ _. look-Hoare _ λ d a p _. p

    complete_temporary-Holds :
        (content : Text) (mode : ℕ)
        → Hoare
            (Holds t (opened h) [])
            (complete_temporary F t h content mode)
            (λ temporary. Holds temporary.path (opened temporary.descriptor) content)
    unfolding complete_temporary
    complete_temporary-Holds content mode =
        bind-Hoare _ _ (look-Hoare {Q = λ _. Holds t (opened h) []} _ λ d a p _. p) λ created.
          bind-Hoare _ _ (or_retire-Hoare _ _ (secure_temporary-Holds created mode)) λ s.
            bind-Hoare _ _ (or_retire-Hoare _ _ (fill_temporary-Holds _ s.0 content mode refl))
              λ _. pure-Hoare _ _ λ d p. p

  module _ (posix : IsPosix F) where
    pub prepare_temporary-Holds :
        (target content : Text) (mode : ℕ)
        → Hoare Any
            (prepare_temporary F target content mode)
            (λ temporary. Holds temporary.path (opened temporary.descriptor) content)
    unfolding prepare_temporary
    prepare_temporary-Holds target content mode = skip-Hoare _ _ λ path.
        bind-Hoare {M = λ h. Holds path (opened h) []} _ _
          (call-Hoare _ λ d h d' _ e. record {
            name = posix.create_names d path mode h d' e path ∙ rw (text_eq_refl path) refl;
            contents = (posix.create_bytes d path mode h d' e).0;
          })
          λ h. complete_temporary-Holds posix path h content mode
