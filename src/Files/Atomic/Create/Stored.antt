-- ===== src/Files/Atomic/Create/Stored.antt =====
-- What a creation that returns leaves, and that it never returns over a name that exists.
use ypi.Prelude.{
  codes, decimal, digits_from, ℕ, ◌≡◌, refl, ap, ◌∙◌, Bool, true, false, Option, none, some, Text,
  text_eq, eq_of_text_eq, text_eq_refl, Bool-cases, inl, inr, if◌then◌else◌,
}
use ypi.Coordinator.Calls.{FileIdentity}
use ypi.Files.{FileSystem, Fault, done, failed}
use ypi.Files.Laws.{IsPosix, disk_of}
use ypi.Files.Steps.{good, Step}
use ypi.Files.Steps.Returned.{
  pure-Hoare, Hoare, bind-Hoare, look-Hoare, act-Hoare, catch-Hoare, pure-Hoare, never_returns,
  failed_never_done, Run-cases,
}
use ypi.Files.Atomic.{Stage, Options, mode_of, HeldDirectory, HeldTemporary}
use ypi.Files.Atomic.Temporary.{retire_temporary, prepare_temporary}
use ypi.Files.Atomic.Create.{
  link_temporary, confirm_published, publish_prepared_temporary, atomic_create_file,
}
use ypi.Files.Identity.{identity_of, assert_path_names_identity}
use ypi.Files.Identity.Same.{Agree-eq, assert_path_names_identity-named}
use ypi.Files.Atomic.Replace.Written.{IsStored}
use ypi.Files.Atomic.Create.Beyond.{Kept}
use ypi.Files.Atomic.Create.Kept.{atomic_create_file-Kept, prepare_temporary-Kept}
use ypi.Files.Atomic.Create.Filled.{Holds, Kept-Holds, prepare_temporary-Holds}

module _ (F : FileSystem) where
  open F use {Disk, named}

  -- The target has the content and the identity, whose link count is one, and the name under which
  -- the file was prepared is gone.
  pub record IsPublished (temporary : HeldTemporary F) (d : Disk) (target content : Text)
      (i : FileIdentity) : Type 0 where
    pub stored : IsStored F d target content i
    pub one_link : i.links ≡ codes "1"
    pub retired : named d temporary.path ≡ none

module _ (F : FileSystem) (posix : IsPosix F) where
  open F use {Disk, File, Descriptor, named, stats, bytes, opened}

  module _ (hook : Stage → Step Disk (Unit {0}))
      (quiet : (stage : Stage) (d : Disk) → Kept F d (disk_of (hook stage d))) where
    hooked :
        {P : Disk → Type 0} (stage : Stage)
        → ((d d' : Disk) → Kept F d d' → P d → P d')
        → Hoare P (hook stage) (λ _. P)
    hooked stage keeps d a d' p e = keeps d d' (rw e at (quiet stage d)) p

    module _ (target : Text) (t : Text) (n : File) (x : Text) where
      -- Both names are those of the new file.
      record Linked (d : Disk) : Type 0 where
        temporary : Holds F t n x d
        published : named d target ≡ some n
        differs : text_eq target t ≡ false

      Kept-Linked : (d d' : Disk) → Kept F d d' → Linked d → Linked d'
      Kept-Linked d d' k l = record {
        temporary = Kept-Holds F t n x d d' k l.temporary;
        published = k.names target n l.published;
        differs = l.differs;
      }

      linked : (d d' : Disk) → Holds F t n x d → F.link d t target ≡ some d' → Linked d'
      linked d d' p e =
          let r = posix.link_names d t target d' e in
          record {
            temporary = record {
              name = r.names t ∙ both (text_eq t target) (named d t) p.name;
              contents = r.contents n ∙ p.contents;
            };
            published = r.names target ∙ rw (text_eq_refl target) (p.name);
            differs = elim (Bool-cases (text_eq target t)) [
              | inl same ↦
                  absurd (cc (posix.link_free d t target d' e, eq_of_text_eq target t same, p.name))
              | inr differs ↦ differs
            ];
          }
        where
          both : (b : Bool) (o : Option File) → o ≡ some n → (if b then o else o) ≡ some n
          both true o e = e
          both false o e = e

      -- Only the target is left.
      abbrev Retired : Disk → Type 0
      Retired d = Holds F target n x d × (named d t ≡ none)

      retired : (d d' : Disk) → Linked d → F.unlink d t ≡ some d' → Retired d'
      retired d d' l e =
          let r = posix.unlink_names d t d' e in
          (
            record {
              name = r.names target ∙ rw (l.differs) (l.published);
              contents = r.contents n ∙ l.temporary.contents;
            },
            r.names t ∙ rw (text_eq_refl t) refl,
          )

    module _ (target : Text) (temporary : HeldTemporary F) (directory : HeldDirectory F) (mode : ℕ)
        (x : Text) where
      abbrev t : Text
      t = temporary.path

      abbrev n : File
      n = opened temporary.descriptor

      link_temporary-Linked :
          Hoare
            (Holds F t n x)
            (link_temporary F hook target temporary directory mode)
            (λ _. Linked target t n x)
      unfolding link_temporary
      link_temporary-Linked =
          bind-Hoare _ _ (hooked Stage.temporary_ready (Kept-Holds F t n x)) λ _.
            bind-Hoare _ _ (look-Hoare _ λ d a p _. p) λ _.
              bind-Hoare _ _ (look-Hoare _ λ d a p _. p) λ _.
                bind-Hoare _ _ (hooked Stage.before_publish (Kept-Holds F t n x)) λ _.
                  bind-Hoare _ _ (look-Hoare _ λ d a p _. p) λ _.
                    bind-Hoare _ _ (look-Hoare _ λ d a p _. p) λ _.
                      act-Hoare (λ _. Linked target t n x) _
                        λ d d' p e. linked target t n x d d' p e

      -- The last look at the target, and the identity that is returned.
      seen :
          (d : Disk)
          → Holds F target n x d
          → assert_path_names_identity F target temporary.identity 1 mode d ≡ good tt
          → IsStored F d target x (record temporary.identity { links = codes "1" })
      unfolding identity_of decimal digits_from
      seen d p k =
          let (m, name, agree, links) =
            assert_path_names_identity-named F posix target temporary.identity 1 mode d k in
          let one : m ≡ n = cc (name, p.name) in
          record {
            file = m;
            name = name;
            holds = rw one (p.contents);
            identity =
                Agree-eq _ _
                  (record {
                    device = agree.device;
                    inode = agree.inode;
                    mode = agree.mode;
                    owner = agree.owner;
                  })
                  (ap decimal links);
          }

      confirm_published-IsPublished :
          Hoare
            (Linked target t n x)
            (confirm_published F hook target temporary directory mode)
            (λ i d. IsPublished F temporary d target x i)
      unfolding confirm_published retire_temporary
      confirm_published-IsPublished =
          bind-Hoare _ _ (hooked Stage.after_publish (Kept-Linked target t n x)) λ _.
            bind-Hoare _ _ (look-Hoare _ λ d a p _. p) λ _.
              bind-Hoare _ _ (look-Hoare _ λ d a p _. p) λ _.
                bind-Hoare _ _ (look-Hoare _ λ d a p _. p) λ _.
                  bind-Hoare _ _ (hooked Stage.before_temporary_retire (Kept-Linked target t n x))
                    λ _. bind-Hoare _ _ (look-Hoare _ λ d a p _. p) λ _.
                      bind-Hoare {M = λ _. Retired target t n x} _ _
                        (bind-Hoare {M = λ _. Linked target t n x} _ _ (look-Hoare _ λ d a p _. p)
                          λ _.
                            act-Hoare (λ _. Retired target t n x) _
                              λ d d' p e. retired target t n x d d' p e)
                        λ _.
                          bind-Hoare {M = λ _ d. IsPublished F temporary d target x identity} _ _
                            (look-Hoare _ λ d a p e. record {
                              stored = seen d p.0 e;
                              one_link = refl;
                              retired = p.1;
                            })
                            λ _.
                              bind-Hoare {M = λ _ d. IsPublished F temporary d target x identity} _
                                _ (look-Hoare _ λ d a p _. p) λ _. pure-Hoare _ _ λ d p. p
        where
          identity : FileIdentity
          identity = record temporary.identity { links = codes "1" }

      publish_prepared_temporary-IsPublished :
          Hoare
            (Holds F t n x)
            (publish_prepared_temporary F hook target temporary directory mode)
            (λ i d. IsPublished F temporary d target x i)
      unfolding publish_prepared_temporary
      publish_prepared_temporary-IsPublished =
          bind-Hoare _ _
            (catch-Hoare _ _ (λ e d a d' k. never_returns _ e d k) link_temporary-Linked)
            λ _. catch-Hoare _ _ (λ e d a d' k. failed_never_done k) confirm_published-IsPublished

      -- A target that exists is never linked.
      link_temporary_taken :
          (m : File)
          → Hoare
              (λ d. named d target ≡ some m)
              (link_temporary F hook target temporary directory mode)
              (λ _ _. ⊥)
      unfolding link_temporary
      link_temporary_taken m = bind-Hoare _ _ (hooked Stage.temporary_ready names) λ _.
          bind-Hoare _ _ (look-Hoare _ λ d a p _. p) λ _.
            bind-Hoare _ _ (look-Hoare _ λ d a p _. p) λ _.
              bind-Hoare _ _ (hooked Stage.before_publish names) λ _.
                bind-Hoare _ _ (look-Hoare _ λ d a p _. p) λ _.
                  bind-Hoare _ _ (look-Hoare _ λ d a p _. p) λ _.
                    act-Hoare (λ _ _. ⊥) _
                      λ d d' p e. cc (posix.link_free d temporary.path target d' e, p)
        where
          names : (d d' : Disk) → Kept F d d' → named d target ≡ some m → named d' target ≡ some m
          names d d' k e = k.names target m e

      publish_prepared_temporary_taken :
          (m : File)
          → Hoare
              (λ d. named d target ≡ some m)
              (publish_prepared_temporary F hook target temporary directory mode)
              (λ _ _. ⊥)
      unfolding publish_prepared_temporary
      publish_prepared_temporary_taken m =
          bind-Hoare _ _
            (catch-Hoare _ _ (λ e d a d' k. never_returns _ e d k) (link_temporary_taken m))
            λ _ d a d' p _. p

    created :
        (target content : Text) (options : Options) (d0 : Disk)
        → Hoare
            (λ d. d0 ≡ d)
            (atomic_create_file F hook target content options)
            (λ i d'.
              (temporary : HeldTemporary F) × (d : Disk) × (prepare_temporary F target content
                  (mode_of options)
                  d0
                ≡ done temporary d)
              × IsPublished F temporary d' target content i)
    unfolding atomic_create_file
    created target content options d0 = bind-Hoare _ _ (look-Hoare _ λ d a p _. p) λ directory.
        bind-Hoare
          {M = λ temporary d.
            Holds F temporary.path (opened temporary.descriptor) content d
            × (prepare_temporary F target content (mode_of options) d0 ≡ done temporary d)}
          _ _
          (λ d temporary d' p e. (
            prepare_temporary-Holds F posix target content (mode_of options) d temporary d' tt e,
            rw p e,
          ))
          λ temporary d i d' p e. (
            temporary,
            d,
            p.1,
            publish_prepared_temporary-IsPublished target temporary directory (mode_of options)
                content d i d' p.0 e,
          )

    -- When other processes keep names and the bytes of named files, a creation that returns has
    -- prepared a temporary file, and leaves the content under the target, in a file with one link
    -- and the identity that it returns; the name of the temporary file is gone.
    pub atomic_create_file-IsPublished :
        (d : Disk) (target content : Text) (options : Options) (i : FileIdentity) (d' : Disk)
        → atomic_create_file F hook target content options d ≡ done i d'
        → (temporary : HeldTemporary F) × (prepared : Disk) × (prepare_temporary F target content
              (mode_of options)
              d
            ≡ done temporary prepared)
          × IsPublished F temporary d' target content i
    atomic_create_file-IsPublished d target content options i d' k =
        created target content options d d i d' refl k

    -- A creation that returns leaves the content under the target, in a file with the identity
    -- that it returns.
    pub atomic_create_file-IsStored :
        (d : Disk) (target content : Text) (options : Options) (i : FileIdentity) (d' : Disk)
        → atomic_create_file F hook target content options d ≡ done i d'
        → IsStored F d' target content i
    atomic_create_file-IsStored d target content options i d' k =
        (created target content options d d i d' refl k).3.stored

    never_taken :
        (target content : Text) (options : Options) (m : File)
        → Hoare
            (λ d. named d target ≡ some m)
            (atomic_create_file F hook target content options)
            (λ _ _. ⊥)
    unfolding atomic_create_file
    never_taken target content options m = bind-Hoare _ _ (look-Hoare _ λ d a p _. p) λ directory.
        bind-Hoare _ _
          (λ d a d' p e.
            let kept : Kept F d d' =
              rw e at (prepare_temporary-Kept F posix d target content (mode_of options)) in
            kept.names target m p)
          λ temporary.
            publish_prepared_temporary_taken target temporary directory (mode_of options) content m

    pub atomic_create_file_taken :
        (d : Disk) (target content : Text) (options : Options) (m : File)
        → named d target ≡ some m
        → (e : Fault) × (d' : Disk) × (atomic_create_file F hook target content options d
            ≡ failed e d')
          × Kept F d d'
    atomic_create_file_taken d target content options m p =
        elim (Run-cases (atomic_create_file F hook target content options d)) [
          | inl (i, d', e) ↦ absurd (never_taken target content options m d i d' p e)
          | inr (fault, d', e) ↦ (
            fault,
            d',
            e,
            rw e at (atomic_create_file-Kept F posix hook quiet d target content options),
          )
        ]
