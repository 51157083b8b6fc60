-- ===== src/Files/Atomic/Create/Kept.antt =====
-- Creation leaves every file that had a name, whichever way it ends.
use ypi.Prelude.{ℕ, ◌≡◌, ◌≢◌, refl, subst, ◌∙◌, none, some, Text, ◌⊎◌, inl, inr}
use ypi.Coordinator.Calls.{FileIdentity}
use ypi.Files.{FileSystem, Fault, Run, done, failed}
use ypi.Files.Laws.{IsPosix, disk_of}
use ypi.Files.Steps.{Step, look_then, call_then, bind_then}
use ypi.Files.Steps.Carried.{Within}
use ypi.Files.Steps.Returned.{pure-Hoare, Hoare, Any, skip-Hoare}
use ypi.Files.Atomic.{Stage, Options, mode_of, HeldTemporary}
use ypi.Files.Atomic.Temporary.{complete_temporary, prepare_temporary}
use ypi.Files.Atomic.Create.{atomic_create_file}
use ypi.Files.Atomic.Create.Beyond.{
  Kept, Beyond, Beyond-Kept, Beyond-refl, Beyond-trans, andthen, looks, or_retire-Beyond,
  secure_temporary-Beyond, fill_temporary-Beyond, publish_prepared_temporary-Beyond,
}

module _ (F : FileSystem) where
  open F use {Disk, File, Descriptor, named, stats, bytes, opened}

  -- A new file `n` under a free name `t`.
  pub record IsFresh (d : Disk) (t : Text) (n : File) : Type 0 where
    pub free : named d t ≡ none
    pub fresh : (q : Text) → named d q ≢ some n

  -- How the preparation of a temporary may end.
  pub record IsPrepared (d : Disk) (r : Run Disk (HeldTemporary F)) : Type 0 where
    pub name : Text
    pub file : File
    pub new : IsFresh d name file
    pub beyond : Beyond F name file d (disk_of r)
    pub temporary :
        (temporary : HeldTemporary F) (d' : Disk)
        → r ≡ done temporary d'
        → (temporary.path ≡ name) × (opened temporary.descriptor ≡ file)

  module _ (posix : IsPosix F) where
    created-Beyond :
        (d : Disk) (t : Text) (mode : ℕ) (h : Descriptor) (d' : Disk)
        → F.create d t mode ≡ some (h, d')
        → IsFresh d t (opened h) × Beyond F t (opened h) d d'
    created-Beyond d t mode h d' e =
        let (free, fresh) = posix.create_fresh d t mode h d' e in
        (
          record { free = free; fresh = fresh },
          record {
            names = λ p m o k. posix.create_names d t mode h d' e p ∙ rw o k;
            contents = λ p m o k ne. (posix.create_bytes d t mode h d' e).1 m ne;
          },
        )

    complete_temporary-Beyond :
        (t : Text) (h : Descriptor) (content : Text) (mode : ℕ)
        → Within (Beyond F t (opened h)) (complete_temporary F t h content mode)
    unfolding complete_temporary
    complete_temporary-Beyond t h content mode =
        andthen F posix t (opened h) _ _ (looks F posix t (opened h) _) λ created.
          andthen F posix t (opened h) _ _
            (or_retire-Beyond F posix t (opened h) _ _ refl
              (secure_temporary-Beyond F posix t (opened h) h created mode))
            λ s.
              andthen F posix t (opened h) _ _
                (or_retire-Beyond F posix t (opened h) _ _ refl
                  (fill_temporary-Beyond F posix t (opened h) _ s.0 content mode refl))
                λ _ d. Beyond-refl F posix t (opened h) d

    complete_temporary-same :
        (t : Text) (h : Descriptor) (content : Text) (mode : ℕ)
        → Hoare Any
            (complete_temporary F t h content mode)
            (λ temporary _. (temporary.path ≡ t) × (opened temporary.descriptor ≡ opened h))
    unfolding complete_temporary
    complete_temporary-same t h content mode =
        skip-Hoare _ _
          λ _. skip-Hoare _ _ λ _. skip-Hoare _ _ λ _. pure-Hoare _ _ λ d _. (refl, refl)

    pub prepare_temporary-IsPrepared :
        (d : Disk) (target content : Text) (mode : ℕ)
        → ((e : Fault) × (prepare_temporary F target content mode d ≡ failed e d))
          ⊎ IsPrepared d (prepare_temporary F target content mode d)
    unfolding prepare_temporary
    prepare_temporary-IsPrepared d target content mode =
        look_then X _ _ d (λ e _. inl (e, refl))
          λ path _.
            call_then X _ _ d (λ _. inl (Fault.system, refl))
              λ h d' e.
                let (new, beyond) = created-Beyond d path mode h d' e in
                inr (record {
                  name = path;
                  file = opened h;
                  new = new;
                  beyond =
                      Beyond-trans F posix path (opened h) d d' _ beyond
                        (complete_temporary-Beyond path h content mode d');
                  temporary = λ temporary d1 k.
                      complete_temporary-same path h content mode d' temporary d1 tt k;
                })
      where
        X : Run Disk (HeldTemporary F) → Type 0
        X r = ((e : Fault) × (r ≡ failed e d)) ⊎ IsPrepared d r

    pub prepare_temporary-Kept :
        (d : Disk) (target content : Text) (mode : ℕ)
        → Kept F d (disk_of (prepare_temporary F target content mode d))
    prepare_temporary-Kept d target content mode =
        elim (prepare_temporary-IsPrepared d target content mode) [
          | inl (e, stops) ↦ rw stops (record { names = λ p m e. e; contents = λ p m e. refl })
          | inr p ↦ Beyond-Kept F p.name p.file d _ p.new.free p.new.fresh p.beyond
        ]

    module _ (hook : Stage → Step Disk (Unit {0}))
        (quiet : (stage : Stage) (d : Disk) → Kept F d (disk_of (hook stage d))) where
      -- Whether it throws or returns, every name that stood on the disk names the file it named,
      -- with the bytes it had.
      pub atomic_create_file-Kept :
          (d : Disk) (target content : Text) (options : Options)
          → Kept F d (disk_of (atomic_create_file F hook target content options d))
      unfolding atomic_create_file
      atomic_create_file-Kept d target content options =
          look_then X _ _ d (λ e _. same)
            λ directory _. elim (prepare_temporary-IsPrepared d target content (mode_of options)) [
              | inl (e, stops) ↦
                  bind_then X _ _ d (λ e' d' k. subst (λ x. Kept F d x) (cc (stops, k)) same)
                    λ a d' k. absurd (cc (stops, k))
              | inr p ↦
                  bind_then X _ _ d (λ e d' k. settled p (rw k at p.beyond))
                    λ temporary d' k.
                      let (path, _) = p.temporary temporary d' k in
                      settled p (
                        Beyond-trans F posix p.name p.file d d' _ (rw k at p.beyond) (
                          publish_prepared_temporary-Beyond F posix p.name p.file hook quiet target
                            temporary directory (mode_of options) path d'))
            ]
        where
          X : Run Disk FileIdentity → Type 0
          X r = Kept F d (disk_of r)

          same : Kept F d d
          same = record { names = λ p m e. e; contents = λ p m e. refl }

          settled :
              {r : Run Disk (HeldTemporary F)} {d' : Disk} (p : IsPrepared d r)
              → Beyond F p.name p.file d d'
              → Kept F d d'
          settled {r} {d'} p b = Beyond-Kept F p.name p.file d d' p.new.free p.new.fresh b
