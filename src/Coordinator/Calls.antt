-- ===== src/Coordinator/Calls.antt =====
-- Call accounting of the tree coordinator: `allocateCall` of
-- extensions/ypi/internal/tree-coordinator.ts, over the operations it calls of
-- extensions/ypi/internal/atomic-file.ts and private-path.ts, taken as an interface.
pub mod Counting
use ypi.Prelude.{
  ℕ, ◌+◌, Bool, false, Option, none, some, Text, text_eq, if◌then◌else◌, not, ◌||◌, ◌==◌, leb,
  is_absolute, decimal_line,
}
use ypi.Coordinator.Protocol.{
  Request, Result, ok, err, ◌>>=◌, fault, max_calls_not_integer, seed_not_integer,
  counter_file_not_absolute, counter_mismatch, counter_path_changed, call_configuration_changed,
  max_calls_exceeded, counter_write_failed, exact_non_negative_integer,
}

-- `AtomicFileIdentity`.
pub record FileIdentity : Type 0 where
  pub device : Text
  pub inode : Text
  pub mode : ℕ
  pub links : Text
  pub owner : Option ℕ

-- The private files that hold the counter. `read` is `capturePrivateFileIdentity` and then
-- `readOwnedPrivateFile`; `create` and `replace` are the atomic operations. `none` is a throw; an
-- operation that throws may have changed the disk, and the next one may succeed.
pub record CounterFiles : Type 1 where
  pub Disk : Type 0
  pub exists : Disk → Text → Bool
  pub read : Disk → Text → Option (FileIdentity × Text)
  pub create : Disk → Text → Text → Option FileIdentity × Disk
  pub replace : Disk → Text → FileIdentity → Text → Text → Option FileIdentity × Disk

-- The call fields of `LocalCoordinator`; `counter` holds `counterIdentity` and `counterRaw`, which
-- are always set together.
pub record Calls : Type 0 where
  pub max_calls : Option ℕ
  pub call_count : ℕ
  pub counter_file : Option Text
  pub counter : Option (FileIdentity × Text)

abbrev pub is_some_text : Option Text → Text → Bool
is_some_text none t = false
is_some_text (some u) t = text_eq u t

-- `!request.counterFile || !path.isAbsolute(request.counterFile)`.
unfoldable pub require_counter_file : Request → Result Text
require_counter_file request = elim request.counter_file [
  | none ↦ err (fault counter_file_not_absolute)
  | some file ↦ if is_absolute file then ok file else err (fault counter_file_not_absolute)
]

module _ (files : CounterFiles) where
  open files use {Disk, exists, read, create, replace}

  -- The counter file that an earlier process left, if it agrees with the seed.
  unfoldable pub adopt_counter : Disk → Calls → ℕ → Text → Result (Option (FileIdentity × Text))
  adopt_counter disk c seed file = elim c.counter [
    | some known ↦ ok none
    | none ↦
        if exists disk file
        then elim (read disk file) [
          | none ↦ err (fault counter_write_failed)
          | some (identity, raw) ↦
              if text_eq raw (decimal_line seed)
              then ok (some (identity, raw))
              else err (fault counter_mismatch)
        ]
        else ok none
  ]

  abbrev or_else {ℓ} : {A : Type ℓ} → Option A → Option A → Option A
  or_else none b = b
  or_else (some a) b = some a

  -- The first allocation binds the limit, the seed and the file. A file other than the one that
  -- an earlier generation used is refused after the limit and the seed are set.
  unfoldable pub bind_calls : Disk → Calls → ℕ → ℕ → Text → Calls × Result (Unit {0})
  bind_calls disk c maximum seed file = elim c.max_calls [
    | some bound ↦ (c, ok tt)
    | none ↦ elim (adopt_counter disk c seed file) [
      | err e ↦ (c, err e)
      | ok adopted ↦ elim c.counter_file [
        | some known ↦
            if text_eq known file
            then (
              record c {
                max_calls = some maximum;
                call_count = seed;
                counter = or_else adopted c.counter;
              },
              ok tt,
            )
            else (
              record c { max_calls = some maximum; call_count = seed },
              err (fault counter_path_changed),
            )
        | none ↦ (
          record c {
            max_calls = some maximum;
            call_count = seed;
            counter_file = some file;
            counter = or_else adopted c.counter;
          },
          ok tt,
        )
      ]
    ]
  ]

  -- `atomicConditionalReplaceFile` over a known counter, `atomicCreateFile` otherwise.
  unfoldable pub write_counter : Disk → Calls → Text → Text → Option FileIdentity × Disk
  write_counter disk c file next_raw = elim c.counter [
    | none ↦ create disk file next_raw
    | some (identity, raw) ↦ replace disk file identity raw next_raw
  ]

  -- The count after a write that returned or threw.
  unfoldable pub count_written : Calls → Option FileIdentity × Disk → (Calls × Disk) × Result ℕ
  count_written c (none, disk) = ((c, disk), err (fault counter_write_failed))
  count_written c (some identity, disk) = (
    (
      record c {
        counter = some (identity, decimal_line (c.call_count + 1));
        call_count = c.call_count + 1;
      },
      disk,
    ),
    ok (c.call_count + 1),
  )

  -- The part after the configuration is bound.
  unfoldable pub count_call : Disk → Calls → ℕ → Text → (Calls × Disk) × Result ℕ
  count_call disk c maximum file = elim c.max_calls [
    | none ↦ ((c, disk), err (fault call_configuration_changed))
    | some bound ↦
        if not (bound == maximum) || not (is_some_text c.counter_file file)
        then ((c, disk), err (fault call_configuration_changed))
        else if leb maximum c.call_count
        then ((c, disk), err (fault max_calls_exceeded))
        else count_written c (write_counter disk c file (decimal_line (c.call_count + 1)))
  ]

  abbrev allocate_bound : Disk → ℕ → Text → Calls × Result (Unit {0}) → (Calls × Disk) × Result ℕ
  allocate_bound disk maximum file (c, err e) = ((c, disk), err e)
  allocate_bound disk maximum file (c, ok _) = count_call disk c maximum file

  -- The three inputs that the request has to bring.
  unfoldable pub call_inputs : Request → Result (ℕ × ℕ × Text)
  call_inputs request = do
    maximum ← exact_non_negative_integer max_calls_not_integer request.maximum
    seed ← exact_non_negative_integer seed_not_integer request.seed_call_count
    file ← require_counter_file request
    ok (maximum, seed, file)

  unfoldable pub allocate_call : Disk → Calls → Request → (Calls × Disk) × Result ℕ
  allocate_call disk c request = elim (call_inputs request) [
    | err e ↦ ((c, disk), err e)
    | ok (maximum, seed, file) ↦
        allocate_bound disk maximum file (bind_calls disk c maximum seed file)
  ]
