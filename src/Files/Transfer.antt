-- ===== src/Files/Transfer.antt =====
-- The loops of extensions/ypi/internal/atomic-file.ts that write and read through a descriptor.
pub mod Whole
pub mod Frame
use ypi.Prelude.{ℕ, zero, suc, ◌+◌, ◌-◌, ◌^◌, [], ◌++◌, Text, length, leb, ltb, if◌then◌else◌}
use ypi.Files.{FileSystem, Fault}
use ypi.Files.Bytes.{drop}
use ypi.Files.Steps.{Checked, good, bad, ◌>>?◌, check, found_or, Step, pure, throw, ◌>>=◌, ◌>>◌}

module _ (F : FileSystem) where
  open F use {Disk, Descriptor}

  -- The loop of `writeAll` from an offset on; each round writes one byte at least.
  unfoldable pub write_from : ℕ → Descriptor → Text → ℕ → Step Disk (Unit {0})
  write_from zero h bytes offset =
      if ltb offset (length bytes) then throw Fault.out_of_fuel else pure tt
  write_from (suc fuel) h bytes offset =
      if ltb offset (length bytes)
      then (do
        written ← λ d. F.write d h (drop offset bytes) offset
        if leb written 0
            then throw Fault.no_progress
            else write_from fuel h bytes (offset + written))
      else pure tt

  -- `writeAll` of bytes, which a text that is given has become in `Buffer.from`; as many rounds as
  -- there are bytes are enough.
  unfoldable pub write_all : Descriptor → Text → Step Disk (Unit {0})
  write_all h content = write_from (length content) h content 0

  -- The loop of `readDescriptorFromStart` behind the bytes that it has.
  unfoldable pub read_from : ℕ → Disk → Descriptor → ℕ → Text → Checked Text
  read_from zero d h size got = if ltb (length got) size then bad Fault.out_of_fuel else good got
  read_from (suc fuel) d h size got =
      if ltb (length got) size
      then (found_or (F.read d h (length got) (size - length got)) Fault.system >>? λ chunk.
          if leb (length chunk) 0
          then bad Fault.became_shorter
          else read_from fuel d h size (got ++ chunk))
      else good got

  -- `readDescriptorFromStart`: the size is a safe integer, and as many rounds are enough.
  unfoldable pub read_descriptor_from_start : Disk → Descriptor → Checked Text
  read_descriptor_from_start d h = found_or (F.fstat d h) Fault.system >>? λ s.
      check (ltb s.size (2 ^ 53)) Fault.size_unsupported >>? λ _. read_from s.size d h s.size []
