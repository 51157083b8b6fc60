-- ===== src/Files/Transfer/Whole.antt =====
-- What the loops of extensions/ypi/internal/atomic-file.ts transfer, and that they end.
use ypi.Prelude.{
  ℕ, zero, suc, ◌+◌, ◌≤◌, ◌<◌, ◌≡◌, refl, sym, ap, ◌∙◌, false, List, [], ◌∷◌, ◌++◌, Text, length,
  length-append, leb, ltb, Bool-cases, inl, inr, arith,
}
use ypi.Files.{FileSystem, done}
use ypi.Files.Bytes.{
  take, drop, take-drop, length-take, length-drop, drop-drop, append-nil, drop-append, append_assoc,
}
use ypi.Files.Laws.{IsPosix}
use ypi.Files.Steps.{good, check_then, >>?-good, found_or-good, >>=-done, ◌>>=◌}
use ypi.Files.Transfer.{write_from, write_all, read_from, read_descriptor_from_start}

nil_of_length : {A : Type 0} (xs : List A) → length xs ≡ 0 → xs ≡ []
nil_of_length [] h = refl
nil_of_length (x ∷ xs) h = absurd (omega (arith, h))

module _ (F : FileSystem) (posix : IsPosix F) where
  open F use {Disk, Descriptor, bytes, opened}

  pub ends :
      (size : ℕ) (got rest whole : Text)
      → got ++ rest ≡ whole
      → length whole ≡ size
      → ltb (length got) size ≡ false
      → got ≡ whole
  ends size got rest whole e sized full =
      let none_left : rest ≡ [] =
        nil_of_length rest
          (ground (arith, sym (length-append got rest), ap length e, sized, full)) in
      sym (append-nil got) ∙ ap (λ r. got ++ r) (sym none_left) ∙ e

  -- One more chunk of a file whose beginning is known.
  pub joins :
      (d : Disk) (h : Descriptor) (got rest chunk : Text)
      → got ++ rest ≡ bytes d (opened h)
      → chunk ≡ take (length chunk) (drop (length got) (bytes d (opened h)))
      → (got ++ chunk) ++ drop (length chunk) rest ≡ bytes d (opened h)
  joins d h got rest chunk e part =
      let first : chunk ≡ take (length chunk) rest =
        part ∙ ap (take (length chunk)) (ap (drop (length got)) (sym e) ∙ drop-append got rest) in
      append_assoc got chunk _
      ∙ ap (λ r. got ++ r)
          (ap (λ c. c ++ drop (length chunk) rest) first ∙ take-drop (length chunk) rest)
      ∙ e

  -- What is read so far is the beginning of the file.
  pub read_from-good :
      (fuel : ℕ) (d : Disk) (h : Descriptor) (size : ℕ) (got rest t : Text)
      → got ++ rest ≡ bytes d (opened h)
      → length (bytes d (opened h)) ≡ size
      → read_from F fuel d h size got ≡ good t
      → t ≡ bytes d (opened h)
  unfolding read_from
  read_from-good zero d h size got rest t e whole k = elim (Bool-cases (ltb (length got) size)) [
    | inl more ↦ absurd (cc (rw more at k))
    | inr full ↦
        let same : got ≡ t = cc (rw full at k) in sym same ∙ ends size got rest _ e whole full
  ]
  read_from-good (suc fuel) d h size got rest t e whole k =
      elim (Bool-cases (ltb (length got) size)) [
        | inl more ↦
            let (chunk, a, k1) = >>?-good _ _ (rw more at k) in
            let (short, part) = posix.read_found d h _ _ chunk (found_or-good _ _ a) in
            elim (Bool-cases (leb (length chunk) 0)) [
              | inl stuck ↦ absurd (cc (rw stuck at k1))
              | inr moves ↦
                  read_from-good fuel d h size (got ++ chunk) (drop (length chunk) rest) t
                    (joins d h got rest chunk e part) whole (rw moves at k1)
            ]
        | inr full ↦
            let same : got ≡ t = cc (rw full at k) in sym same ∙ ends size got rest _ e whole full
      ]

  pub read_descriptor_from_start-good :
      (d : Disk) (h : Descriptor) (t : Text)
      → read_descriptor_from_start F d h ≡ good t
      → t ≡ bytes d (opened h)
  unfolding read_descriptor_from_start
  read_descriptor_from_start-good d h t k =
      let (s, a, k1) = >>?-good _ _ k in
      let (_, k2) = check_then _ _ _ k1 in
      read_from-good s.size d h s.size [] (bytes d (opened h)) t refl
        (sym (posix.sized d (opened h))
          ∙ ap (λ m. m.size) (posix.fstat_found d h s (found_or-good _ _ a)))
        k2

  nothing_left :
      (before more t : Text)
      → before ++ more ≡ t
      → ltb (length before) (length t) ≡ false
      → more ≡ []
  nothing_left before more t e full =
      nil_of_length more (ground (arith, sym (length-append before more), ap length e, full))

  -- The file behind a loop that has nothing left to write.
  nothing_written :
      (d : Disk) (h : Descriptor) (t before more after : Text)
      → before ++ more ≡ t
      → ltb (length before) (length t) ≡ false
      → bytes d (opened h) ≡ before ++ after
      → bytes d (opened h) ≡ t ++ drop (length more) after
  nothing_written d h t before more after e full b =
      let nil = nothing_left before more t e full in
      b
      ∙ ap (λ x. x ++ after) (sym (append-nil before) ∙ ap (λ m. before ++ m) (sym nil) ∙ e)
      ∙ ap (λ m. t ++ drop (length m) after) (sym nil)

  -- What `writeAll` leaves: its content, and behind it what was there.
  write_from-done :
      (fuel : ℕ) (d : Disk) (h : Descriptor) (t before more after : Text) (d' : Disk)
      → before ++ more ≡ t
      → bytes d (opened h) ≡ before ++ after
      → write_from F fuel h t (length before) d ≡ done tt d'
      → bytes d' (opened h) ≡ t ++ drop (length more) after
  unfolding write_from ◌>>=◌
  write_from-done zero d h t before more after d' e b k =
      elim (Bool-cases (ltb (length before) (length t))) [
        | inl again ↦ absurd (cc (rw again at k))
        | inr full ↦
            let same : d ≡ d' = cc (rw full at k) in
            ap (λ x. bytes x (opened h)) (sym same)
            ∙ nothing_written d h t before more after e full b
      ]
  write_from-done (suc fuel) d h t before more after d' e b k =
      elim (Bool-cases (ltb (length before) (length t))) [
        | inl again ↦
            let (w, d1, wrote, k1) =
              >>=-done (F.write d h (drop (length before) t) (length before)) _ (rw again at k) in
            elim (Bool-cases (leb w 0)) [
              | inl stuck ↦ absurd (cc (rw stuck at k1))
              | inr moves ↦ round w d1 wrote (rw moves at k1) (write_from-done fuel d1 h t)
            ]
        | inr full ↦
            let same : d ≡ d' = cc (rw full at k) in
            ap (λ x. bytes x (opened h)) (sym same)
            ∙ nothing_written d h t before more after e full b
      ]
    where
      round :
          (w : ℕ) (d1 : Disk)
          → F.write d h (drop (length before) t) (length before) ≡ done w d1
          → write_from F fuel h t (length before + w) d1 ≡ done tt d'
          → ((before more after : Text) (d' : Disk)
              → before ++ more ≡ t
              → bytes d1 (opened h) ≡ before ++ after
              → write_from F fuel h t (length before) d1 ≡ done tt d'
              → bytes d' (opened h) ≡ t ++ drop (length more) after)
          → bytes d' (opened h) ≡ t ++ drop (length more) after
      round w d1 wrote k1 recurse =
          let left : drop (length before) t ≡ more =
            ap (drop (length before)) (sym e) ∙ drop-append before more in
          let (short, holds) = posix.write_done d h more before after w d1 (rw left at wrote) b in
          let len : length (before ++ take w more) ≡ length before + w =
            length-append before (take w more)
            ∙ ap (λ n. length before + n) (length-take w more short) in
          let all : (before ++ take w more) ++ drop w more ≡ t =
            append_assoc before (take w more) (drop w more)
            ∙ ap (λ r. before ++ r) (take-drop w more)
            ∙ e in
          recurse (before ++ take w more) (drop w more) (drop w after) d' all holds (rw len k1)
          ∙ ap (λ r. t ++ r)
              (drop-drop (length (drop w more)) w after
                ∙ ap (λ n. drop n after) (omega (arith, length-drop w more, short)))

  pub write_all-done :
      (d : Disk) (h : Descriptor) (t : Text) (d' : Disk)
      → write_all F h t d ≡ done tt d'
      → bytes d' (opened h) ≡ t ++ drop (length t) (bytes d (opened h))
  unfolding write_all
  write_all-done d h t d' k =
      write_from-done (length t) d h t [] t (bytes d (opened h)) d' refl refl k

  -- A disk on which every write moves on writes everything.
  write_from_ends :
      (fuel : ℕ) (d : Disk) (h : Descriptor) (t : Text) (offset : ℕ)
      → ((d : Disk) (part : Text) (o : ℕ)
          → 0 < length part
          → (w : ℕ) × (d' : Disk) × (F.write d h part o ≡ done (suc w) d'))
      → length t ≤ offset + fuel
      → (d' : Disk) × (write_from F fuel h t offset d ≡ done tt d')
  unfolding write_from ◌>>=◌
  write_from_ends zero d h t offset moves le =
      let full : ltb offset (length t) ≡ false = ground (arith, le) in (d, rw full refl)
  write_from_ends (suc fuel) d h t offset moves le = elim (Bool-cases (ltb offset (length t))) [
    | inl again ↦
        let (w, d1, e) = moves d (drop offset t) offset (ground (arith, length-drop offset t)) in
        let (d2, ends) = write_from_ends fuel d1 h t (offset + suc w) moves (omega (arith, le)) in
        let more : leb (suc w) 0 ≡ false = ground arith in (d2, rw (again, e, more) ends)
    | inr full ↦ (d, rw full refl)
  ]

  pub write_all_ends :
      (d : Disk) (h : Descriptor) (t : Text)
      → ((d : Disk) (part : Text) (o : ℕ)
          → 0 < length part
          → (w : ℕ) × (d' : Disk) × (F.write d h part o ≡ done (suc w) d'))
      → (d' : Disk) × (write_all F h t d ≡ done tt d')
        × (bytes d' (opened h) ≡ t ++ drop (length t) (bytes d (opened h)))
  unfolding write_all
  write_all_ends d h t moves =
      let (d', ends) = write_from_ends (length t) d h t 0 moves (omega arith) in
      (d', ends, write_all-done d h t d' ends)
