-- ===== src/Files/Tests/Memory/Lawful.antt =====
-- The disk in memory keeps the laws of the file system.
use ypi.Prelude.{
  ℕ, zero, suc, ◌+◌, ◌≤◌, ◌<◌, ◌≡◌, refl, sym, ap, ◌∙◌, Option, none, some, List, [], ◌∷◌, ◌++◌,
  Text, length, ◌==◌, min, Bool-cases, ◌≢◌, ◌⊎◌, inl, inr, arith,
}
use ypi.Files.{Stats, absent, found, done}
use ypi.Files.Bytes.{
  take, drop, take-append, drop-append, take_all, drop-drop, drop-nil, append-nil,
}
use ypi.Files.Laws.{IsPosix, Writes}
use ypi.Files.Tests.Memory.{
  Disk, set, stats_of, looked_at, created, rewritten, relinked, unlinked, create_in, link_in,
  unlink_in, write_in, memory,
}

rewritten-Writes : (d : Disk) (n : ℕ) (t : Text) → Writes memory n d (rewritten d n t)
rewritten-Writes d n t = record { names = λ p. refl; others = λ m ne. ground (arith, ne) }

set-same {ℓ} : {A : Type ℓ} (f : ℕ → A) (n : ℕ) (a : A) → set f n a n ≡ a
set-same f n a = ground arith

looked_found :
    (d : Disk) (o : Option ℕ) {s : Stats}
    → looked_at d o ≡ found s
    → (n : ℕ) × (o ≡ some n) × (stats_of d n ≡ s)
looked_found d none h = absurd (cc (h))
looked_found d (some n) h = (n, refl, cc (h))

looked_absent : (d : Disk) (o : Option ℕ) → looked_at d o ≡ absent → o ≡ none
looked_absent d none h = refl
looked_absent d (some n) h = absurd (cc (h))

create_some :
    (d : Disk) (p : Text) (o : Option ℕ) {h : ℕ} {d' : Disk}
    → create_in d p o ≡ some (h, d')
    → (o ≡ none) × (h ≡ d.next) × (d' ≡ created d p)
create_some d p none e = (refl, cc (e), cc (e))
create_some d p (some n) e = absurd (cc (e))

link_some :
    (d : Disk) (q : Text) (o : Option ℕ) (h : (n : ℕ) → o ≡ some n → n < d.next) (r : Option ℕ)
    {d' : Disk}
    → link_in d q o h r ≡ some d'
    → (r ≡ none) × (n : ℕ) × (k : n < d.next) × (o ≡ some n) × (d' ≡ relinked d q n k)
link_some d q (some n) h none e = (refl, n, h n refl, refl, cc (e))
link_some d q (some n) h (some m) e = absurd (cc (e))
link_some d q none h r e = absurd (cc (e))

unlink_some :
    (d : Disk) (p : Text) (o : Option ℕ) {d' : Disk}
    → unlink_in d p o ≡ some d'
    → (n : ℕ) × (d' ≡ unlinked d p n)
unlink_some d p none e = absurd (cc (e))
unlink_some d p (some n) e = (n, cc (e))

take_some : {A : Type 0} (n : ℕ) (xs : List A) → length (take n xs) ≤ n
take_some zero xs = omega arith
take_some (suc n) [] = omega arith
take_some (suc n) (x ∷ xs) = omega (arith, take_some n xs)

take_taken : {A : Type 0} (n : ℕ) (xs : List A) → take n xs ≡ take (length (take n xs)) xs
take_taken zero xs = refl
take_taken (suc n) [] = refl
take_taken (suc n) (x ∷ xs) = ap (λ t. x ∷ t) (take_taken n xs)

take_le : {A : Type 0} (n : ℕ) (xs : List A) → length (take n xs) ≤ length xs
take_le zero xs = omega arith
take_le (suc n) [] = omega arith
take_le (suc n) (x ∷ xs) = omega (arith, take_le n xs)

memory_read :
    (d : Disk) (h o c : ℕ) (chunk : Text)
    → memory.read d h o c ≡ some chunk
    → (length chunk ≤ c) × (chunk ≡ take (length chunk) (drop o (d.content h)))
memory_read d h o c chunk e =
    let same : take (min c 2) (drop o (d.content h)) ≡ chunk = cc (e) in
    rw (sym same) (
      omega (arith, take_some (min c 2) (drop o (d.content h))),
      take_taken (min c 2) (drop o (d.content h)),
    )

placed :
    (before after t c : Text) (w : ℕ)
    → c ≡ before ++ after
    → length (take 2 t) ≡ w
    → (take (length before) c ++ take 2 t) ++ drop (length before + length (take 2 t)) c
      ≡ before ++ take w t ++ drop w after
placed before after t c w e size =
    let head : take (length before) c ≡ before =
      ap (take (length before)) e ∙ take-append before after in
    let middle : take 2 t ≡ take w t = take_taken 2 t ∙ ap (λ k. take k t) size in
    let tail : drop (length before + length (take 2 t)) c ≡ drop w after =
      ap (λ k. drop (length before + k) c) size
      ∙ ap (drop (length before + w)) e
      ∙ sym (drop-drop w (length before) (before ++ after))
      ∙ ap (drop w) (drop-append before after) in
    ap (λ x. (x ++ take 2 t) ++ drop (length before + length (take 2 t)) c) head
    ∙ ap (λ x. (before ++ x) ++ drop (length before + length (take 2 t)) c) middle
    ∙ ap (λ x. (before ++ take w t) ++ x) tail

memory_write :
    (d : Disk) (h : ℕ) (t before after : Text) (w : ℕ) (d' : Disk)
    → write_in d h t (length before) ≡ done w d'
    → d.content h ≡ before ++ after
    → (w ≤ length t) × (d'.content h ≡ before ++ take w t ++ drop w after)
memory_write d h t before after w d' e b =
    let size : length (take 2 t) ≡ w = cc (e) in
    let here : rewritten d h (
          (take (length before) (d.content h) ++ take 2 t)
          ++ drop (length before + length (take 2 t)) (d.content h))
        ≡ d' =
      cc (e) in
    (
      rw (sym size) (take_le 2 t),
      ap (λ x. x.content h) (sym here)
          ∙ set-same d.content h _
          ∙ placed before after t (d.content h) w b size,
    )

same_or_other : (m n : ℕ) → (m ≡ n) ⊎ (m ≢ n)
same_or_other m n = elim (Bool-cases (m == n)) [
  | inl e ↦ inl (ground (arith, e))
  | inr e ↦ inr (λ k. ground (arith, e, k))
]

pub memory-IsPosix : IsPosix memory
memory-IsPosix = record {
  numbers_kept = λ d d' h. (refl, refl);
  one_file = λ d p n h _ _ e. e;
  sized = λ d n. refl;
  file_eq = same_or_other;
  lstat_found = λ d p s e. looked_found d (d.name p) e;
  lstat_absent = λ d p e. looked_absent d (d.name p) e;
  fstat_found = λ d h s e. cc (e);
  open_found = λ d p h e. e;
  read_found = memory_read;
  create_fresh = λ d p m h d' e.
      let (free, new, _) = create_some d p (d.name p) e in
      (free, λ q k. omega (arith, d.bounded q h k, new));
  create_names =
      λ d p m h d' e q. let (_, new, made) = create_some d p (d.name p) e in rw (made, new) refl;
  create_bytes = λ d p m h d' e.
      let (_, new, made) = create_some d p (d.name p) e in
      rw (made, new) (set-same d.content d.next [], λ n ne. ground (arith, ne));
  link_free = λ d p q d' e. (link_some d q (d.name p) _ (d.name q) e).0;
  link_names = λ d p q d' e.
      let (_, n, k, named, made) = link_some d q (d.name p) _ (d.name q) e in
      record { names = λ r. rw (made, named) refl; contents = λ m. rw made refl };
  unlink_names = λ d p d' e.
      let (n, made) = unlink_some d p (d.name p) e in
      record { names = λ q. rw made refl; contents = λ m. rw made refl };
  chmod_keeps = λ d h m d' e. let same : d ≡ d' = cc (e) in rw (sym same) (λ p. refl, λ n. refl);
  write_frame = λ d h t o. rewritten-Writes d h _;
  truncate_frame = λ d h n. rewritten-Writes d h _;
  append_frame = λ d h t. rewritten-Writes d h _;
  overwrite_frame = λ d h t. rewritten-Writes d h _;
  write_done = memory_write;
  truncate_done = λ d h n d' e le.
      let same : rewritten d h (take n (d.content h)) ≡ d' = cc (e) in
      ap (λ x. x.content h) (sym same) ∙ set-same d.content h _;
  truncate_part = λ d h n le. (n, omega arith, set-same d.content h _);
  append_part = λ d h t. (
    length t,
    set-same d.content h _ ∙ ap (λ x. d.content h ++ x) (sym (take_all (length t) t (omega arith))),
  );
  append_done = λ d h t d' e.
      let same : rewritten d h (d.content h ++ t) ≡ d' = cc (e) in
      ap (λ x. x.content h) (sym same) ∙ set-same d.content h _;
  overwrite_done = λ d h t d' e b.
      let same : rewritten d h (t ++ drop (length t) (d.content h)) ≡ d' = cc (e) in
      ap (λ x. x.content h) (sym same)
      ∙ set-same d.content h _
      ∙ ap (λ x. t ++ drop (length t) x) b
      ∙ ap (λ x. t ++ x) (drop-nil (length t))
      ∙ append-nil t;
}
