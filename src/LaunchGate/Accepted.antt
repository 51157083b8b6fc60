-- ===== src/LaunchGate/Accepted.antt =====
-- What a launch gate that accepts its arguments was given.
use ypi.Prelude.{
  ℕ, ◌≤◌, ◌<◌, ◌≡◌, refl, sym, ap, subst, ◌∙◌, inl, inr, false, ◌&&◌, ◌||◌, not, Option, none, some,
  List, [], ◌∷◌, ◌++◌, Text, text_eq, eq_of_text_eq, All, ltb, leb, Bool-cases, and-true, or-false,
  arith,
}
use ypi.Process.{max_safe_integer}
use ypi.Limits.{value_of}
use ypi.LaunchGate.{
  Parsed, ok, err, GateRequest, Seen, Flag, nothing_seen, dashes, is_empty, is_given, or_empty,
  is_positive_decimal, flag_of, set_flag, take_flag, take_last, scan, finish_command, finish_owner,
  complete, parse_launch_gate_arguments, and_then,
}

abbrev IsFilled : Option Text → Type 0
IsFilled o = (t : Text) → o ≡ some t → is_empty t ≡ false

-- The files that were seen have names.
record Kept (s : Seen) : Type 0 where
  pid_file : IsFilled s.pid_file
  ready_file : IsFilled s.ready_file

-- The command is what stands behind the first "--".
abbrev pub IsBehind : List Text → List Text → Type 0
IsBehind arguments command =
    (before : List Text) × All (λ t. text_eq t dashes ≡ false) before
    × (arguments ≡ before ++ dashes ∷ command)

filled : (v : Text) → is_empty v ≡ false → IsFilled (some v)
filled v ne t e = let same : v ≡ t = cc (e) in subst (λ x. is_empty x ≡ false) same ne

and_then-ok :
    {A B : Type 0} (m : Parsed A) (k : A → Parsed B) {b : B}
    → and_then m k ≡ ok b
    → (a : A) × (m ≡ ok a) × (k a ≡ ok b)
and_then-ok (ok a) k e = (a, refl, e)
and_then-ok (err x) k e = absurd (cc (e))

set_flag-Kept :
    (f : Flag) (v : Text) (s s' : Seen)
    → is_empty v ≡ false
    → Kept s
    → set_flag f v s ≡ ok s'
    → Kept s' × (s'.command ≡ s.command)
unfolding set_flag
set_flag-Kept Flag.pid_file v s s' ne k e =
    let same : record s { pid_file = some v } ≡ s' = cc (e) in
    subst (λ x. Kept x × (x.command ≡ s.command)) same
      (record { pid_file = filled v ne; ready_file = k.ready_file }, refl)
set_flag-Kept Flag.ready_file v s s' ne k e =
    let same : record s { ready_file = some v } ≡ s' = cc (e) in
    subst (λ x. Kept x × (x.command ≡ s.command)) same
      (record { pid_file = k.pid_file; ready_file = filled v ne }, refl)
set_flag-Kept Flag.owner_process_identity v s s' ne k e =
    let same : record s { owner_process_identity = some v } ≡ s' = cc (e) in
    subst (λ x. Kept x × (x.command ≡ s.command)) same
      (record { pid_file = k.pid_file; ready_file = k.ready_file }, refl)
set_flag-Kept Flag.owner_pid v s s' ne k e = elim (Bool-cases (is_positive_decimal v)) [
  | inl number ↦
      let same : record s { owner_pid = some (value_of 0 v) } ≡ s' = cc (rw number at e) in
      subst (λ x. Kept x × (x.command ≡ s.command)) same
        (record { pid_file = k.pid_file; ready_file = k.ready_file }, refl)
  | inr other ↦ absurd (cc (rw other at e))
]

take_flag-ok :
    (o : Option Flag) (v : Text) (s : Seen) (k : Seen → Parsed Seen) {r : Seen}
    → take_flag o v s k ≡ ok r
    → (f : Flag) × (m : Seen) × (is_empty v ≡ false)
      × (text_eq v dashes ≡ false)
      × (set_flag f v s ≡ ok m)
      × (k m ≡ ok r)
unfolding take_flag
take_flag-ok none v s k e = absurd (cc (e))
take_flag-ok (some f) v s k e = elim (Bool-cases (is_empty v || text_eq v dashes)) [
  | inl refused ↦ absurd (cc (rw refused at e))
  | inr fine ↦
      let (filled, other) = or-false _ _ fine in
      let (m, here, later) = and_then-ok (set_flag f v s) k (rw fine at e) in
      (f, m, filled, other, here, later)
]

take_last-never : (o : Option Flag) {r : Seen} → ¬ (take_last o ≡ ok r)
unfolding take_last
take_last-never none e = absurd (cc (e))
take_last-never (some f) e = absurd (cc (e))

scan-IsBehind :
    (s : Seen) (arguments : List Text) (r : Seen)
    → s.command ≡ none
    → Kept s
    → scan s arguments ≡ ok r
    → Kept r × ((command : List Text) → r.command ≡ some command → IsBehind arguments command)
unfolding scan
scan-IsBehind s [] r free k e =
    let same : s ≡ r = cc (e) in
    subst (λ x. Kept x × ((c : List Text) → x.command ≡ some c → IsBehind [] c)) same
      (k, λ c some_c. absurd (cc (free, some_c)))
scan-IsBehind s (a ∷ []) r free k e = elim (Bool-cases (text_eq a dashes)) [
  | inl here ↦
      let same : record s { command = some [] } ≡ r = cc (rw here at e) in
      let is_dashes : a ≡ dashes = eq_of_text_eq a dashes here in
      subst (λ x. Kept x × ((c : List Text) → x.command ≡ some c → IsBehind (a ∷ []) c)) same
        (
          record { pid_file = k.pid_file; ready_file = k.ready_file },
          λ c some_c. let rest : [] ≡ c = cc (some_c) in ([], tt, cc (rest, is_dashes)),
        )
  | inr other ↦ absurd (take_last-never (flag_of a) (rw other at e))
]
scan-IsBehind s (a ∷ v ∷ more) r free k e = elim (Bool-cases (text_eq a dashes)) [
  | inl here ↦
      let same : record s { command = some (v ∷ more) } ≡ r = cc (rw here at e) in
      let is_dashes : a ≡ dashes = eq_of_text_eq a dashes here in
      subst (λ x. Kept x × ((c : List Text) → x.command ≡ some c → IsBehind (a ∷ v ∷ more) c)) same
        (
          record { pid_file = k.pid_file; ready_file = k.ready_file },
          λ c some_c. let rest : v ∷ more ≡ c = cc (some_c) in ([], tt, cc (rest, is_dashes)),
        )
  | inr other ↦
      let (f, m, ne, fine, set, later) =
        take_flag-ok (flag_of a) v s (λ s. scan s more) (rw other at e) in
      let (kept, same) = set_flag-Kept f v s m ne k set in
      let (kept_on, behind) = scan-IsBehind m more r (same ∙ free) kept later in
      (
        kept_on,
        λ c some_c.
            let (before, plain, split) = behind c some_c in
            (a ∷ v ∷ before, (other, (fine, plain)), ap (λ t. a ∷ v ∷ t) split),
      )
]

files_paired :
    (p r : Option Text)
    → IsFilled p
    → IsFilled r
    → (is_given p && not (is_given r) || not (is_given p) && is_given r) ≡ false
    → is_empty (or_empty p) ≡ is_empty (or_empty r)
files_paired none none kp kr e = refl
files_paired none (some r) kp kr e = absurd (cc (e))
files_paired (some p) none kp kr e = absurd (cc (e))
files_paired (some p) (some r) kp kr e = kp p refl ∙ sym (kr r refl)

-- What a request is made of.
pub record IsComplete (r : GateRequest) : Type 0 where
  pub positive : 0 < r.owner_pid
  pub safe : r.owner_pid ≤ max_safe_integer
  pub identified : is_empty r.owner_process_identity ≡ false
  pub commanded : is_empty r.command ≡ false
  pub paired : is_empty r.pid_file ≡ is_empty r.ready_file

finish_command-IsComplete :
    (s : Seen) (n : ℕ) (identity : Text) (c : Option (List Text)) (r : GateRequest)
    → 0 < n
    → n ≤ max_safe_integer
    → is_empty identity ≡ false
    → is_empty (or_empty s.pid_file) ≡ is_empty (or_empty s.ready_file)
    → finish_command s n identity c ≡ ok r
    → IsComplete r × (c ≡ some r.command)
unfolding finish_command
finish_command-IsComplete s n identity none r positive safe known paired e = absurd (cc (e))
finish_command-IsComplete s n identity (some []) r positive safe known paired e = absurd (cc (e))
finish_command-IsComplete s n identity (some (c ∷ cs)) r positive safe known paired e =
    let same : record {
      pid_file = or_empty s.pid_file;
      ready_file = or_empty s.ready_file;
      owner_pid = n;
      owner_process_identity = identity;
      command = c ∷ cs;
    }
        ≡ r =
      cc (e) in
    subst (λ x. IsComplete x × (some (c ∷ cs) ≡ some x.command)) same
      (
        record {
          positive = positive;
          safe = safe;
          identified = known;
          commanded = refl;
          paired = paired;
        },
        refl,
      )

finish_owner-IsComplete :
    (s : Seen) (n : Option ℕ) (identity : Option Text) (r : GateRequest)
    → is_empty (or_empty s.pid_file) ≡ is_empty (or_empty s.ready_file)
    → finish_owner s n identity ≡ ok r
    → IsComplete r × (s.command ≡ some r.command)
unfolding finish_owner
finish_owner-IsComplete s none identity r paired e = absurd (cc (e))
finish_owner-IsComplete s (some n) none r paired e = absurd (cc (e))
finish_owner-IsComplete s (some n) (some []) r paired e = absurd (cc (e))
finish_owner-IsComplete s (some n) (some (c ∷ t)) r paired e =
    elim (Bool-cases (leb n max_safe_integer && ltb 0 n)) [
      | inl fine ↦
          let (small, large) = and-true (leb n max_safe_integer) (ltb 0 n) fine in
          finish_command-IsComplete s n (c ∷ t) s.command r (ground (arith, large))
            (ground (arith, small)) refl paired (rw fine at e)
      | inr refused ↦ absurd (cc (rw refused at e))
    ]

complete-IsComplete :
    (s : Seen) (r : GateRequest)
    → Kept s
    → complete s ≡ ok r
    → IsComplete r × (s.command ≡ some r.command)
unfolding complete
complete-IsComplete s r k e =
    elim (Bool-cases (
      is_given s.pid_file && not (is_given s.ready_file)
      || not (is_given s.pid_file) && is_given s.ready_file)) [
        | inl unpaired ↦ absurd (cc (rw unpaired at e))
        | inr fine ↦
            finish_owner-IsComplete s s.owner_pid s.owner_process_identity r
              (files_paired s.pid_file s.ready_file k.pid_file k.ready_file fine) (rw fine at e)
      ]

-- Arguments that are accepted carry, behind the first "--", exactly the command of the request,
-- which is not empty; its owner has a positive safe number and an identity, and the two files are
-- named together or not at all.
pub parse_launch_gate_arguments-IsComplete :
    (arguments : List Text) (r : GateRequest)
    → parse_launch_gate_arguments arguments ≡ ok r
    → IsComplete r × IsBehind arguments r.command
unfolding parse_launch_gate_arguments
parse_launch_gate_arguments-IsComplete arguments r e =
    let (s, scanned, finished) = and_then-ok (scan nothing_seen arguments) complete e in
    let unseen : IsFilled none = λ t h. absurd (cc (h)) in
    let (kept, behind) =
      scan-IsBehind nothing_seen arguments s refl
        (record { pid_file = unseen; ready_file = unseen }) scanned in
    let (whole, command) = complete-IsComplete s r kept finished in
    (whole, behind r.command command)
