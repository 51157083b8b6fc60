-- ===== src/Coordinator/Calls/Counting.antt =====
-- Call numbers of one tree: consecutive, under the bound limit, and on disk.
use ypi.Prelude.{
  ℕ, ◌+◌, ◌≤◌, ◌<◌, ◌≡◌, refl, sym, ap, subst, ◌∙◌, inl, inr, true, Option, none, some, List, [],
  ◌∷◌, Text, eq_of_text_eq, Bool-cases, arith, ◌==◌, not, ◌||◌, leb, decimal_line,
}
use ypi.Coordinator.Protocol.{Request, Result, ok, err, Result-cases, Failure}
use ypi.Coordinator.Calls.{
  FileIdentity, CounterFiles, Calls, is_some_text, bind_calls, write_counter, count_written,
  count_call, call_inputs, allocate_call,
}

eq_of_is_some_text : (o : Option Text) (t : Text) → is_some_text o t ≡ true → o ≡ some t
eq_of_is_some_text none t h = cc
eq_of_is_some_text (some u) t h = ap some (eq_of_text_eq u t h)

module _ (files : CounterFiles) where
  open files use {Disk}

  -- What a call that is counted leaves: the next number was written, under the limit.
  pub record Counted (c : Calls) (maximum : ℕ) (file : Text) (before : Disk) (c' : Calls)
      (after : Disk) (n : ℕ) : Type 0 where
    pub bound : c.max_calls ≡ some maximum
    pub counts_into : c.counter_file ≡ some file
    pub number : n ≡ c.call_count + 1
    pub within : n ≤ maximum
    pub same_limit : c'.max_calls ≡ some maximum
    pub same_file : c'.counter_file ≡ some file
    pub count : c'.call_count ≡ n
    pub identity : FileIdentity
    pub keeps : c'.counter ≡ some (identity, decimal_line n)
    pub writes : write_counter files before c file (decimal_line n) ≡ (some identity, after)

  written-Counted :
      (disk : Disk) (c : Calls) (maximum : ℕ) (file : Text) (c' : Calls) (disk' : Disk) (n : ℕ)
      (w : Option FileIdentity × Disk)
      → write_counter files disk c file (decimal_line (c.call_count + 1)) ≡ w
      → c.max_calls ≡ some maximum
      → c.counter_file ≡ some file
      → c.call_count < maximum
      → count_written files c w ≡ ((c', disk'), ok n)
      → Counted c maximum file disk c' disk' n
  unfolding count_written
  written-Counted disk c maximum file c' disk' n (none, d) e limit named room h =
      absurd (ground arith)
  written-Counted disk c maximum file c' disk' n (some i, d) e limit named room h =
      let number : c.call_count + 1 ≡ n =
        ground (arith, ap (λ (x : (Calls × Disk) × Result ℕ). x.1) h) in
      let state = ap (λ (x : (Calls × Disk) × Result ℕ). x.0.0) h in
      let disks : d ≡ disk' = ap (λ (x : (Calls × Disk) × Result ℕ). x.0.1) h in
      record {
        bound = limit;
        counts_into = named;
        number = sym number;
        within = omega arith;
        same_limit = sym (ap (λ (x : Calls). x.max_calls) state) ∙ limit;
        same_file = sym (ap (λ (x : Calls). x.counter_file) state) ∙ named;
        count = sym (ap (λ (x : Calls). x.call_count) state) ∙ number;
        identity = i;
        keeps =
            sym (ap (λ (x : Calls). x.counter) state)
            ∙ ap (λ (x : ℕ). some (i, decimal_line x)) number;
        writes =
            subst (λ (x : ℕ). write_counter files disk c file (decimal_line x) ≡ (some i, disk'))
              number (e ∙ ap (λ (x : Disk). (some i, x)) disks);
      }

  count_call-Counted :
      (disk : Disk) (c : Calls) (maximum : ℕ) (file : Text) (c' : Calls) (disk' : Disk) (n : ℕ)
      → count_call files disk c maximum file ≡ ((c', disk'), ok n)
      → Counted c maximum file disk c' disk' n
  unfolding count_call
  count_call-Counted disk c maximum file c' disk' n e = go c.max_calls refl
    where
      go : (m : Option ℕ) → c.max_calls ≡ m → Counted c maximum file disk c' disk' n
      go none e1 = absurd (cc (rw (e1, count_call) at e))
      go (some b) e1 =
          elim (Bool-cases (not (b == maximum) || not (is_some_text c.counter_file file))) [
            | inl changed ↦ absurd (cc (rw (e1, changed, count_call) at e))
            | inr same ↦ elim (Bool-cases (leb maximum c.call_count)) [
              | inl spent ↦ absurd (cc (rw (e1, same, spent, count_call) at e))
              | inr left ↦
                  let limit : b ≡ maximum = ground arith in
                  written-Counted disk c maximum file c' disk' n _ refl (e1 ∙ ap some limit)
                    (eq_of_is_some_text c.counter_file file (ground arith)) (ground arith)
                    (rw (e1, same, left, count_call) at e)
            ]
          ]

  -- The configuration that an allocation binds, or finds bound.
  bind_calls-bound :
      (disk : Disk) (c : Calls) (maximum seed : ℕ) (file : Text) (bound : ℕ)
      → c.max_calls ≡ some bound
      → bind_calls files disk c maximum seed file ≡ (c, ok tt)
  unfolding bind_calls
  bind_calls-bound disk c maximum seed file bound e = simp (bind_calls, e)

  -- Once the limit is bound, an allocation that succeeds has written the next number.
  pub allocate_call-Counted :
      (disk : Disk) (c : Calls) (r : Request) (bound : ℕ) (c' : Calls) (disk' : Disk) (n : ℕ)
      → c.max_calls ≡ some bound
      → allocate_call files disk c r ≡ ((c', disk'), ok n)
      → (file : Text) × Counted c bound file disk c' disk' n
  unfolding allocate_call
  allocate_call-Counted disk c r bound c' disk' n e h = elim (Result-cases (call_inputs files r)) [
    | inr (f, threw) ↦ absurd (ground arith)
    | inl ((maximum, seed, file), given) ↦
        let counted =
          count_call-Counted disk c maximum file c' disk' n
            (rw (given, allocate_call, bind_calls-bound disk c maximum seed file bound e) at h) in
        let limit : maximum ≡ bound = ground (arith, counted.bound) in
        (file, subst (λ (m : ℕ). Counted c m file disk c' disk' n) limit counted)
  ]

  written_refused :
      (c : Calls) (w : Option FileIdentity × Disk) (x : Calls × Disk) (f : Failure)
      → count_written files c w ≡ (x, err f)
      → x.0 ≡ c
  unfolding count_written
  written_refused c (none, d) x f e = ground arith
  written_refused c (some i, d) x f e = absurd (ground arith)

  count_call_refused :
      (disk : Disk) (c : Calls) (maximum : ℕ) (file : Text) (x : Calls × Disk) (f : Failure)
      → count_call files disk c maximum file ≡ (x, err f)
      → x.0 ≡ c
  unfolding count_call
  count_call_refused disk c maximum file x f e = go c.max_calls refl
    where
      go : (m : Option ℕ) → c.max_calls ≡ m → x.0 ≡ c
      go none e1 = ground arith
      go (some b) e1 =
          elim (Bool-cases (not (b == maximum) || not (is_some_text c.counter_file file))) [
            | inl changed ↦ ground arith
            | inr same ↦ elim (Bool-cases (leb maximum c.call_count)) [
              | inl spent ↦ ground arith
              | inr left ↦ written_refused c _ x f (rw (e1, same, left, count_call) at e)
            ]
          ]

  -- A refused allocation does not change the accounting.
  allocate_call_refused :
      (disk : Disk) (c : Calls) (r : Request) (bound : ℕ) (x : Calls × Disk) (f : Failure)
      → c.max_calls ≡ some bound
      → allocate_call files disk c r ≡ (x, err f)
      → x.0 ≡ c
  unfolding allocate_call
  allocate_call_refused disk c r bound x f e h = elim (Result-cases (call_inputs files r)) [
    | inr (g, threw) ↦
        sym (ap (λ (y : (Calls × Disk) × Result ℕ). y.0.0) (rw (threw, allocate_call) at h))
    | inl ((maximum, seed, file), given) ↦
        count_call_refused disk c maximum file x f
          (rw (given, allocate_call, bind_calls-bound disk c maximum seed file bound e) at h)
  ]

  abbrev collect : Result ℕ → List ℕ → List ℕ
  collect (ok n) ns = n ∷ ns
  collect (err f) ns = ns

  -- The numbers that a run of allocation requests hands out, in order.
  unfoldable pub allocations : Disk → Calls → List Request → List ℕ
  allocations disk c [] = []
  allocations disk c (r ∷ rs) =
      let out = allocate_call files disk c r in collect out.1 (allocations out.0.1 out.0.0 rs)

-- The numbers after `k`, one by one, none above `limit`.
abbrev pub Follows : ℕ → ℕ → List ℕ → Type 0
Follows k limit [] = Unit {0}
Follows k limit (n ∷ ns) = (n ≡ k + 1) × (n ≤ limit) × Follows n limit ns

module _ (files : CounterFiles) where
  open files use {Disk}

  -- Once a limit is bound, the numbers that a run of allocation requests hands out are consecutive
  -- from the count so far, and none exceeds the limit, with refusals in between and with writes
  -- that throw, whatever these leave on the disk, before others succeed.
  pub allocations-Follows :
      (rs : List Request) (disk : Disk) (c : Calls) (bound : ℕ)
      → c.max_calls ≡ some bound
      → Follows c.call_count bound (allocations files disk c rs)
  unfolding allocations
  allocations-Follows [] disk c bound e = tt
  allocations-Follows (r ∷ rs) disk c bound e =
      go (allocate_call files disk c r) refl (allocations-Follows rs)
    where
      go :
          (out : (Calls × Disk) × Result ℕ)
          → allocate_call files disk c r ≡ out
          → ((disk' : Disk) (c' : Calls) (limit : ℕ)
              → c'.max_calls ≡ some limit
              → Follows c'.call_count limit (allocations files disk' c' rs))
          → Follows c.call_count bound (collect files out.1 (allocations files out.0.1 out.0.0 rs))
      go ((c', disk'), ok n) h rest =
          let (file, counted) = allocate_call-Counted files disk c r bound c' disk' n e h in
          (
            counted.number,
            counted.within,
            subst (λ (k : ℕ). Follows k bound (allocations files disk' c' rs)) counted.count
                (rest disk' c' bound counted.same_limit),
          )
      go ((c', disk'), err f) h rest =
          let calls : c' ≡ c = allocate_call_refused files disk c r bound (c', disk') f e h in
          subst (λ (k : ℕ). Follows k bound (allocations files disk' c' rs))
            (ap (λ (x : Calls). x.call_count) calls)
            (rest disk' c' bound (ap (λ (x : Calls). x.max_calls) calls ∙ e))
