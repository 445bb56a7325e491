-- ===== src/Files/Laws.antt =====
-- Which number `FreeFile` gives, and what closing leaves open.
use kaya_basic.Base.{
  ℕ, zero, suc, ◌+◌, ◌-◌, ◌≤◌, ◌<◌, ◌≢◌, ◌≡◌, ◌⊎◌, inl, inr, refl, sym, ap, ◌∙◌, arith, true, false,
  Option, none, some, Option-cases, ℕ_discrete, subst, leb, ltb, ◌&&◌, ◌∷◌, ◌==◌, if◌then◌else◌,
  Bytes, ok,
}
use kaya_basic.Cpp.Int.{pos}
use kaya_basic.Files.{
  State, Stream, max_open_files, update, file_open, close_one, close_from, file_close, free_from,
  free_file, file_get_object,
}

free_from-free :
    (k fn : ℕ) (s : State)
    → free_from k fn s ≢ 0
    → (s.open_files (free_from k fn s) ≡ none)
      × (fn ≤ free_from k fn s)
      × (free_from k fn s < fn + k)
unfolding free_from
free_from-free zero fn s h = absurd (h refl)
free_from-free (suc k) fn s h = ground (arith, free_from-free k (suc fn) s)

free_from-first :
    (k fn j : ℕ) (s : State)
    → (free_from k fn s ≡ 0) ⊎ (j < free_from k fn s)
    → fn ≤ j
    → j < fn + k
    → 0 < fn
    → s.open_files j ≢ none
unfolding free_from
free_from-first zero fn j s h le lt p = absurd (omega arith)
free_from-first (suc k) fn j s h le lt p = elim (ℕ_discrete fn j) [
  | yes here ↦ subst (λ i. s.open_files i ≢ none) here (λ closed. absurd (ground arith))
  | no later ↦ λ closed. ground (arith, free_from-first k (suc fn) j s)
]

-- A number that `FreeFile` gives is free and in `1 .. 511`.
pub free_file-free :
    (s : State)
    → free_file s ≢ 0
    → (s.open_files (free_file s) ≡ none) × (1 ≤ free_file s) × (free_file s < max_open_files)
unfolding free_file
free_file-free s h = free_from-free (max_open_files - 1) 1 s h

-- Every number from 1 on below the one that `FreeFile` gives is in use; when it gives 0, all of
-- `1 .. 511` are.
pub free_file-first :
    (s : State) (j : ℕ)
    → (free_file s ≡ 0) ⊎ (j < free_file s)
    → 1 ≤ j
    → j < max_open_files
    → s.open_files j ≢ none
unfolding free_file
free_file-first s j h le lt = free_from-first (max_open_files - 1) 1 j s h le lt (omega arith)

-- The state behind `close_one` of an open number.
abbrev pub one_closed : ℕ → Stream → State → State
one_closed fn f s = record s { open_files = update s.open_files fn none; closed = f ∷ s.closed }

-- The state behind `file_open` of a number of the table.
abbrev pub opened : ℕ → State → State
opened fn s = record s { open_files = update s.open_files fn (some s.next); next = suc s.next }

file_open-opened :
    (s : State) (filename : Bytes) (n : ℕ)
    → n ≢ 0
    → n < max_open_files
    → file_open filename false (pos n) s ≡ (opened n s, ok tt)
unfolding file_open
file_open-opened s filename n h lt = ground arith

close_one-opened :
    (s : State) (n : ℕ) → close_one n (opened n s) ≡ ok (one_closed n s.next (opened n s))
unfolding close_one
close_one-opened s n = ground arith

file_close-opened :
    (s : State) (n : ℕ)
    → n ≢ 0
    → n < max_open_files
    → file_close (pos n) (opened n s) ≡ ok (one_closed n s.next (opened n s))
unfolding file_close
file_close-opened s n h lt =
    let is_not_zero : (n == 0) ≡ false = ground arith in
    let is_below : ltb n max_open_files ≡ true = ground arith in
    rw (is_not_zero, is_below, close_one-opened s n)

-- When `FreeFile` gives a number, opening a file that can be opened succeeds under it and the
-- number then gives the new stream; closing the number closes that stream and gives the table of
-- before back.
pub file_open-free_file :
    (s : State) (filename : Bytes) (j : ℕ)
    → free_file s ≢ 0
    → let n = free_file s in
      let s' = opened n s in
      let s'' = one_closed n s.next s' in
      (file_open filename false (pos n) s ≡ (s', ok tt))
      × (file_get_object (pos n) s' ≡ ok (some s.next))
      × (file_close (pos n) s' ≡ ok s'')
      × (s''.open_files j ≡ s.open_files j)
unfolding file_get_object
file_open-free_file s filename j h =
    let (free, le, lt) = free_file-free s h in
    (
      file_open-opened s filename (free_file s) h lt,
      ground arith,
      file_close-opened s (free_file s) h lt,
      elim (ℕ_discrete j (free_file s)) [
        | yes e ↦ ground (arith, ap s.open_files e)
        | no other ↦ ground arith
      ],
    )

module _ (k fn : ℕ) (s : State) where
  pub close_from-skip : s.open_files fn ≡ none → close_from (suc k) fn s ≡ close_from k (suc fn) s
  unfolding close_from
  close_from-skip e = ground arith

  pub close_from-step :
      (f : Stream)
      → s.open_files fn ≡ some f
      → close_from (suc k) fn s ≡ close_from k (suc fn) (one_closed fn f s)
  unfolding close_from close_one
  close_from-step f e = ground arith

close_from-ok : (k fn : ℕ) (s : State) → (s' : State) × (close_from k fn s ≡ ok s')
close_from-ok zero fn s = unfold close_from in (s, refl)
close_from-ok (suc k) fn s = elim (Option-cases (s.open_files fn)) [
  | inl e ↦ let (s', r) = close_from-ok k (suc fn) s in (s', close_from-skip k fn s e ∙ r)
  | inr (f, e) ↦
      let (s', r) = close_from-ok k (suc fn) (one_closed fn f s) in
      (s', close_from-step k fn s f e ∙ r)
]

-- Of the numbers from `fn` on, the first is done.
first_free :
    (fn k j : ℕ) (here : Option Stream)
    → (fn ≡ j → here ≡ none)
    → (if leb (suc fn) j && ltb j (suc fn + k) then none else here)
      ≡ (if leb fn j && ltb j (fn + suc k) then none else here)
first_free fn k j here h = elim (ℕ_discrete fn j) [
  | yes e ↦ ground (arith, h e)
  | no n ↦ ground arith
]

first_closed :
    (fn k j : ℕ) (table : ℕ → Option Stream)
    → (if leb (suc fn) j && ltb j (suc fn + k) then none else update table fn none j)
      ≡ (if leb fn j && ltb j (fn + suc k) then none else table j)
first_closed fn k j table = elim (ℕ_discrete j fn) [ yes e ↦ ground arith | no n ↦ ground arith ]

close_from-open_files :
    (k fn j : ℕ) (s s' : State)
    → close_from k fn s ≡ ok s'
    → s'.open_files j ≡ (if leb fn j && ltb j (fn + k) then none else s.open_files j)
close_from-open_files zero fn j s s' r = unfold close_from in ground arith
close_from-open_files (suc k) fn j s s' r = elim (Option-cases (s.open_files fn)) [
  | inl e ↦
      close_from-open_files k (suc fn) j s s' (sym (close_from-skip k fn s e) ∙ r)
      ∙ first_free fn k j (s.open_files j) (λ here. ap s.open_files (sym here) ∙ e)
  | inr (f, e) ↦
      close_from-open_files k (suc fn) j (one_closed fn f s) s'
        (sym (close_from-step k fn s f e) ∙ r)
      ∙ first_closed fn k j s.open_files
]

-- `FileClose(0)` ends, closes every number in `1 .. 511` and leaves the rest of the table alone.
pub file_close-zero :
    (s : State) (j : ℕ)
    → (s' : State) × (file_close (pos 0) s ≡ ok s')
      × (s'.open_files j ≡ (if leb 1 j && ltb j max_open_files then none else s.open_files j))
unfolding file_close
file_close-zero s j =
    let (s', r) = close_from-ok (max_open_files - 1) 1 s in
    (s', r, close_from-open_files (max_open_files - 1) 1 j s s' r)
