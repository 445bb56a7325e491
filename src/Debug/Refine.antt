-- ===== src/Debug/Refine.antt =====
-- The two vectors of a thread are a stack of frames, and the printed call stack is that stack.
use kaya_basic.Base.{
  ℕ, suc, ◌≤◌, ◌≢◌, ◌≡◌, refl, sym, ap, subst, ◌∙◌, arith, Bool, true, false, Option, Option-cases,
  none, some, inl, inr, List, [], ◌∷◌, ◌++◌, ◌==◌, length, length-append, append_assoc, append-nil,
  Bytes, Outcome, ok, ◌>>=◌,
}
use mathlib.Core.Option.{some-injective}
use kaya_basic.Cpp.Int.{ℤ, pos}
use kaya_basic.Debug.Ends.{set_back-snoc, pop_back-snoc, index-middle}
use kaya_basic.Debug.{
  Thread, Stacks, put_thread, index, dbg_line, dbg_func, dbg_endfunc, frame_text, callstack_from,
  dbg_callstack,
}

-- A function and its current line.
pub record Frame : Type 0 where
  pub func : Bytes
  pub line : ℤ

-- The vectors of a stack of frames, the innermost frame first.
abbrev pub names : List Frame → List Bytes
names [] = []
names (f ∷ fs) = names fs ++ f.func ∷ []

abbrev pub numbers : List Frame → List ℤ
numbers [] = []
numbers (f ∷ fs) = numbers fs ++ f.line ∷ []

length-names : (fs : List Frame) → length (names fs) ≡ length fs
length-names [] = refl
length-names (f ∷ fs) = omega (arith, length-append (names fs) (f.func ∷ []), length-names fs)

length-numbers : (fs : List Frame) → length (numbers fs) ≡ length fs
length-numbers [] = refl
length-numbers (f ∷ fs) = omega (arith, length-append (numbers fs) (f.line ∷ []), length-numbers fs)

-- The vectors of thread `t` are the stack `fs`.
pub record Represents (t : Thread) (s : Stacks) (fs : List Frame) : Type 0 where
  pub at_funcs : s.funcs t ≡ names fs
  pub at_lines : s.lines t ≡ numbers fs

-- A program tells the debugger that a function begins, that it is at a line, and that it ends.
pub data Event : Type 0 where
  enter : Bytes → Event
  at_line : ℤ → Event
  leave : Event

abbrev pub play_one : Event → List Frame → Option (List Frame)
play_one (enter f) fs = some (record { func = f; line = pos 0 } ∷ fs)
play_one (at_line n) [] = none
play_one (at_line n) (f ∷ fs) = some (record f { line = n } ∷ fs)
play_one leave [] = none
play_one leave (f ∷ fs) = some fs

unfoldable pub run_one : Thread → Event → Stacks → Outcome Stacks
run_one t (enter f) s = ok (dbg_func t f s)
run_one t (at_line n) s = dbg_line t n s
run_one t leave s = dbg_endfunc t s

pub run : Thread → List Event → Stacks → Outcome Stacks
run t [] s = ok s
run t (e ∷ es) s = run_one t e s >>= run t es

abbrev pub play : List Event → List Frame → Option (List Frame)
play [] fs = some fs
play (e ∷ es) fs = elim (play_one e fs) [ none ↦ none | some fs' ↦ play es fs' ]

-- Thread `u` has the same vectors in both states.
abbrev pub SameAt : Thread → Stacks → Stacks → Type 0
SameAt u s s' = (s'.funcs u ≡ s.funcs u) × (s'.lines u ≡ s.lines u)

put_self : {A : Type 0} (m : Thread → A) (t : Thread) (v : A) → put_thread m t v t ≡ v
put_self m t v = ground arith

put_other : {A : Type 0} (m : Thread → A) (t u : Thread) (v : A) → u ≢ t → put_thread m t v u ≡ m u
put_other m t u v ne = ground arith

-- Both vectors of thread `t` replaced.
abbrev replaced : Thread → List Bytes → List ℤ → Stacks → Stacks
replaced t fs ls s = record { funcs = put_thread s.funcs t fs; lines = put_thread s.lines t ls }

replaced-Represents :
    (t u : Thread) (s : Stacks) (fs fs' : List Frame)
    → u ≢ t
    → some fs ≡ some fs'
    → Represents t (replaced t (names fs) (numbers fs) s) fs'
      × SameAt u s (replaced t (names fs) (numbers fs) s)
replaced-Represents t u s fs fs' ne e = (
  subst (Represents t (replaced t (names fs) (numbers fs) s)) (some-injective _ _ e) (record {
    at_funcs = put_self s.funcs t (names fs);
    at_lines = put_self s.lines t (numbers fs);
  }),
  (put_other s.funcs t u (names fs) ne, put_other s.lines t u (numbers fs) ne),
)

line_moved :
    (t u : Thread) (n : ℤ) (s : Stacks) (f : Frame) (fs fs' : List Frame)
    → u ≢ t
    → Represents t s (f ∷ fs)
    → some (record f { line = n } ∷ fs) ≡ some fs'
    → let s' = record s { lines = put_thread s.lines t (numbers fs ++ n ∷ []) } in
      Represents t s' fs' × SameAt u s s'
line_moved t u n s f fs fs' ne r e =
    let s' : Stacks = record s { lines = put_thread s.lines t (numbers fs ++ n ∷ []) } in
    (
      subst (Represents t s') (some-injective _ _ e)
          (record { at_funcs = r.at_funcs; at_lines = put_self s.lines t (numbers fs ++ n ∷ []) }),
      (refl, put_other s.lines t u (numbers fs ++ n ∷ []) ne),
    )

run_one-Represents :
    (t u : Thread) (e : Event) (s : Stacks) (fs fs' : List Frame)
    → u ≢ t
    → Represents t s fs
    → play_one e fs ≡ some fs'
    → (s' : Stacks) × (run_one t e s ≡ ok s') × Represents t s' fs' × SameAt u s s'
unfolding run_one dbg_func dbg_endfunc
run_one-Represents t u (enter f) s fs fs' ne r p =
    let (r', same) = replaced-Represents t u s (record { func = f; line = pos 0 } ∷ fs) fs' ne p in
    (
      replaced t (names fs ++ f ∷ []) (numbers fs ++ pos 0 ∷ []) s,
      rw (r.at_funcs, r.at_lines) refl,
      r',
      same,
    )
run_one-Represents t u (at_line n) s [] fs' ne r p = ground arith
run_one-Represents t u (at_line n) s (f ∷ fs) fs' ne r p =
    let (r', same) = line_moved t u n s f fs fs' ne r p in
    (
      record s { lines = put_thread s.lines t (numbers fs ++ n ∷ []) },
      unfold dbg_line in rw (r.at_lines, set_back-snoc (numbers fs) f.line n) refl,
      r',
      same,
    )
run_one-Represents t u leave s [] fs' ne r p = ground arith
run_one-Represents t u leave s (f ∷ fs) fs' ne r p =
    let (r', same) = replaced-Represents t u s fs fs' ne p in
    (
      replaced t (names fs) (numbers fs) s,
      rw
          (
            r.at_funcs,
            r.at_lines,
            pop_back-snoc (names fs) f.func,
            pop_back-snoc (numbers fs) f.line,
          )
          refl,
      r',
      same,
    )

module _ (print_int : ℤ → Bytes) where
  -- The frames in words, from the innermost to the outermost.
  unfoldable pub trace : Bool → List Frame → Bytes
  trace innermost [] = []
  trace innermost (f ∷ fs) = frame_text print_int innermost f.func f.line ++ trace false fs

  callstack_from-trace :
      (size : ℕ) (fs : List Frame) (funcs : List Bytes) (lines : List ℤ) (err : Bytes)
      → length fs ≤ size
      → callstack_from print_int size (length fs) (names fs ++ funcs) (numbers fs ++ lines) err
        ≡ ok (err ++ trace (length fs == size) fs)
  unfolding callstack_from trace
  callstack_from-trace size [] funcs lines err h = ap ok (sym (append-nil err))
  callstack_from-trace size (f ∷ fs) funcs lines err h =
      rw
        (
          append_assoc (names fs) (f.func ∷ []) funcs,
          append_assoc (numbers fs) (f.line ∷ []) lines,
          index_number,
          index_name,
        )
        (callstack_from-trace size fs (f.func ∷ funcs) (f.line ∷ lines)
            (err ++ frame_text print_int (suc (length fs) == size) f.func f.line) (omega arith)
          ∙ rw (inner, append_assoc err) refl)
    where
      inner : (length fs == size) ≡ false
      inner = ground arith

      index_number : index (numbers fs ++ f.line ∷ lines) (length fs) ≡ ok f.line
      index_number =
          subst (λ k. index (numbers fs ++ f.line ∷ lines) k ≡ ok f.line) (length-numbers fs)
            (index-middle (numbers fs) f.line lines)

      index_name : index (names fs ++ f.func ∷ funcs) (length fs) ≡ ok f.func
      index_name =
          subst (λ k. index (names fs ++ f.func ∷ funcs) k ≡ ok f.func) (length-names fs)
            (index-middle (names fs) f.func funcs)

  -- `dbg_callstack` has a defined result on every thread whose vectors are a stack of frames, and
  -- prints the frames from the innermost to the outermost.
  pub dbg_callstack-trace :
      (t : Thread) (s : Stacks) (fs : List Frame)
      → Represents t s fs
      → dbg_callstack print_int t s ≡ ok (trace true fs)
  unfolding dbg_callstack
  dbg_callstack-trace t s fs r =
      let raw = callstack_from-trace (length fs) fs [] [] [] (omega arith) in
      let all = rw (append-nil (names fs), append-nil (numbers fs)) at raw in
      let innermost : (length fs == length fs) ≡ true = ground arith in
      rw (r.at_funcs, r.at_lines, length-names fs, ← innermost) all

-- If the events never leave a function or tell a line outside every function, the code runs through
-- them with a defined result, the vectors of the thread are then the stack that the events leave,
-- and another thread has the vectors it had.
pub run-Represents :
    (t u : Thread) (es : List Event) (s : Stacks) (fs fs' : List Frame)
    → u ≢ t
    → Represents t s fs
    → play es fs ≡ some fs'
    → (s' : Stacks) × (run t es s ≡ ok s') × Represents t s' fs' × SameAt u s s'
unfolding run
run-Represents t u [] s fs fs' ne r p =
    (s, refl, subst (Represents t s) (some-injective _ _ p) r, (refl, refl))
run-Represents t u (e ∷ es) s fs fs' ne r p = elim (Option-cases (play_one e fs)) [
  | inl stuck ↦ ground arith
  | inr (g, next) ↦
      let (s1, q1, r1, (f1, l1)) = run_one-Represents t u e s fs g ne r next in
      let p' : play es g ≡ some fs' = ground arith in
      let (s2, q2, r2, (f2, l2)) = run-Represents t u es s1 g fs' ne r1 p' in
      (s2, rw q1 q2, r2, (f2 ∙ f1, l2 ∙ l1))
]
