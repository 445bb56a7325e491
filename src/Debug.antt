-- ===== src/Debug.antt =====
-- The call stack for debugging of lib/core/core.cpp: `dbg_func`, `dbg_line`, `dbg_endfunc`,
-- `dbg_getline`, `dbg_getfunc` and `dbg_callstack`, with the thread as an argument.
pub mod Ends
pub mod Refine
use kaya_basic.Base.{
  ℕ, zero, suc, ◌+◌, ◌-◌, Bool, true, false, Option, none, some, List, [], ◌∷◌, ◌++◌, ◌==◌,
  if◌then◌else◌, length, get_elem?, set, take, Bytes, codes, Outcome, ok, throws, undefined, ◌>>=◌,
}
use kaya_basic.Cpp.Int.{ℤ, pos}

abbrev pub Thread : Type 0
Thread = ℕ

-- `dbg_funcs` and `dbg_lines`; a thread that the maps do not hold has an empty vector.
pub record Stacks : Type 0 where
  pub funcs : Thread → List Bytes
  pub lines : Thread → List ℤ

abbrev pub put_thread {ℓ} : {A : Type ℓ} → (Thread → A) → Thread → A → Thread → A
put_thread m t v u = if u == t then v else m u

module _ {A : Type 0} where
  -- `back()`, without a defined result on an empty vector.
  unfoldable pub back : List A → Outcome A
  back xs = elim (get_elem? xs (length xs - 1)) [ some x ↦ ok x | none ↦ undefined ]

  unfoldable pub set_back : List A → A → Outcome (List A)
  set_back xs x = if length xs == 0 then undefined else ok (set xs (length xs - 1) x)

  unfoldable pub pop_back : List A → Outcome (List A)
  pop_back xs = if length xs == 0 then undefined else ok (take (length xs - 1) xs)

  -- `v[idx]`
  unfoldable pub index : List A → ℕ → Outcome A
  index xs i = elim (get_elem? xs i) [ some x ↦ ok x | none ↦ undefined ]

unfoldable pub dbg_line : Thread → ℤ → Stacks → Outcome Stacks
dbg_line t n s = do ls ← set_back (s.lines t) n; ok (record s { lines = put_thread s.lines t ls })

unfoldable pub dbg_getline : Thread → Stacks → Outcome ℤ
dbg_getline t s = if length (s.lines t) == 0 then ok (pos 0) else back (s.lines t)

unfoldable pub dbg_getfunc : Thread → Stacks → Outcome Bytes
dbg_getfunc t s = if length (s.funcs t) == 0 then ok (codes "nothing") else back (s.funcs t)

unfoldable pub dbg_func : Thread → Bytes → Stacks → Stacks
dbg_func t f s = record {
  funcs = put_thread s.funcs t (s.funcs t ++ f ∷ []);
  lines = put_thread s.lines t (s.lines t ++ pos 0 ∷ []);
}

unfoldable pub dbg_endfunc : Thread → Stacks → Outcome Stacks
dbg_endfunc t s = do
  fs ← pop_back (s.funcs t)
  ls ← pop_back (s.lines t)
  ok (record { funcs = put_thread s.funcs t fs; lines = put_thread s.lines t ls })

-- `print_int` is `sprintf("%d")`.
module _ (print_int : ℤ → Bytes) where
  -- What a round of `dbg_callstack` appends.
  unfoldable pub frame_text : Bool → Bytes → ℤ → Bytes
  frame_text innermost func line =
      (if innermost then codes "    raised" else codes ",\r\n    called")
      ++ codes " by "
      ++ func
      ++ codes "() at line #"
      ++ print_int line

  -- The loop from `idx = k - 1` down to 0, of `size` frames.
  unfoldable pub callstack_from : ℕ → ℕ → List Bytes → List ℤ → Bytes → Outcome Bytes
  callstack_from size zero fs ls err = ok err
  callstack_from size (suc k) fs ls err = do
    line ← index ls k
    func ← index fs k
    callstack_from size k fs ls (err ++ frame_text (suc k == size) func line)

  unfoldable pub dbg_callstack : Thread → Stacks → Outcome Bytes
  dbg_callstack t s =
      callstack_from (length (s.funcs t)) (length (s.funcs t)) (s.funcs t) (s.lines t) []
