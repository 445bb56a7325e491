-- ===== src/Startup.antt =====
-- The entry points of a translated program: lib/core/stc.cpp for the console, lib/core/stcQT.cpp
-- and lib/core/stwQT.cpp for Qt, lib/core/stw.cpp for wx.
pub mod Laws
use kaya_basic.Base.{
  ℕ, suc, ◌+◌, ◌-◌, Bool, true, false, List, [], ◌∷◌, ◌++◌, length, Bytes, codes, Exception,
  Outcome, ok, throws, undefined, text, ◌>>=◌,
}
use kaya_basic.Array.{Array, array, redim1}
use kaya_basic.Array.Fill.{put_all}
use kaya_basic.Cpp.Int.{ℤ, pos, negsuc, ◌-ℤ◌}
use kaya_basic.Debug.{Stacks, Thread, dbg_callstack}

-- What the user sees: lines on the console, or a message box.
pub data Shown : Type 0 where
  line : Bytes → Shown
  box : Bytes → Shown

-- What an entry point comes to: the process ends with a status, or, under wx, the event loop of the
-- library is entered.
pub data Started {ℓ} (W : Type ℓ) : Type ℓ where
  exited : List Shown → ℤ → Started W
  entered : W → Started W

-- The translated program on a state `W`. Each of its functions returns or throws, and leaves a
-- state either way. `stacks` is what the debugger knows in a state; `print_int` is `sprintf("%d")`,
-- and `exec` the event loop of Qt.
pub record Program : Type 1 where
  pub W : Type 0
  pub start : Array Bytes → W
  pub init_all : W → W × Outcome (Unit {0})
  pub main : W → W × Outcome (Unit {0})
  pub final_all : W → W × Outcome (Unit {0})
  pub exec : W → ℤ
  pub stacks : W → Stacks
  pub print_int : ℤ → Bytes

-- `Command.redim(0, argc - 1)`, and the loop that writes the arguments.
unfoldable pub command_of : List Bytes → Outcome (Array Bytes)
unfolding ◌-ℤ◌
command_of argv = put_all 0 argv (redim1 [] (pos 0) (pos (length argv) -ℤ pos 1) (array []))

-- One function after another; what is thrown leaves the state as it is then.
abbrev pub then_run {ℓ} :
    {W : Type ℓ} → (W → W × Outcome (Unit {0})) → W × Outcome (Unit {0}) → W × Outcome (Unit {0})
then_run k (w, ok _) = k w
then_run k (w, throws e) = (w, throws e)
then_run k (w, undefined) = (w, undefined)

-- The text that is passed to `abort_with_error`: `catch (string s)` and `catch (...)`.
unfoldable pub message : Exception → Bytes
message (text s) = s
message _ = codes "Unknown error"

module _ (p : Program) where
  open p use {W, start, init_all, main, final_all, exec, stacks, print_int}

  -- The `try` block.
  unfoldable pub body : W → W × Outcome (Unit {0})
  body w = then_run final_all (then_run main (init_all w))

  -- `dbg_callstack` on the main thread.
  unfoldable pub callstack : W → Outcome Bytes
  callstack w = dbg_callstack print_int 0 (stacks w)

  -- `abort_with_error` and `term_func` on the console; `exit(-1)` ends the process.
  unfoldable pub abort_on_console : Bytes → W → Outcome (Started W)
  abort_on_console s w = do
    trace ← callstack w
    ok (exited (line (codes "Error: " ++ s) ∷ line trace ∷ []) (negsuc 0))

  unfoldable pub terminate_on_console : W → Outcome (Started W)
  terminate_on_console w = do
    trace ← callstack w
    ok (exited (line (codes "(terminate)Unknown error") ∷ line trace ∷ []) (negsuc 0))

  -- The same in a message box, of wx or of Qt.
  unfoldable pub abort_in_box : Bytes → W → Outcome (Started W)
  abort_in_box s w = do
    trace ← callstack w
    ok (exited (box (codes "Error: " ++ s ++ codes "\n" ++ trace) ∷ []) (negsuc 0))

  unfoldable pub terminate_in_box : W → Outcome (Started W)
  terminate_in_box w = do
    trace ← callstack w
    ok (exited (box (codes "(terminate)Unknown error\n" ++ trace) ∷ []) (negsuc 0))

  -- The `try` statement: what comes behind it, or how the program is aborted.
  unfoldable pub guarded :
      (Bytes → W → Outcome (Started W)) → (W → Started W) → W → Outcome (Started W)
  guarded abort behind w =
      let (w', result) = body w in
      elim result [
        | ok _ ↦ ok (behind w')
        | throws e ↦ abort (message e) w'
        | undefined ↦ undefined
      ]

  -- stc.cpp, and stcQT.cpp.
  unfoldable pub main_console : List Bytes → Outcome (Started W)
  main_console argv = do
    command ← command_of argv
    guarded abort_on_console (λ w. exited [] (pos 0)) (start command)

  -- `args` is what `QCoreApplication` leaves of the arguments.
  unfoldable pub main_qt_console : (List Bytes → List Bytes) → List Bytes → Outcome (Started W)
  main_qt_console args argv = do
    command ← command_of (args argv)
    guarded abort_on_console (λ w. exited [] (pos 0)) (start command)

  -- stwQT.cpp, which enters the event loop itself.
  unfoldable pub main_qt : (List Bytes → List Bytes) → List Bytes → Outcome (Started W)
  main_qt args argv = do
    command ← command_of (args argv)
    guarded abort_in_box (λ w. exited [] (exec w)) (start command)

  -- stw.cpp, whose `OnInit` returns true.
  unfoldable pub on_init : List Bytes → Outcome (Started W)
  on_init argv = do command ← command_of argv; guarded abort_in_box (λ w. entered w) (start command)
