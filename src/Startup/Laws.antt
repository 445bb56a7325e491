-- ===== src/Startup/Laws.antt =====
-- What `Command` holds, and what an error shows.
use kaya_basic.Base.{
  ℕ, ◌-◌, ◌^◌, ◌%◌, ◌<◌, ◌≢◌, ◌≡◌, refl, ◌∙◌, arith, true, false, List, [], ◌∷◌, ◌++◌, length,
  length-ne-zero, drop_all, replicate, take-nil, length-replicate, append-nil, Bytes, codes,
  Exception, Outcome, ok, throws, text, literal, out_of_range, length_error, sym,
}
use kaya_basic.Array.{Array, no_dim, array, redim1, resize, size}
use kaya_basic.Array.Redim.{bounds-from_zero}
use kaya_basic.Array.Fill.{put_all-append}
use kaya_basic.Cpp.Int.{pos, negsuc, ◌-ℤ◌, pos-sub-pos}
use kaya_basic.Debug.{dbg_callstack}
use kaya_basic.Debug.Refine.{Frame, Represents, trace, dbg_callstack-trace}
use kaya_basic.Startup.{
  Program, Started, exited, entered, line, box, command_of, message, body, callstack,
  abort_on_console, abort_in_box, guarded, main_console, main_qt_console, main_qt, on_init,
}

-- The array from 0 on that holds the arguments.
abbrev pub args_array : List Bytes → Array Bytes
args_array args = record {
  preserve = false;
  items = args;
  dim1 = record { lo = pos 0; hi = pos (length args - 1); d = pos (length args) };
  dim2 = no_dim;
  dim3 = no_dim;
  dim4 = no_dim;
}

-- `Command` before the loop.
abbrev room : ℕ → Array Bytes
room n = record {
  preserve = false;
  items = replicate n [];
  dim1 = record { lo = pos 0; hi = pos (n - 1); d = pos n };
  dim2 = no_dim;
  dim3 = no_dim;
  dim4 = no_dim;
}

room_lem :
    (n : ℕ)
    → n ≢ 0
    → n < 2 ^ 63
    → redim1 {A = Bytes} [] (pos 0) (pos n -ℤ pos 1) (array []) ≡ room n
unfolding redim1 array size resize
room_lem n ne b =
    let wide : n % 2 ^ 64 ≡ n = omega arith in
    let all : n - 0 ≡ n = omega arith in
    rw (pos-sub-pos n 1 (omega arith), bounds-from_zero n ne, wide, take-nil n, all) refl

-- With at least one argument, `Command` holds the arguments from 0 on.
pub command_of-args :
    (argv : List Bytes) → argv ≢ [] → length argv < 2 ^ 63 → command_of argv ≡ ok (args_array argv)
unfolding command_of
command_of-args argv ne b =
    let n = length argv in
    let size = length-replicate {A = Bytes} n [] in
    let filled =
      put_all-append [] argv (replicate n []) (room n) refl refl (omega (arith, size))
        (omega arith) in
    let none_left = drop_all n (replicate {A = Bytes} n []) (omega (arith, size)) in
    rw (room_lem n (length-ne-zero argv ne) b) (rw (none_left, append-nil argv) at filled)

module _ (p : Program) (w : p.W) where
  guarded-throws :
      (w0 : p.W) (e : Exception) (abort : Bytes → p.W → Outcome (Started p.W))
      (behind : p.W → Started p.W)
      → body p w0 ≡ (w, throws e)
      → guarded p abort behind w0 ≡ abort (message e) w
  unfolding guarded
  guarded-throws w0 e abort behind h = ground arith

  on_console :
      (s calls : Bytes)
      → dbg_callstack p.print_int 0 (p.stacks w) ≡ ok calls
      → abort_on_console p s w
        ≡ ok (exited (line (codes "Error: " ++ s) ∷ line calls ∷ []) (negsuc 0))
  unfolding abort_on_console callstack
  on_console s calls h = rw h

  in_box :
      (s calls : Bytes)
      → dbg_callstack p.print_int 0 (p.stacks w) ≡ ok calls
      → abort_in_box p s w
        ≡ ok (exited (box (codes "Error: " ++ s ++ codes "\n" ++ calls) ∷ []) (negsuc 0))
  unfolding abort_in_box callstack
  in_box s calls h = rw h

-- The first function that throws, `init_all`, `main` and `final_all` being called in this order.
pub data Throws (p : Program) (w0 : p.W) : p.W → Exception → Type 0 where
  in_init : {w : p.W} {e : Exception} → p.init_all w0 ≡ (w, throws e) → Throws p w0 w e
  in_main :
      {w1 w : p.W} {e : Exception}
      → p.init_all w0 ≡ (w1, ok tt)
      → p.main w1 ≡ (w, throws e)
      → Throws p w0 w e
  in_final :
      {w1 w2 w : p.W} {e : Exception}
      → p.init_all w0 ≡ (w1, ok tt)
      → p.main w1 ≡ (w2, ok tt)
      → p.final_all w2 ≡ (w, throws e)
      → Throws p w0 w e

-- What is said of what is thrown: a `std::string` speaks for itself, all else is unknown.
pub data Says : Exception → Bytes → Type 0 where
  says_text : (s : Bytes) → Says (text s) s
  says_literal : (s : Bytes) → Says (literal s) (codes "Unknown error")
  says_range : Says out_of_range (codes "Unknown error")
  says_length : Says length_error (codes "Unknown error")

body-Throws :
    (p : Program) (w0 w : p.W) (e : Exception) → Throws p w0 w e → body p w0 ≡ (w, throws e)
unfolding body
body-Throws p w0 w e (in_init h) = rw h refl
body-Throws p w0 w e (in_main h k) = rw (h, k) refl
body-Throws p w0 w e (in_final h k l) = rw (h, k, l) refl

message-Says : (e : Exception) (said : Bytes) → Says e said → message e ≡ said
unfolding message
message-Says _ _ (says_text s) = refl
message-Says _ _ (says_literal s) = refl
message-Says _ _ says_range = refl
message-Says _ _ says_length = refl

-- How an error ends the program. When one of the functions of the program throws, the ones before
-- it having returned, in a state whose debugging stack is `fs`, the console shows the text, if what
-- was thrown is a string, and else "Unknown error", and then the frames of the stack; under a
-- window system one box shows both. The status is -1 each time. There is at least one argument, and
-- `args` of Qt leaves the arguments as they are.
pub startup-throws :
    (p : Program) (argv : List Bytes) (w : p.W) (e : Exception) (said : Bytes) (fs : List Frame)
    → argv ≢ []
    → length argv < 2 ^ 63
    → Throws p (p.start (args_array argv)) w e
    → Says e said
    → Represents 0 (p.stacks w) fs
    → let error = codes "Error: " ++ said in
      let calls = trace p.print_int true fs in
      (main_console p argv ≡ ok (exited (line error ∷ line calls ∷ []) (negsuc 0)))
      × (main_qt_console p (λ args. args) argv
          ≡ ok (exited (line error ∷ line calls ∷ []) (negsuc 0)))
      × (main_qt p (λ args. args) argv
          ≡ ok (exited (box (error ++ codes "\n" ++ calls) ∷ []) (negsuc 0)))
      × (on_init p argv ≡ ok (exited (box (error ++ codes "\n" ++ calls) ∷ []) (negsuc 0)))
unfolding main_console main_qt_console main_qt on_init
startup-throws p argv w e said fs ne b threw says r =
    let shown = message-Says e said says in
    let thrown = body-Throws p (p.start (args_array argv)) w e threw in
    let commands = command_of-args argv ne b in
    let traced = dbg_callstack-trace p.print_int 0 (p.stacks w) fs r in
    let w0 = p.start (args_array argv) in
    let calls = trace p.print_int true fs in
    let console = on_console p w said calls traced in
    let boxed = in_box p w said calls traced in
    let console_e = rw (sym shown) at console in
    let boxed_e = rw (sym shown) at boxed in
    rw (commands, sym shown)
      (
        guarded-throws p w w0 e (abort_on_console p) (λ w. exited [] (pos 0)) thrown ∙ console_e,
        guarded-throws p w w0 e (abort_on_console p) (λ w. exited [] (pos 0)) thrown ∙ console_e,
        guarded-throws p w w0 e (abort_in_box p) (λ w. exited [] (p.exec w)) thrown ∙ boxed_e,
        guarded-throws p w w0 e (abort_in_box p) (λ w. entered w) thrown ∙ boxed_e,
      )
