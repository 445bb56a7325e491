-- ===== src/Examples/Startup.antt =====
-- A program that throws, started from each entry point.
use kaya_basic.Base.{◌≡◌, refl, arith, true, List, [], ◌∷◌, ◌++◌, Bytes, codes, ok, throws, text}
use kaya_basic.Array.{Array}
use kaya_basic.Cpp.Int.{pos, negsuc}
use kaya_basic.Debug.{Stacks}
use kaya_basic.Debug.Refine.{Frame, trace}
use kaya_basic.Startup.{Program, exited, line, box, main_console, main_qt_console, main_qt, on_init}
use kaya_basic.Startup.Laws.{args_array, in_main, says_text, startup-throws}

abbrev stopped : Stacks
stopped = record { funcs = λ t. codes "main" ∷ []; lines = λ t. pos 3 ∷ [] }

abbrev frames : List Frame
frames = record { func = codes "main"; line = pos 3 } ∷ []

-- `Main` throws "no data" on line 3.
abbrev throwing : Program
throwing = record {
  W = Array Bytes;
  start = λ command. command;
  init_all = λ w. (w, ok tt);
  main = λ w. (w, throws (text (codes "no data")));
  final_all = λ w. (w, ok tt);
  exec = λ w. pos 0;
  stacks = λ w. stopped;
  print_int = λ z. codes "3";
}

abbrev argv : List Bytes
argv = codes "prog" ∷ codes "-v" ∷ []

startup-throws_example :
    let error = codes "Error: " ++ codes "no data" in
    let calls = trace throwing.print_int true frames in
    (main_console throwing argv ≡ ok (exited (line error ∷ line calls ∷ []) (negsuc 0)))
    × (main_qt_console throwing (λ args. args) argv
        ≡ ok (exited (line error ∷ line calls ∷ []) (negsuc 0)))
    × (main_qt throwing (λ args. args) argv
        ≡ ok (exited (box (error ++ codes "\n" ++ calls) ∷ []) (negsuc 0)))
    × (on_init throwing argv ≡ ok (exited (box (error ++ codes "\n" ++ calls) ∷ []) (negsuc 0)))
startup-throws_example =
    startup-throws throwing argv (args_array argv) (text (codes "no data")) (codes "no data") frames
      (ground arith) (omega arith) (in_main refl refl) (says_text (codes "no data"))
      (record { at_funcs = refl; at_lines = refl })
