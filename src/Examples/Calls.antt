-- ===== src/Examples/Calls.antt =====
-- The call stack at concrete runs.
use kaya_basic.Base.{◌+◌, ◌≡◌, refl, arith, true, List, [], ◌∷◌, Bytes, codes, ok}
use kaya_basic.Cpp.Int.{ℤ, pos, negsuc}
use kaya_basic.Debug.{Stacks, dbg_callstack, frame_text}
use kaya_basic.Debug.Refine.{
  Frame, Event, enter, at_line, leave, Represents, SameAt, run, trace, dbg_callstack-trace,
  run-Represents,
}

-- One digit is printed.
abbrev print_digit : ℤ → Bytes
print_digit (pos n) = (n + 48) ∷ []
print_digit (negsuc n) = 45 ∷ (n + 49) ∷ []

abbrev quiet : Stacks
quiet = record { funcs = λ t. []; lines = λ t. [] }

abbrev in_main : List Frame
in_main = record { func = codes "main"; line = pos 3 } ∷ []

abbrev nested : List Frame
nested = record { func = codes "f"; line = pos 5 } ∷ in_main

abbrev stopped : Stacks
stopped = record { funcs = λ t. codes "main" ∷ codes "f" ∷ []; lines = λ t. pos 3 ∷ pos 5 ∷ [] }

abbrev events : List Event
events = enter (codes "main") ∷ at_line (pos 3) ∷ enter (codes "f") ∷ at_line (pos 5) ∷ leave ∷ []

dbg_callstack-trace_example :
    dbg_callstack print_digit 0 stopped ≡ ok (trace print_digit true nested)
dbg_callstack-trace_example =
    dbg_callstack-trace print_digit 0 stopped nested (record { at_funcs = refl; at_lines = refl })

printed :
    trace print_digit true nested
    ≡ codes "    raised by f() at line #5,\r\n    called by main() at line #3"
unfolding trace frame_text
printed = refl

run-Represents_example :
    (s' : Stacks) × (run 0 events quiet ≡ ok s') × Represents 0 s' in_main × SameAt 1 quiet s'
run-Represents_example =
    run-Represents 0 1 events quiet [] in_main (omega arith)
      (record { at_funcs = refl; at_lines = refl }) refl
