-- ===== src/Variant.antt =====
-- `variant` of lib/core/core.h and lib/core/core.cpp: a number or a text, with both readings kept.
use kaya_basic.Base.{◌≡◌, refl, [], ◌==◌, if◌then◌else◌, length, Bytes}
use kaya_basic.Cpp.Int.{ℤ, pos}
use kaya_basic.Cpp.Floats.{Floats}
use kaya_basic.Cpp.Text.{c_str}

pub data VarType : Type 0 where
  num str : VarType

module _ (fl : Floats) where
  open fl use {Double, of_long, print, parse}

  pub record Variant : Type 0 where
    pub vartype : VarType
    pub n : Double
    pub s : Bytes

  -- The constructors.
  unfoldable pub of_double : Double → Variant
  of_double d = record { vartype = num; n = d; s = print d }

  unfoldable pub of_string : Bytes → Variant
  of_string s = record {
    vartype = str;
    n = if length s == 0 then of_long (pos 0) else parse (c_str s);
    s = s;
  }

  unfoldable pub of_chars : Bytes → Variant
  of_chars s = record { vartype = str; n = parse s; s = s }

  -- `operator=`: the result does not depend on the old value.
  unfoldable pub assign : Variant → Variant
  assign v = elim v.vartype [
    | num ↦ record { vartype = num; n = v.n; s = [] }
    | str ↦ record { vartype = str; n = of_long (pos 0); s = v.s }
  ]

  -- The conversions to `double` and to `string`.
  abbrev pub to_double : Variant → Double
  to_double v = v.n

  abbrev pub to_string : Variant → Bytes
  to_string v = v.s

  -- A `Long` where a `variant` is wanted.
  unfoldable pub of_long_value : ℤ → Variant
  unfolding of_double
  of_long_value z = of_double (of_long z)

  -- A variant that was built from a number or a text reads both ways; after an assignment it reads
  -- only the way of its type: the text of a number is empty, and the number of a text is 0.
  pub assign-readings :
      (d : Double) (s : Bytes)
      → (to_string (of_double d) ≡ print d)
        × (to_string (assign (of_double d)) ≡ [])
        × (to_double (assign (of_double d)) ≡ d)
        × (to_string (assign (of_string s)) ≡ s)
        × (to_double (assign (of_string s)) ≡ of_long (pos 0))
  unfolding assign of_double of_string
  assign-readings d s = (refl, refl, refl, refl, refl)
