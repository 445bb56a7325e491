-- ===== src/Glue.antt =====
-- The bindings to wx and Qt: lib/core/wx.h, lib/core/QT.h and include/wxThreadEx.h.
use kaya_basic.Base.{Option, none, some, if◌then◌else◌, Bytes}
use kaya_basic.Cpp.Int.{ℤ, pos, eqb_ℤ}

-- `conv` between a text and the string type of the toolkit.
unfoldable pub conv_to_text : {Text : Type 0} → (Text → Bytes) → Text → Bytes
conv_to_text to_std_string x = to_std_string x

unfoldable pub conv_from_text : {Text : Type 0} → (Bytes → Text) → Bytes → Text
conv_from_text from_std_string x = from_std_string x

-- `MsgBox` of wx: `shown` is `wxMessageBox`, `bit_or` the operator `|`.
unfoldable pub msg_box_wx : (Bytes → Bytes → ℤ → ℤ) → (ℤ → ℤ → ℤ) → Bytes → ℤ → Bytes → ℤ → ℤ
msg_box_wx shown bit_or prompt button title icon = shown prompt title (bit_or button icon)

-- The icons of Qt, and the functions of `QMessageBox` of the same names, by title, prompt and
-- buttons.
pub record Boxes (Text : Type 0) : Type 0 where
  pub icon_information : ℤ
  pub icon_question : ℤ
  pub icon_warning : ℤ
  pub icon_critical : ℤ
  pub from_std_string : Bytes → Text
  pub information : Text → Text → ℤ → ℤ → ℤ
  pub question : Text → Text → ℤ → ℤ → ℤ
  pub warning : Text → Text → ℤ → ℤ → ℤ
  pub critical : Text → Text → ℤ → ℤ → ℤ

unfoldable pub msg_box_qt : {Text : Type 0} → Boxes Text → Bytes → ℤ → Bytes → ℤ → ℤ
msg_box_qt b prompt button title icon =
    let qtitle = b.from_std_string title in
    let qprompt = b.from_std_string prompt in
    if eqb_ℤ icon b.icon_information
    then b.information qtitle qprompt button (pos 0)
    else if eqb_ℤ icon b.icon_question
    then b.question qtitle qprompt button (pos 0)
    else if eqb_ℤ icon b.icon_warning
    then b.warning qtitle qprompt button (pos 0)
    else if eqb_ℤ icon b.icon_critical
    then b.critical qtitle qprompt button (pos 0)
    else b.information qtitle qprompt button (pos 0)

-- `DoEvents`, by what the toolkit does to a state.
unfoldable pub do_events : {W : Type 0} → (W → W) → W → W
do_events yielded w = yielded w

-- `wxThreadJoinable`: functions of the program, or null pointers.
pub record Thread (W : Type 0) : Type 0 where
  pub on_entry : Option (W → W)
  pub on_quit : Option (W → W)

unfoldable pub thread : {W : Type 0} → Option (W → W) → Option (W → W) → Thread W
thread onentry onexit = record { on_entry = onentry; on_quit = onexit }

unfoldable pub on_exit : {W : Type 0} → Thread W → W → W
on_exit t w = elim t.on_quit [ none ↦ w | some f ↦ f w ]

unfoldable pub entry : {W : Type 0} → Thread W → W → W
entry t w = elim t.on_entry [ none ↦ w | some f ↦ f w ]
