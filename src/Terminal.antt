-- ===== src/Terminal.antt =====
-- The keyboard: `kbhit`, `InStat` and `InKey` of lib/System.cpp, as they are outside Windows.
use kaya_basic.Base.{
  ℕ, Bool, true, false, ◌≡◌, refl, Option, none, some, [], ◌∷◌, if◌then◌else◌, Bytes,
}

-- `ICANON` and `ECHO` of the terminal, `O_NONBLOCK` of the standard input, and the bytes that can
-- be read at once.
pub record Terminal : Type 0 where
  pub icanon : Bool
  pub echo : Bool
  pub nonblock : Bool
  pub waiting : Bytes

-- What `getchar` gives: a byte, or `EOF` where it does not wait. Where it waits, `key` is what the
-- user presses next.
unfoldable pub get_char : ℕ → Terminal → Option ℕ × Terminal
get_char key t = elim t.waiting [
  | c ∷ s ↦ (some c, record t { waiting = s })
  | [] ↦ (if t.nonblock then none else some key, t)
]

unfoldable pub unget_char : ℕ → Terminal → Terminal
unget_char c t = record t { waiting = c ∷ t.waiting }

-- `kbhit`: the settings are changed for one `getchar`, and its byte is put back.
unfoldable pub kbhit : ℕ → Terminal → Bool × Terminal
unfolding get_char unget_char
kbhit key old =
    let t1 = record old { icanon = false; echo = false } in
    let t2 = record t1 { nonblock = true } in
    let (ch, t3) = get_char key t2 in
    let t4 = record t3 { icanon = old.icanon; echo = old.echo } in
    let t5 = record t4 { nonblock = old.nonblock } in
    elim ch [ some c ↦ (true, unget_char c t5) | none ↦ (false, t5) ]

unfoldable pub in_stat : ℕ → Terminal → Bool × Terminal
in_stat key t = kbhit key t

-- The text of `EOF`, which is never read behind a `kbhit` that is true, has the byte 255.
unfoldable pub in_key : ℕ → Terminal → Bytes × Terminal
unfolding get_char
in_key key t =
    let (hit, t1) = kbhit key t in
    let (ch, t2) = get_char key t1 in
    if hit then (elim ch [ some c ↦ c ∷ [] | none ↦ 255 ∷ [] ], t2) else ([], t1)

-- `InStat` tells whether a byte waits and leaves it, and the settings of the terminal, as they are;
-- `InKey` takes the first byte that waits and nothing else, and gives the empty text without
-- waiting for a key if there is none.
pub in_key-first :
    (key : ℕ) (t : Terminal) (c : ℕ) (s : Bytes)
    → let none_left = record t { waiting = [] } in
      let some_left = record t { waiting = c ∷ s } in
      (in_stat key none_left ≡ (false, none_left))
      × (in_key key none_left ≡ ([], none_left))
      × (in_stat key some_left ≡ (true, some_left))
      × (in_key key some_left ≡ (c ∷ [], record t { waiting = s }))
unfolding in_stat in_key kbhit get_char unget_char
in_key-first key t c s = (refl, refl, refl, refl)
