-- ===== src/Array/Fill.antt =====
-- Writing the items of an array from 0 on, one after another.
use kaya_basic.Base.{
  ℕ, suc, ◌+◌, ◌^◌, ◌≤◌, ◌<◌, ◌≡◌, refl, sym, ap, arith, ◌∙◌, lt→ltb, ltb, false, List, [], ◌∷◌,
  ◌++◌, length, drop, set, length-append, append_assoc, append-nil, Outcome, ok, throws,
  out_of_range, ◌>>=◌,
}
use kaya_basic.Cpp.Int.{pos, pos-sub-pos}
use kaya_basic.Cpp.Word.{to_size}
use kaya_basic.Array.{Array, put, offset1}

module _ {A : Type 0} where
  -- A loop that writes `a(i)`, `a(i + 1)` and so on.
  unfoldable pub put_all : ℕ → List A → Array A → Outcome (Array A)
  put_all i [] a = ok a
  put_all i (x ∷ xs) a = do a' ← put a (pos i) x; put_all (suc i) xs a'

  pub set-append :
      (done : List A) (y t : A) (room : List A)
      → set (done ++ y ∷ room) (length done) t ≡ done ++ t ∷ room
  set-append [] y t room = refl
  set-append (x ∷ done) y t room = ap (λ r. x ∷ r) (set-append done y t room)

  room_left : (done : List A) (y : A) (room : List A) → length done < length (done ++ y ∷ room)
  room_left done y room = omega (arith, length-append done (y ∷ room))

  offset_at :
      (a : Array A) (n : ℕ) → a.dim1.lo ≡ pos 0 → n < 2 ^ 63 → to_size (offset1 a (pos n)) ≡ n
  unfolding offset1
  offset_at a n lo h = rw (lo, pos-sub-pos n 0 (omega arith)) (omega arith)

  -- The first item of the room is overwritten.
  pub put-append :
      (done : List A) (y v : A) (room : List A) (a : Array A)
      → a.dim1.lo ≡ pos 0
      → a.items ≡ done ++ y ∷ room
      → length done < 2 ^ 63
      → put a (pos (length done)) v ≡ ok (record a { items = done ++ v ∷ room })
  unfolding put
  put-append done y v room a lo e b = rw (
    offset_at a (length done) lo b,
    e,
    lt→ltb _ _ (room_left done y room),
    set-append done y v room,
  )

  -- Without room a write behind the items throws.
  pub put-full :
      (items : List A) (v : A) (a : Array A)
      → a.dim1.lo ≡ pos 0
      → a.items ≡ items
      → length items < 2 ^ 63
      → put a (pos (length items)) v ≡ throws out_of_range
  unfolding put
  put-full items v a lo e b =
      let full : ltb (length items) (length items) ≡ false = ground arith in
      rw (offset_at a (length items) lo b, e, full) refl

  -- What the loop leaves of the items.
  pub put_all-append :
      (done xs room : List A) (a : Array A)
      → a.dim1.lo ≡ pos 0
      → a.items ≡ done ++ room
      → length xs ≤ length room
      → length done + length xs < 2 ^ 63
      → put_all (length done) xs a ≡ ok (record a { items = done ++ xs ++ drop (length xs) room })
  unfolding put_all
  put_all-append done [] room a lo e h b = ground (arith, append-nil done)
  put_all-append done (x ∷ xs) [] a lo e h b = absurd (omega arith)
  put_all-append done (x ∷ xs) (y ∷ room) a lo e h b =
      let longer : length (done ++ x ∷ []) ≡ suc (length done) =
        omega (arith, length-append done (x ∷ [])) in
      let rest =
        put_all-append (done ++ x ∷ []) xs room (record a { items = done ++ x ∷ room }) lo
          (sym (append_assoc done (x ∷ []) room)) (omega arith) (omega arith) in
      rw (put-append done y x room a lo e (omega arith))
        (rw (longer, append_assoc done (x ∷ []) xs) at rest)

  -- Where the array is too short the loop throws.
  pub put_all-over :
      (done xs room : List A) (a : Array A)
      → a.dim1.lo ≡ pos 0
      → a.items ≡ done ++ room
      → length room < length xs
      → length done + length room < 2 ^ 63
      → put_all (length done) xs a ≡ throws out_of_range
  unfolding put_all
  put_all-over done [] room a lo e h b = absurd (omega arith)
  put_all-over done (x ∷ xs) [] a lo e h b =
      rw (put-full done x a lo (e ∙ append-nil done) (omega arith)) refl
  put_all-over done (x ∷ xs) (y ∷ room) a lo e h b =
      let longer : length (done ++ x ∷ []) ≡ suc (length done) =
        omega (arith, length-append done (x ∷ [])) in
      let rest =
        put_all-over (done ++ x ∷ []) xs room (record a { items = done ++ x ∷ room }) lo
          (sym (append_assoc done (x ∷ []) room)) (omega arith) (omega arith) in
      rw (put-append done y x room a lo e (omega arith)) (rw longer at rest)
