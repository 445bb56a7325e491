-- ===== src/Files/Programs/Places.antt =====
-- Where every stream is that was made: in the table, closed, or lost.
use kaya_basic.Base.{
  ℕ, zero, suc, ◌+◌, ◌≤◌, ◌<◌, ◌≢◌, ◌≡◌, refl, sym, ap, ◌∙◌, arith, ℕ_discrete, true, false, Option,
  none, some, Option-cases, inl, inr, List, ◌∷◌, ltb, ◌==◌, if◌then◌else◌, ok,
}
use kaya_basic.Objects.Counted.{times_in, ref_to}
use kaya_basic.Files.{State, Stream, max_open_files, update, close_from}
use kaya_basic.Files.Laws.{one_closed, opened, close_from-skip, close_from-step}
use kaya_basic.Files.Programs.{lost_at}

-- How many of the numbers from `fn` on lead to the stream.
unfoldable pub held : ℕ → ℕ → Stream → (ℕ → Option Stream) → ℕ
held zero fn f table = 0
held (suc k) fn f table = ref_to f (table fn) + held k (suc fn) f table

held-before :
    (k fn n : ℕ) (f : Stream) (table : ℕ → Option Stream) (v : Option Stream)
    → n < fn
    → held k fn f (update table n v) ≡ held k fn f table
unfolding held
held-before zero fn n f table v h = refl
held-before (suc k) fn n f table v h =
    let other : (fn == n) ≡ false = ground arith in
    let rest = held-before k (suc fn) n f table v (omega arith) in rw other (omega (arith, rest))

held-update :
    (k fn n : ℕ) (f : Stream) (table : ℕ → Option Stream) (v : Option Stream)
    → fn ≤ n
    → n < fn + k
    → held k fn f (update table n v) + ref_to f (table n) ≡ held k fn f table + ref_to f v
unfolding held
held-update zero fn n f table v le lt = absurd (omega arith)
held-update (suc k) fn n f table v le lt = elim (ℕ_discrete fn n) [
  | yes here ↦
      let same : (fn == n) ≡ true = ground arith in
      let rest = held-before k (suc fn) n f table v (omega arith) in
      let at : ref_to f (table n) ≡ ref_to f (table fn) = ap (λ i. ref_to f (table i)) (sym here) in
      rw same (omega (arith, rest, at))
  | no other ↦
      let different : (fn == n) ≡ false = ground arith in
      let rest = held-update k (suc fn) n f table v (omega arith) (omega arith) in
      rw different (omega (arith, rest))
]

pub held-none :
    (k fn : ℕ) (f : Stream) (table : ℕ → Option Stream)
    → ((i : ℕ) → fn ≤ i → i < fn + k → table i ≡ none)
    → held k fn f table ≡ 0
unfolding held
held-none zero fn f table h = refl
held-none (suc k) fn f table h =
    let here : ref_to f (table fn) ≡ 0 = ap (ref_to f) (h fn (omega arith) (omega arith)) in
    let rest = held-none k (suc fn) f table (λ i le lt. h i (omega arith) (omega arith)) in
    omega (arith, here, rest)

-- Every stream that was made is in one place: one number leads to it, or it was closed, once, or it
-- is lost. No stream was made but those.
pub record IsAccounted (s : State) (lost : List Stream) : Type 0 where
  pub none_at_zero : s.open_files 0 ≡ none
  pub places :
      (f : Stream)
      → held max_open_files 0 f s.open_files + times_in f s.closed + times_in f lost
        ≡ (if ltb f s.next then 1 else 0)

made_one :
    (f next : Stream)
    → (if ltb f (suc next) then 1 else 0)
      ≡ (if next == f then 1 else 0) + (if ltb f next then 1 else 0)
made_one f next = ground arith

times_in-lost_at :
    (f : Stream) (o : Option Stream) (lost : List Stream)
    → times_in f (lost_at o lost) ≡ ref_to f o + times_in f lost
times_in-lost_at f none lost = omega arith
times_in-lost_at f (some g) lost = refl

pub one_closed-IsAccounted :
    (n : ℕ) (f : Stream) (s : State) (lost : List Stream)
    → n < max_open_files
    → s.open_files n ≡ some f
    → IsAccounted s lost
    → IsAccounted (one_closed n f s) lost
one_closed-IsAccounted n f s lost b e h = record {
  none_at_zero = ground (arith, h.none_at_zero);
  places = λ g.
      let moved = held-update max_open_files 0 n g s.open_files none (omega arith) (omega arith) in
      let old : ref_to g (s.open_files n) ≡ (if f == g then 1 else 0) = ap (ref_to g) e in
      omega (arith, moved, old, h.places g);
}

pub close_from-IsAccounted :
    (k fn : ℕ) (s : State) (lost : List Stream)
    → fn + k ≤ max_open_files
    → IsAccounted s lost
    → (s' : State) × (close_from k fn s ≡ ok s') × IsAccounted s' lost × (s'.next ≡ s.next)
close_from-IsAccounted zero fn s lost b h = (s, unfold close_from in refl, h, refl)
close_from-IsAccounted (suc k) fn s lost b h = elim (Option-cases (s.open_files fn)) [
  | inl e ↦
      let (s', r, h', n) = close_from-IsAccounted k (suc fn) s lost (omega arith) h in
      (s', close_from-skip k fn s e ∙ r, h', n)
  | inr (f, e) ↦
      let (s', r, h', n) =
        close_from-IsAccounted k (suc fn) (one_closed fn f s) lost (omega arith)
          (one_closed-IsAccounted fn f s lost (omega arith) e h) in
      (s', close_from-step k fn s f e ∙ r, h', n)
]

-- A stream that was made and lost at once, and one that a number leads to.
pub made-IsAccounted :
    (s : State) (lost : List Stream)
    → IsAccounted s lost
    → IsAccounted (record s { next = suc s.next }) (s.next ∷ lost)
made-IsAccounted s lost h = record {
  none_at_zero = h.none_at_zero;
  places = λ f. omega (arith, h.places f, made_one f s.next);
}

pub opened-IsAccounted :
    (n : ℕ) (s : State) (lost : List Stream)
    → n ≢ 0
    → n < max_open_files
    → IsAccounted s lost
    → IsAccounted (opened n s) (lost_at (s.open_files n) lost)
opened-IsAccounted n s lost ne b h = record {
  none_at_zero = ground (arith, h.none_at_zero);
  places = λ f.
      let moved =
        held-update max_open_files 0 n f s.open_files (some s.next) (omega arith) (omega arith) in
      let over = times_in-lost_at f (s.open_files n) lost in
      omega (arith, moved, over, h.places f, made_one f s.next);
}
