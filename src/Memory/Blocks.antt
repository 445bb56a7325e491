-- ===== src/Memory/Blocks.antt =====
-- Blocks that do not overlap.
use kaya_basic.Base.{
  ℕ, suc, ◌+◌, ◌^◌, ◌≤◌, ◌<◌, ◌≢◌, ◌≡◌, refl, sym, subst, ◌∙◌, arith, true, false, Bool-cases,
  Option-cases, ◌⊎◌, inl, inr, ◌&&◌, none, some, List, [], ◌∷◌, ◌==◌, All,
}
use mathlib.Core.Option.{none-ne-some, some-injective}
use kaya_basic.Memory.{Block, within, freed}

-- Two blocks have no byte in common, and not the same begin.
abbrev pub Clear : Block → Block → Type 0
Clear b c = ((b.start + b.size ≤ c.start) ⊎ (c.start + c.size ≤ b.start)) × (b.start ≢ c.start)

-- No block is at the null pointer or reaches past the last address, and any two are clear of each
-- other.
abbrev pub AllClear : List Block → Type 0
AllClear [] = Unit
AllClear (b ∷ bs) = (b.start ≢ 0) × (b.start + b.size < 2 ^ 64) × All (Clear b) bs × AllClear bs

-- Nothing of a block that is clear of the others can be touched through them.
pub within-Clear :
    (b : Block) (bs : List Block) (k : ℕ) → All (Clear b) bs → within bs b.start (suc k) ≡ false
unfolding within
within-Clear b [] k h = refl
within-Clear b (c ∷ bs) k (h, hs) = ground (arith, within-Clear b bs k hs)

pub freed-Clear : (b : Block) (bs : List Block) → All (Clear b) bs → freed b.start bs ≡ none
unfolding freed
freed-Clear b [] h = refl
freed-Clear b (c ∷ bs) (h, hs) = ground (arith, freed-Clear b bs hs)

freed-here :
    (a : ℕ) (c : Block) (bs : List Block)
    → (c.start == a && c.heap) ≡ true
    → freed a (c ∷ bs) ≡ some (c, bs)
unfolding freed
freed-here a c bs e = rw e refl

freed-behind :
    (a : ℕ) (c b : Block) (bs cs : List Block)
    → (c.start == a && c.heap) ≡ false
    → freed a bs ≡ some (b, cs)
    → freed a (c ∷ bs) ≡ some (b, c ∷ cs)
unfolding freed
freed-behind a c b bs cs e found = rw (e, found) refl

freed-nowhere :
    (a : ℕ) (c : Block) (bs : List Block)
    → (c.start == a && c.heap) ≡ false
    → freed a bs ≡ none
    → freed a (c ∷ bs) ≡ none
unfolding freed
freed-nowhere a c bs e found = rw (e, found) refl

-- The block that `free` takes out of the list, and the blocks that it leaves.
pub data Freed (a : ℕ) : List Block → Block → List Block → Type 0 where
  here : {b : Block} {bs : List Block} → b.start ≡ a → Freed a (b ∷ bs) b bs
  behind : {b c : Block} {bs cs : List Block} → Freed a bs b cs → Freed a (c ∷ bs) b (c ∷ cs)

freed-nil : (a : ℕ) → freed a [] ≡ none
unfolding freed
freed-nil a = refl

Freed-path :
    (a : ℕ) (bs : List Block) (found wanted : Block × List Block)
    → Freed a bs found.0 found.1
    → some found ≡ some wanted
    → Freed a bs wanted.0 wanted.1
Freed-path a bs found wanted f e =
    subst (λ (p : Block × List Block). Freed a bs p.0 p.1) (some-injective _ _ e) f

starts_at : (a : ℕ) (b : Block) → (b.start == a && b.heap) ≡ true → b.start ≡ a
starts_at a b e = ground arith

pub freed-Freed :
    (a : ℕ) (bs : List Block) (b : Block) (cs : List Block)
    → freed a bs ≡ some (b, cs)
    → Freed a bs b cs
freed-Freed a [] b cs e = absurd (none-ne-some (b, cs) (sym (freed-nil a) ∙ e))
freed-Freed a (c ∷ bs) b cs e = elim (Bool-cases (c.start == a && c.heap)) [
  | inl m ↦
      Freed-path a (c ∷ bs) (c, bs) (b, cs) (here (starts_at a c m)) (sym (freed-here a c bs m) ∙ e)
  | inr m ↦ elim (Option-cases (freed a bs)) [
    | inl f ↦ absurd (none-ne-some (b, cs) (sym (freed-nowhere a c bs m f) ∙ e))
    | inr ((d, ds), f) ↦
        Freed-path a (c ∷ bs) (d, c ∷ ds) (b, cs) (behind (freed-Freed a bs d ds f))
          (sym (freed-behind a c d bs ds m f) ∙ e)
  ]
]

Freed-All {κ} :
    (P : Block → Type κ) (a : ℕ) (bs : List Block) (b : Block) (cs : List Block)
    → Freed a bs b cs
    → All P bs
    → P b × All P cs
Freed-All P a bs b cs (here e) (h, hs) = (h, hs)
Freed-All P a bs b cs (behind f) (h, hs) = let (k, ks) = Freed-All P a _ b _ f hs in (k, (h, ks))

Clear-swap : (b c : Block) → Clear b c → Clear c b
Clear-swap b c (inl h, ne) = (inr h, λ e. ne (sym e))
Clear-swap b c (inr h, ne) = (inl h, λ e. ne (sym e))

-- The block that is taken out begins where it should, and is clear of those that are left.
pub Freed-AllClear :
    (a : ℕ) (bs : List Block) (b : Block) (cs : List Block)
    → Freed a bs b cs
    → AllClear bs
    → (b.start ≡ a) × All (Clear b) cs × AllClear cs
Freed-AllClear a bs b cs (here e) (at_null, inside, clear, rest) = (e, clear, rest)
Freed-AllClear a bs b cs (behind {c = c} f) (at_null, inside, clear, rest) =
    let (e, clear', rest') = Freed-AllClear a _ b _ f rest in
    let (from_b, clear_left) = Freed-All (Clear c) a _ b _ f clear in
    (e, (Clear-swap c b from_b, clear'), (at_null, inside, clear_left, rest'))
