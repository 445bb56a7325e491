-- ===== src/Dictionary/Refine.antt =====
-- Any run of the operations of a dictionary is a run on a finite map.
use kaya_basic.Base.{
  ◌≡◌, refl, sym, ◌∙◌, arith, Bool, true, false, Bool-cases, ◌⊎◌, inl, inr, none, some, List, [],
  ◌∷◌, Bytes,
}
use mathlib.Core.Option.{none-ne-some, some-injective}
use mathlib.Core.List.{Permᴰ}
use kaya_basic.Cpp.Text.{equal}
use kaya_basic.Dictionary.{Entry, Dictionary, find_key, remove, removeitem, put}
use kaya_basic.Dictionary.Laws.{
  Distinct, View, view, put_view, remove_view, remove-view, put-view, equal_self, equal_sound,
  equal_apart_sym, equal_apart,
}

pub data Event (T : Type 0) : Type 0 where
  assign_value : Bytes → T → Event T
  remove_key : Bytes → Event T
  remove_value : T → Event T

module _ {T : Type 0} (same : T → T → Bool) where
  -- What `removeitem` may do to a finite map: one key with the value goes, or there is none.
  abbrev pub Dropped : T → View T → View T → Type 0
  Dropped x m m' =
      (((key : Bytes) (v : T) → m key ≡ some v → same v x ≡ false) × ((k : Bytes) → m' k ≡ m k))
      ⊎ ((key : Bytes) × (v : T) × (m key ≡ some v)
          × (same v x ≡ true)
          × ((k : Bytes) → m' k ≡ remove_view key m k))

  abbrev pub Step : Event T → View T → View T → Type 0
  Step (assign_value key v) m m' = (k : Bytes) → m' k ≡ put_view key v m k
  Step (remove_key key) m m' = (k : Bytes) → m' k ≡ remove_view key m k
  Step (remove_value x) m m' = Dropped x m m'

  abbrev pub Steps : List (Event T) → View T → View T → Type 0
  Steps [] m m' = (k : Bytes) → m' k ≡ m k
  Steps (e ∷ es) m m' = (mid : View T) × Step e m mid × Steps es mid m'

  unset_none : (key k : Bytes) (m : View T) → m k ≡ none → remove_view key m k ≡ none
  unfolding remove_view
  unset_none key k m e = ground (arith, e)

  gone_first :
      (l : Bytes) (w : T) (d : Dictionary T)
      → find_key l d ≡ none
      → (k : Bytes) → find_key k d ≡ remove_view l (view ((l, w) ∷ d)) k
  unfolding find_key remove_view
  gone_first l w d new k = elim (Bool-cases (equal l k)) [
    | inl m ↦ rw m (rw (equal_sound l k m) at new)
    | inr m ↦ rw m refl
  ]

  other_key :
      (l key : Bytes) (v : T) (d : Dictionary T)
      → find_key l d ≡ none
      → find_key key d ≡ some v
      → equal l key ≡ false
  other_key l key v d new has = elim (Bool-cases (equal l key)) [
    | inl m ↦ absurd (none-ne-some v (sym new ∙ rw (equal_sound l key m) has))
    | inr m ↦ m
  ]

  none_has :
      (x : T) (l : Bytes) (w : T) (d : Dictionary T)
      → ((key : Bytes) (v : T) → find_key key d ≡ some v → same v x ≡ false)
      → same w x ≡ false
      → (key : Bytes) (v : T) → find_key key ((l, w) ∷ d) ≡ some v
      → same v x ≡ false
  unfolding find_key
  none_has x l w d all e key v found = elim (Bool-cases (equal l key)) [
    | inl m ↦ rw (some-injective _ _ (rw m at found)) at e
    | inr m ↦ all key v (rw m at found)
  ]

  gone_behind :
      (key l : Bytes) (w : T) (d d' : Dictionary T)
      → equal l key ≡ false
      → ((k : Bytes) → find_key k d' ≡ remove_view key (view d) k)
      → (k : Bytes) → find_key k ((l, w) ∷ d') ≡ remove_view key (view ((l, w) ∷ d)) k
  unfolding find_key remove_view
  gone_behind key l w d d' apart gone k = elim (Bool-cases (equal l k)) [
    | inl m ↦ rw (m, equal_apart l key k (equal_apart_sym l key apart) m) refl
    | inr m ↦ rw (m, gone k) refl
  ]

  removeitem-view :
      (x : T) (d : Dictionary T)
      → Distinct d
      → Distinct (removeitem same x d) × Dropped x (view d) (view (removeitem same x d))
  unfolding removeitem find_key remove_view
  removeitem-view x [] h = (tt, inl (λ key v e. absurd (none-ne-some v e), λ k. refl))
  removeitem-view x ((l, w) ∷ d) (new, h) = elim (Bool-cases (same w x)) [
    | inl e ↦ rw e (h, inr (l, w, unfold equal in rw (equal_self l) refl, e, gone_first l w d new))
    | inr e ↦
        let (h', dropped) = removeitem-view x d h in
        rw e (
          (
            elim dropped [
              | inl (all, kept) ↦ kept l ∙ new
              | inr (key, v, has, is, gone) ↦ gone l ∙ unset_none key l (view d) new
            ],
            h',
          ),
          elim dropped [
            | inl (all, kept) ↦ inl (none_has x l w d all e, λ k. rw (kept k) refl)
            | inr (key, v, has, is, gone) ↦
                let apart = other_key l key v d new has in
                inr (key, v, rw apart has, is, gone_behind key l w d _ apart gone)
          ],
        )
  ]

  module _ (place : Entry T → Dictionary T → Dictionary T) (initial : T) where
    unfoldable pub run_one : Event T → Dictionary T → Dictionary T
    run_one (assign_value key v) d = put place initial key v d
    run_one (remove_key key) d = remove key d
    run_one (remove_value x) d = removeitem same x d

    unfoldable pub run : List (Event T) → Dictionary T → Dictionary T
    unfolding run_one
    run [] d = d
    run (e ∷ es) d = run es (run_one e d)

    module _ (placed : (e : Entry T) (d : Dictionary T) → Permᴰ (e ∷ d) (place e d)) where
      run_one-Step :
          (e : Event T) (d : Dictionary T)
          → Distinct d
          → Distinct (run_one e d) × Step e (view d) (view (run_one e d))
      unfolding run_one remove_view
      run_one-Step (assign_value key v) d h = put-view place initial placed key v d h
      run_one-Step (remove_key key) d h = remove-view key d h
      run_one-Step (remove_value x) d h = removeitem-view x d h

      -- Wherever new entries go in the order of the iteration, a run of assignments to a key,
      -- removals of a key and removals of a value keeps one entry for each key, and does to the
      -- finite map of the keys what its operations say: an assignment sets the key and no other, a
      -- removal of a key unsets it, and a removal of a value unsets one key that has the value, or
      -- none if no key has it.
      pub run-Steps :
          (es : List (Event T)) (d : Dictionary T)
          → Distinct d
          → Distinct (run es d) × Steps es (view d) (view (run es d))
      unfolding run
      run-Steps [] d h = (h, λ k. refl)
      run-Steps (e ∷ es) d h =
          let (h1, step) = run_one-Step e d h in
          let (h2, steps) = run-Steps es (run_one e d) h1 in (h2, (view (run_one e d), step, steps))
