-- ===== src/Sinks/Laws.antt =====
-- The count of a sink, and the connections that are made and ended.
use kaya_basic.Base.{
  ℕ, zero, suc, ◌≡◌, refl, ap, ◌∙◌, arith, true, Option, none, some, List, [], ◌∷◌, ◌++◌,
  append_assoc, map, Outcome, ok, undefined, ◌>>=◌, if◌then◌else◌, ◌==◌, ◌||◌, Bool, Bool-cases,
  inl, inr,
}
use kaya_basic.Cpp.Int.{pos, ◌+ℤ◌, ◌-ℤ◌}
use kaya_basic.Sinks.{
  Sink, ComCall, query_container, find_point, release_container, advise, unadvise, release_point,
  add_ref, release, query_interface, new_sink, connect, destroy, reset, events_connect,
}

-- What the COM object does with a sink.
pub data Use : Type 0 where
  take give : Use
  ask : ℕ → Use

module _ (iid_unknown iid_dispatch iid_events : ℕ) where
  -- A sink that was deleted has no use with a defined result.
  unfoldable pub use_one : Use → Option Sink × List ComCall → Outcome (Option Sink × List ComCall)
  use_one u (none, calls) = undefined
  use_one take (some s, calls) = ok (some (add_ref s).1, calls)
  use_one give (some s, calls) = do (n, h, calls') ← release s calls; ok (h, calls')
  use_one (ask riid) (some s, calls) =
      ok (some (query_interface iid_unknown iid_dispatch iid_events riid s).2, calls)

  unfoldable pub use_all :
      List Use → Option Sink × List ComCall → Outcome (Option Sink × List ComCall)
  unfolding use_one
  use_all [] h = ok h
  use_all (u ∷ us) h = do h' ← use_one u h; use_all us h'

  abbrev pub is_known : ℕ → Bool
  is_known riid = riid == iid_unknown || (riid == iid_dispatch || riid == iid_events)

  -- With `n` references to the sink, the COM object gives back only what it has, and `m` are left.
  abbrev pub Fair : List Use → ℕ → ℕ → Type 0
  Fair [] n m = n ≡ m
  Fair (take ∷ us) n m = Fair us (suc n) m
  Fair (give ∷ us) zero m = ⊥
  Fair (give ∷ us) (suc n) m = Fair us n m
  Fair (ask riid ∷ us) n m = Fair us (if is_known riid then suc n else n) m

  unfoldable pub counted : Sink → ℕ → Sink
  counted s n = record s { c_ref = pos (suc n) }

  add_ref-counted : (s : Sink) (n : ℕ) → (add_ref (counted s n)).1 ≡ counted s (suc n)
  unfolding add_ref counted ◌+ℤ◌
  add_ref-counted s n = ground arith

  release-counted :
      (s : Sink) (n : ℕ) (calls : List ComCall)
      → release (counted s (suc n)) calls ≡ ok (pos (suc n), some (counted s n), calls)
  unfolding release counted ◌-ℤ◌
  release-counted s n calls = ground arith

  query-counted :
      (s : Sink) (riid n : ℕ)
      → (query_interface iid_unknown iid_dispatch iid_events riid (counted s n)).2
        ≡ counted s (if is_known riid then suc n else n)
  unfolding query_interface
  query-counted s riid n = elim (Bool-cases (is_known riid)) [
    | inl e ↦ rw e (unfold add_ref counted ◌+ℤ◌ in ground arith)
    | inr e ↦ rw e refl
  ]

  -- A sink with `n` references of the COM object, beside the one of the handler, outlives every use
  -- in which the COM object gives back only what it has: no use has an undefined result, and the
  -- connection is not ended.
  pub use_all-Fair :
      (us : List Use) (s : Sink) (calls : List ComCall) (n m : ℕ)
      → Fair us n m
      → use_all us (some (counted s n), calls) ≡ ok (some (counted s m), calls)
  unfolding use_all
  use_all-Fair [] s calls n m h = ap (λ k. ok (some (counted s k), calls)) h
  use_all-Fair (take ∷ us) s calls n m h =
      ap (λ t. use_all us (some t, calls)) (add_ref-counted s n)
      ∙ use_all-Fair us s calls (suc n) m h
  use_all-Fair (give ∷ us) s calls zero m h = absurd h
  use_all-Fair (give ∷ us) s calls (suc n) m h =
      rw (release-counted s n calls) (use_all-Fair us s calls n m h)
  use_all-Fair (ask riid ∷ us) s calls n m h =
      ap (λ t. use_all us (some t, calls)) (query-counted s riid n) ∙ use_all-Fair us s calls _ m h

-- A point that is found, with the cookie that it gives.
abbrev pub Connection : Type 0
Connection = ℕ × ℕ

-- The program connects to one point after another, and in the end the handler is destroyed.
unfoldable pub connect_all :
    List Connection → Option Sink × List ComCall → Outcome (Option Sink × List ComCall)
connect_all [] s = ok s
connect_all ((p, c) ∷ cs) s = do s' ← events_connect true (some p) (some c) s; connect_all cs s'

unfoldable pub session : List Connection → Outcome (List ComCall)
unfolding connect_all
session cs = do (handler, calls) ← connect_all cs (none, []); reset handler calls

-- The points of the calls of one kind, in order.
abbrev pub advised : List ComCall → List ℕ
advised [] = []
advised (advise p ∷ calls) = p ∷ advised calls
advised (_ ∷ calls) = advised calls

abbrev pub unadvised : List ComCall → List Connection
unadvised [] = []
unadvised (unadvise p c ∷ calls) = (p, c) ∷ unadvised calls
unadvised (_ ∷ calls) = unadvised calls

abbrev pub released : List ComCall → List ℕ
released [] = []
released (release_point p ∷ calls) = p ∷ released calls
released (_ ∷ calls) = released calls

-- The calls of the rest of a session whose handler is `h`.
abbrev ended : Connection → List ComCall
ended (p, c) = unadvise p c ∷ release_point p ∷ []

abbrev looked : List ComCall
looked = query_container ∷ find_point ∷ release_container ∷ []

abbrev rest_of : Connection → List Connection → List ComCall
rest_of h [] = ended h
rest_of h ((p, c) ∷ cs) = looked ++ (ended h ++ (advise p ∷ rest_of (p, c) cs))

abbrev sink_of : Connection → Sink
sink_of (p, c) = record { c_ref = pos 1; point = some p; cookie = some c }

after : Outcome (Option Sink × List ComCall) → Outcome (List ComCall)
after s = s >>= λ t. reset t.0 t.1

rest_of-connect_all :
    (h : Connection) (cs : List Connection) (calls : List ComCall)
    → after (connect_all cs (some (sink_of h), calls)) ≡ ok (calls ++ rest_of h cs)
unfolding after connect_all reset destroy events_connect connect new_sink
rest_of-connect_all h [] calls = refl
rest_of-connect_all h ((p, c) ∷ cs) calls =
    let done = calls ++ looked in
    let ended_one = done ++ ended h in
    let rest = rest_of (p, c) cs in
    rest_of-connect_all (p, c) cs (ended_one ++ advise p ∷ [])
    ∙ ap ok (
        append_assoc ended_one (advise p ∷ []) rest
        ∙ append_assoc done (ended h) (advise p ∷ rest)
        ∙ append_assoc calls looked (ended h ++ (advise p ∷ rest)))

calls_of : List Connection → List ComCall
calls_of [] = []
calls_of ((p, c) ∷ cs) = looked ++ advise p ∷ rest_of (p, c) cs

session-calls_of : (cs : List Connection) → session cs ≡ ok (calls_of cs)
unfolding session connect_all reset events_connect connect new_sink calls_of after
session-calls_of [] = refl
session-calls_of ((p, c) ∷ cs) = rest_of-connect_all (p, c) cs (looked ++ advise p ∷ [])

abbrev points : List Connection → List ℕ
points cs = map (λ h. h.0) cs

rest_of-points :
    (h : Connection) (cs : List Connection)
    → (advised (rest_of h cs) ≡ points cs)
      × (unadvised (rest_of h cs) ≡ h ∷ cs)
      × (released (rest_of h cs) ≡ points (h ∷ cs))
rest_of-points h [] = (refl, refl, refl)
rest_of-points h ((p, c) ∷ cs) =
    let (a, u, r) = rest_of-points (p, c) cs in
    (ap (λ ps. p ∷ ps) a, ap (λ ps. h ∷ ps) u, ap (λ ps. h.0 ∷ ps) r)

-- A program that connects to points that are all found, one after another, and then ends has made
-- each connection once, ended each once with its own cookie, and released each point once, all in
-- the order of the connections.
pub session-points :
    (cs : List Connection)
    → (calls : List ComCall) × (session cs ≡ ok calls)
      × (advised calls ≡ map (λ h. h.0) cs)
      × (unadvised calls ≡ cs)
      × (released calls ≡ map (λ h. h.0) cs)
unfolding calls_of
session-points [] = ([], session-calls_of [], refl, refl, refl)
session-points ((p, c) ∷ cs) =
    let (a, u, r) = rest_of-points (p, c) cs in
    (calls_of ((p, c) ∷ cs), session-calls_of ((p, c) ∷ cs), ap (λ ps. p ∷ ps) a, u, r)
