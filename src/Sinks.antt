-- ===== src/Sinks.antt =====
-- `CEventSink` and `COM_EVENTS_CONNECT` of lib/core/comsink.h: the object that receives the events
-- of a COM object.
pub mod Laws
use kaya_basic.Base.{
  ℕ, zero, suc, ◌+◌, ◌-◌, Bool, true, false, ◌||◌, Option, none, some, List, [], ◌∷◌, ◌++◌, ◌==◌,
  if◌then◌else◌, Outcome, ok, undefined, ◌>>=◌,
}
use kaya_basic.Cpp.Int.{ℤ, pos, ◌+ℤ◌, ◌-ℤ◌, eqb_ℤ}

-- `m_pConnectionPoint` and `m_dwCookie` are not written before `connect`.
pub record Sink : Type 0 where
  pub c_ref : ℤ
  pub point : Option ℕ
  pub cookie : Option ℕ

unfoldable pub new_sink : Sink
new_sink = record { c_ref = pos 1; point = none; cookie = none }

unfoldable pub add_ref : Sink → ℤ × Sink
add_ref s = let n = s.c_ref +ℤ pos 1 in (n, record s { c_ref = n })

-- What a method of COM returns.
pub data Hresult : Type 0 where
  s_ok e_notimpl e_nointerface : Hresult

unfoldable pub get_type_info_count : ℕ × Hresult
get_type_info_count = (0, s_ok)

unfoldable pub get_type_info : Hresult
get_type_info = e_notimpl

unfoldable pub get_ids_of_names : Hresult
get_ids_of_names = e_notimpl

-- `QueryInterface`, by the numbers of the interfaces: whether `*ppvObject` is the sink.
unfoldable pub query_interface : ℕ → ℕ → ℕ → ℕ → Sink → Bool × Hresult × Sink
unfolding add_ref
query_interface iid_unknown iid_dispatch iid_events riid s =
    let (_, s') = add_ref s in
    if riid == iid_unknown || (riid == iid_dispatch || riid == iid_events)
    then (true, s_ok, s')
    else (false, e_nointerface, s)

-- What the program asks of the COM object, in order.
pub data ComCall : Type 0 where
  query_container find_point release_container : ComCall
  advise : ℕ → ComCall
  unadvise : ℕ → ℕ → ComCall
  release_point : ℕ → ComCall

-- `given` is the cookie, if `Advise` succeeds.
unfoldable pub connect : ℕ → Option ℕ → Sink → List ComCall → Sink × List ComCall
connect p given s calls = (record s { point = some p; cookie = given }, calls ++ advise p ∷ [])

-- The destructor, which uses what `connect` has written.
unfoldable pub destroy : Sink → List ComCall → Outcome (List ComCall)
destroy s calls = elim s.point [
  | none ↦ undefined
  | some p ↦ elim s.cookie [
    | none ↦ undefined
    | some c ↦ ok (calls ++ unadvise p c ∷ release_point p ∷ [])
  ]
]

-- `none` where the sink deletes itself.
unfoldable pub release : Sink → List ComCall → Outcome (ℤ × Option Sink × List ComCall)
unfolding destroy
release s calls =
    let n = s.c_ref -ℤ pos 1 in
    let s' = record s { c_ref = n } in
    let gone = (do calls' ← destroy s' calls; ok (pos 0, none, calls')) in
    if eqb_ℤ n (pos 0) then gone else ok (n, some s', calls)

-- The `shared_ptr` of the handler, which deletes the sink that it holds.
unfoldable pub reset : Option Sink → List ComCall → Outcome (List ComCall)
unfolding destroy
reset none calls = ok calls
reset (some s) calls = destroy s calls

-- `COM_EVENTS_CONNECT`: what is not found leaves a pointer that was never written and is used all
-- the same.
unfoldable pub events_connect :
    Bool → Option ℕ → Option ℕ → Option Sink × List ComCall → Outcome (Option Sink × List ComCall)
unfolding new_sink connect
events_connect container found given (handler, calls) =
    let looked = calls ++ query_container ∷ find_point ∷ release_container ∷ [] in
    if container
    then elim found [
      | none ↦ undefined
      | some p ↦ do
        calls' ← reset handler looked
        let (s, calls'') = connect p given new_sink calls'
        ok (some s, calls'')
    ]
    else undefined
