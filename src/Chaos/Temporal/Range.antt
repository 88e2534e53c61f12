-- ===== src/Chaos/Temporal/Range.antt =====
-- What the tracker reports, against the history of its calls.
use havoc_forge.Base.{
  String, Bool, true, false, ◌≡◌, refl, Option, none, some, List, [], ◌∷◌, ◌==◌, eq_iff,
  if◌then◌else◌, arith,
}
use havoc_forge.Base.Int.{ℤ, ltb_ℤ, ◌≤ℤ◌}
use havoc_forge.Base.Dict
use havoc_forge.Base.Dict.{get-set, get-pop}
use havoc_forge.Chaos.Temporal.{
  TimelineState, TemporalTracker, new_tracker, starting, updated, get_or_init, update_timeline,
  get_range, reset, clear_all,
}

-- The calls that change the tracker.
pub data Call : Type 0 where
  init update : String → ℤ → Call
  forget : String → Call
  clear : Call

pub perform : Call → TemporalTracker → TemporalTracker
perform (init k t) tr = (get_or_init k t tr).1
perform (update k t) tr = update_timeline k t tr
perform (forget k) tr = reset k tr
perform clear tr = clear_all tr

pub perform_all : List Call → TemporalTracker
perform_all [] = new_tracker
perform_all (call ∷ earlier) = perform call (perform_all earlier)

-- The range of one schema as the history gives it, the newest call first: its first timestamp since
-- it was last forgotten, and the greatest of its updates.
abbrev pub later : ℤ → ℤ → ℤ
later a b = if ltb_ℤ a b then b else a

abbrev widen : ℤ → Option (ℤ × ℤ) → Option (ℤ × ℤ)
widen t none = some (t, t)
widen t (some (first, now)) = some (first, later now t)

abbrev begin : ℤ → Option (ℤ × ℤ) → Option (ℤ × ℤ)
begin t none = some (t, t)
begin t (some r) = some r

unfoldable pub range_of : String → List Call → Option (ℤ × ℤ)
range_of k [] = none
range_of k (call ∷ earlier) =
    let r = range_of k earlier in
    elim call [
      | init j t ↦ if j == k then begin t r else r
      | update j t ↦ if j == k then widen t r else r
      | forget j ↦ if j == k then none else r
      | clear ↦ none
    ]

abbrev pub as_range : Option (ℤ × ℤ) → Option ℤ × Option ℤ
as_range none = (none, none)
as_range (some (first, now)) = (some first, some now)

abbrev state_of : String → Option (ℤ × ℤ) → Option TimelineState
state_of k none = none
state_of k (some (first, now)) =
    some (record { schema_name = k; first_timestamp = some first; current_timestamp = some now })

entry_of :
    (k : String) (calls : List Call)
    → Dict.get (perform_all calls).timelines k ≡ state_of k (range_of k calls)
unfolding perform_all range_of perform get_or_init update_timeline reset clear_all
entry_of k [] = unfold Dict.get in refl
entry_of k (init j t ∷ earlier) = ground (
  arith,
  eq_iff j k,
  entry_of k earlier,
  entry_of j earlier,
  get-set (perform_all earlier).timelines j (starting j t) k,
)
entry_of k (update j t ∷ earlier) =
    let tr = perform_all earlier in
    ground (
      arith,
      eq_iff j k,
      entry_of k earlier,
      entry_of j earlier,
      get-set tr.timelines j (updated j t (Dict.get tr.timelines j)) k,
    )
entry_of k (forget j ∷ earlier) = ground (
  arith,
  eq_iff j k,
  entry_of k earlier,
  entry_of j earlier,
  get-pop (perform_all earlier).timelines j k,
)
entry_of k (clear ∷ earlier) = unfold Dict.get in refl

-- After any calls, for any schemas, the reported range is the one that the history gives.
pub get_range-eq-range_of :
    (k : String) (calls : List Call) → get_range k (perform_all calls) ≡ as_range (range_of k calls)
unfolding get_range
get_range-eq-range_of k calls = ground (arith, entry_of k calls)

abbrev IsOrdered : Option (ℤ × ℤ) → Type 0
IsOrdered none = Unit
IsOrdered (some (first, now)) = first ≤ℤ now

IsOrdered-if :
    (b : Bool) (r s : Option (ℤ × ℤ)) → IsOrdered r → IsOrdered s → IsOrdered (if b then r else s)
IsOrdered-if true r s hr hs = hr
IsOrdered-if false r s hr hs = hs

begin-IsOrdered : (t : ℤ) (r : Option (ℤ × ℤ)) → IsOrdered r → IsOrdered (begin t r)
begin-IsOrdered t none h = omega arith
begin-IsOrdered t (some r) h = h

widen-IsOrdered : (t : ℤ) (r : Option (ℤ × ℤ)) → IsOrdered r → IsOrdered (widen t r)
widen-IsOrdered t none h = omega arith
widen-IsOrdered t (some (first, now)) h = ground arith

range_of-IsOrdered : (k : String) (calls : List Call) → IsOrdered (range_of k calls)
unfolding range_of
range_of-IsOrdered k [] = tt
range_of-IsOrdered k (init j t ∷ earlier) =
    let h = range_of-IsOrdered k earlier in IsOrdered-if (j == k) _ _ (begin-IsOrdered t _ h) h
range_of-IsOrdered k (update j t ∷ earlier) =
    let h = range_of-IsOrdered k earlier in IsOrdered-if (j == k) _ _ (widen-IsOrdered t _ h) h
range_of-IsOrdered k (forget j ∷ earlier) =
    IsOrdered-if (j == k) _ _ tt (range_of-IsOrdered k earlier)
range_of-IsOrdered k (clear ∷ earlier) = tt

abbrev pub IsRange : Option ℤ × Option ℤ → Type 0
IsRange (none, none) = Unit
IsRange (some first, some now) = first ≤ℤ now
IsRange _ = ⊥

as_range-IsRange : (r : Option (ℤ × ℤ)) → IsOrdered r → IsRange (as_range r)
as_range-IsRange none h = tt
as_range-IsRange (some (first, now)) h = h

-- After any calls a reported range has both ends or neither, and the first timestamp is not later
-- than the current one.
pub get_range-IsRange : (k : String) (calls : List Call) → IsRange (get_range k (perform_all calls))
get_range-IsRange k calls =
    rw get_range-eq-range_of (as_range-IsRange (range_of k calls) (range_of-IsOrdered k calls))
