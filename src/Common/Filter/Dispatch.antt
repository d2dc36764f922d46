-- ===== src/Common/Filter/Dispatch.antt =====
-- The cached pointers are what a scan of the pipeline finds.
use temp_files.Base.{
  ℕ, zero, suc, ◌<◌, ◌≡◌, refl, Bool, true, false, Option, none, some, List, [], ◌∷◌, ◌++◌,
  if◌then◌else◌, arith, Bool-cases, inl, inr,
}
use temp_files.Common.Filter.Links.{Event, Handlers, step_over, get_next, build}

-- Whether the filter that is `i` places behind the first one handles an event.
abbrev pub handles : List Handlers → ℕ → Event → Bool
handles [] i e = false
handles (h ∷ hs) zero e = h e
handles (h ∷ hs) (suc i) e = handles hs i e

-- A pointer to the first filter of `hs` that handles `e`, the distance 1 for the first of them; or
-- NULL, if none does.
abbrev pub IsFirst : List Handlers → Event → Option ℕ → Type 0
IsFirst hs e none = (i : ℕ) → handles hs i e ≡ false
IsFirst hs e (some zero) = ⊥
IsFirst hs e (some (suc d)) = (handles hs d e ≡ true) × ((i : ℕ) → i < d → handles hs i e ≡ false)

IsFirst-here :
    (h : Handlers) (hs : List Handlers) (e : Event) → h e ≡ true → IsFirst (h ∷ hs) e (some 1)
IsFirst-here h hs e x = (x, λ i l. absurd (omega arith))

IsFirst-behind :
    (h : Handlers) (hs : List Handlers) (e : Event) (p : Option ℕ)
    → h e ≡ false
    → IsFirst hs e p
    → IsFirst (h ∷ hs) e (step_over p)
IsFirst-behind h hs e none x f = behind
  where
    behind : (i : ℕ) → handles (h ∷ hs) i e ≡ false
    behind zero = x
    behind (suc i) = f i
IsFirst-behind h hs e (some zero) x f = absurd f
IsFirst-behind h hs e (some (suc d)) x (y, f) = (y, behind)
  where
    behind : (i : ℕ) → i < suc d → handles (h ∷ hs) i e ≡ false
    behind zero l = x
    behind (suc i) l = f i (omega arith)

cached :
    (h : Handlers) (hs : List Handlers) (e : Event) (p : Option ℕ)
    → IsFirst hs e p
    → IsFirst (h ∷ hs) e (if h e then some 1 else step_over p)
cached h hs e p f = elim (Bool-cases (h e)) [
  | inl x ↦ rw x (IsFirst-here h hs e x)
  | inr x ↦ rw x (IsFirst-behind h hs e p x f)
]

no_filters : (e : Event) → IsFirst [] e none
no_filters e i = refl

get_next-IsFirst :
    (hs : List Handlers) (sink : Handlers) (e : Event)
    → IsFirst (hs ++ sink ∷ []) e (get_next (build hs sink) e)
unfolding get_next build
get_next-IsFirst [] sink e = cached sink [] e none (no_filters e)
get_next-IsFirst (h ∷ hs) sink e =
    cached h (hs ++ sink ∷ []) e (get_next (build hs sink) e) (get_next-IsFirst hs sink e)

-- In a pipeline of any length over a sink, the pointer that the first filter has cached for an event
-- leads to the first filter behind it that handles the event, and is NULL if no filter behind it does.
pub build-IsFirst :
    (h : Handlers) (hs : List Handlers) (sink : Handlers) (e : Event)
    → IsFirst (hs ++ sink ∷ []) e ((build (h ∷ hs) sink).next_for e)
unfolding build
build-IsFirst h hs sink e = get_next-IsFirst hs sink e
