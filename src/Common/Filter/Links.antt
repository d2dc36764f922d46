-- ===== src/Common/Filter/Links.antt =====
-- `filterInit`: for each event, a filter caches a pointer to the next filter that handles it.
use temp_files.Base.{ℕ, suc, Bool, Option, none, some, List, [], ◌∷◌, if◌then◌else◌}

pub data Event : Type 0 where
  open_event read_event write_event close_event sync_event : Event
  abort_event block_size_event seek_event delete_event : Event

-- Which functions of a `FilterInterface` are not NULL.
abbrev pub Handlers : Type 0
Handlers = Event → Bool

-- A linked filter: its interface, and the cached `next##Event` pointers. A pointer into the pipeline
-- is the distance to the filter that it points to, 1 for the very next one; `none` is NULL.
pub record Link : Type 0 where
  pub iface : Handlers
  pub next_for : Event → Option ℕ

abbrev pub step_over : Option ℕ → Option ℕ
step_over none = none
step_over (some d) = some (suc d)

-- `getNext(Event, this)`, where the filters behind `this` are `next` and those behind `next`.
unfoldable pub get_next : Link → Event → Option ℕ
get_next next e = if next.iface e then some 1 else step_over (next.next_for e)

-- The generic parts of a new filter before `next`, or of a sink, whose pointers stay NULL.
-- `filterInit(this, iface, next)`; the assertion on the interface is left out.
unfoldable pub filter_init : Handlers → Link → Link
unfolding get_next
filter_init iface next = record { iface = iface; next_for = get_next next }

-- `fileSystemBottomNew` sets the generic parts of the sink itself: its pointers are NULL.
abbrev pub sink_init : Handlers → Link
sink_init iface = record { iface = iface; next_for = λ e. none }

-- The first filter of a pipeline that is built from its sink upwards: the handlers of the filters,
-- the first one first, then those of the sink.
unfoldable pub build : List Handlers → Handlers → Link
unfolding filter_init
build [] sink = sink_init sink
build (h ∷ hs) sink = filter_init h (build hs sink)
