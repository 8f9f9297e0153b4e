-- ===== src/Transport/Subscription.antt =====
-- advisory_transport.py: `AdvisoryTransport.subscription`, which adds the status paths to the bridge's
-- request (bridge.py, `subscription_request`).
use aos_vehicle_platform.Prelude.{
  ℕ, String, ◌≡◌, refl, ◌∙◌, ap, none, some, List, [], ◌∷◌, ◌++◌, Result, ok, err, type_error,
  key_error, ◌==◌, string_eq, if◌then◌else◌, ◌>>=◌,
}
use aos_vehicle_platform.Prelude.Dict.{Dict}
use aos_vehicle_platform.Prelude.Text.{removeprefix}
use aos_vehicle_platform.Python.{Json, Items, Fields, Library, get}
use aos_vehicle_platform.Advisory.Endpoint.{Endpoint, endpoint_by_status, brake_health, tire_health}
use aos_vehicle_platform.Bridge.Signal.{SignalSpec, relative_path, uint8_percent}
use aos_vehicle_platform.Bridge.Snapshot.{subscription_object, path_items}

-- `path.removeprefix("Vehicle.") for path in ENDPOINT_BY_STATUS`
status_items : Dict String Endpoint → Items
unfolding removeprefix
status_items [] = Items.nil
status_items ((path, endpoint) ∷ rest) =
    Items.cons (Json.str (removeprefix "Vehicle." path)) (status_items rest)

append_items : Items → Items → Items
append_items Items.nil ys = ys
append_items (Items.cons x xs) ys = Items.cons x (append_items xs ys)

-- A key that is there, with another value.
set_field : String → Json → Fields → Fields
set_field k v Fields.end = Fields.end
set_field k v (Fields.field j w fs) =
    if k == j then Fields.field j v fs else Fields.field j w (set_field k v fs)

-- `d[k]`
field_of : String → Json → Result Json
field_of k (Json.obj fs) = elim (get k fs) [ none ↦ err (key_error k) | some v ↦ ok v ]
field_of k _ = err type_error

with_field : String → Json → Json → Json
unfolding set_field
with_field k v (Json.obj fs) = Json.obj (set_field k v fs)
with_field k v j = j

-- `paths.extend(…)`
extended : Json → Result Json
unfolding append_items status_items
extended (Json.arr paths) = ok (Json.arr (append_items paths (status_items endpoint_by_status)))
extended _ = err type_error

-- The list in `filter[0]` is extended in place.
extend_filter : Json → Result Json
unfolding field_of with_field extended
extend_filter (Json.arr (Items.cons entry rest)) = do
  paths ← field_of "parameter" entry
  more ← extended paths
  ok (Json.arr (Items.cons (with_field "parameter" more entry) rest))
extend_filter _ = err type_error

unfoldable pub subscription : Library → String → Result String
unfolding extend_filter field_of with_field
subscription py raw = do
  request ← py.loads raw
  filter ← field_of "filter" request
  longer ← extend_filter filter
  ok (py.dumps (with_field "filter" longer request))

path_items-append :
    (xs ys : List SignalSpec) → path_items (xs ++ ys) ≡ append_items (path_items xs) (path_items ys)
unfolding path_items append_items
path_items-append [] ys = refl
path_items-append (x ∷ xs) ys =
    ap (Items.cons (Json.str (relative_path x))) (path_items-append xs ys)

-- A signal of the telemetry whose path is a status.
status_signal : Endpoint → SignalSpec
status_signal endpoint = record { path = endpoint.status_path; convert = uint8_percent }

-- The status paths as if they were signals; the converter is of no account to a request.
unfoldable pub status_signals : List SignalSpec
unfolding status_signal
status_signals = status_signal brake_health ∷ status_signal tire_health ∷ []

path_items-status : path_items status_signals ≡ status_items endpoint_by_status
unfolding path_items status_signals status_items relative_path
path_items-status = refl

pub subscription-eq :
    (py : Library) (raw id : String) (period : ℕ) (signals : List SignalSpec)
    → py.loads raw ≡ ok (subscription_object id period signals)
    → subscription py raw
      ≡ ok (py.dumps (subscription_object id period (signals ++ status_signals)))
unfolding subscription subscription_object get string_eq set_field extend_filter extended field_of
    with_field
subscription-eq py raw id period signals loaded =
    let paths : path_items (signals ++ status_signals)
        ≡ append_items (path_items signals) (status_items endpoint_by_status) =
      path_items-append signals status_signals
      ∙ ap (append_items (path_items signals)) path_items-status in
    rw (loaded, paths, subscription) refl
