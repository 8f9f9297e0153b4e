-- ===== src/Advisory/Request.antt =====
-- advisory.py: `_canonical_object`, `_validate_request`, `_identity` and `_timestamp`.
use Prim.Native.String.{len}
use aos_vehicle_platform.Prelude.{ℕ, ◌+◌, ◌-◌, ltb, leb, String, ◌<>◌, Bool, true, false, not, ◌||◌}
use aos_vehicle_platform.Prelude.{
  Option, none, some, List, [], ◌∷◌, ◌++◌, Result, ok, err, Exception,
}
use aos_vehicle_platform.Prelude.{advisory_error, json_decode_error, unicode_error, key_error}
use aos_vehicle_platform.Prelude.{◌==◌, string_eq, nat_eq, if◌then◌else◌, raise_if, ◌>>=◌, ◌>>◌}
use aos_vehicle_platform.Prelude.Text.{ends_with_z, drop_last}
use aos_vehicle_platform.Python.{
  Json, pos, Fields, Library, Datetime, get_or_null, keys, same_set, is_str, is_int, in_set, is_utc,
}
use aos_vehicle_platform.Python.Patterns.{is_uuid, is_decision_id, is_semver, is_model_version}
use aos_vehicle_platform.Advisory.Endpoint.{
  Endpoint, max_acceptance_age, max_future_clock_skew, max_lease,
}

abbrev pub invalid_schema : Exception
invalid_schema = advisory_error "INVALID_SCHEMA"

abbrev pub invalid_value : Exception
invalid_value = advisory_error "INVALID_VALUE"

abbrev pub stale_request : Exception
stale_request = advisory_error "STALE_REQUEST"

-- `isinstance(value, str) and test(value)`
unfoldable pub is_text_of : (String → Bool) → Json → Bool
is_text_of test (Json.str s) = test s
is_text_of test _ = false

-- `isinstance(n, int) and not isinstance(n, bool) and n >= 1`
unfoldable pub positive_int : Json → Option ℕ
positive_int (Json.int (pos n)) = if leb 1 n then some n else none
positive_int _ = none

unfoldable pub is_positive_int : Json → Bool
unfolding positive_int
is_positive_int j = elim (positive_int j) [ none ↦ false | some n ↦ true ]

-- `except (json.JSONDecodeError, UnicodeError)`
unfoldable pub schema_failure : Exception → Exception
schema_failure json_decode_error = invalid_schema
schema_failure unicode_error = invalid_schema
schema_failure e = e

-- The identity of a request: its ID, the producer's epoch and the sequence number.
abbrev pub Identity : Type 0
Identity = String × (String × ℕ)

text_field : String → Fields → Result String
text_field k fs = elim (get_or_null k fs) [ Json.str s ↦ ok s | _ ↦ err (key_error k) ]

-- `_identity` makes no test of its own. It is called on validated messages, and the model reads the
-- fields at the types that the validation leaves.
unfoldable pub identity_of : Fields → Result Identity
unfolding text_field positive_int
identity_of fs = do
  request_id ← text_field "requestId" fs
  producer_epoch ← text_field "producerEpoch" fs
  elim (positive_int (get_or_null "sequence" fs)) [
    | none ↦ err (key_error "sequence")
    | some sequence ↦ ok (request_id, (producer_epoch, sequence))
  ]

base_fields : List String
base_fields =
    "schemaVersion" ∷ "requestId" ∷ "producerEpoch" ∷ "sequence" ∷ "operation" ∷ "reasonCode"
    ∷ "decisionId" ∷ "serviceVersion" ∷ "modelVersion" ∷ "issuedAt" ∷ "expiresAt" ∷ []

-- The checks of the shape, the identity and the provenance.
unfoldable pub check_form : Fields → Result (Unit {0})
unfolding base_fields is_positive_int is_text_of
check_form request = do
  let operation = get_or_null "operation" request
  let expected = base_fields ++ (if is_str operation "SET" then "recommendation" ∷ [] else [])
  raise_if
      (not (same_set (keys request) expected)
        || not (is_int (get_or_null "schemaVersion" request) 1))
      invalid_schema
  raise_if
      (not (is_text_of is_uuid (get_or_null "requestId" request))
        || not (is_text_of is_uuid (get_or_null "producerEpoch" request)))
      invalid_value
  raise_if (not (is_positive_int (get_or_null "sequence" request))) invalid_value
  raise_if (not (is_text_of is_semver (get_or_null "serviceVersion" request))) invalid_value
  raise_if (not (is_text_of is_decision_id (get_or_null "decisionId" request))) invalid_value
  raise_if (not (is_text_of is_model_version (get_or_null "modelVersion" request))) invalid_value

-- The checks of the operation. A recommendation that has no hash raises `TypeError`.
unfoldable pub check_operation : Endpoint → Fields → Result (Unit {0})
check_operation endpoint request =
    let operation = get_or_null "operation" request in
    if is_str operation "SET"
    then (do
      known ← in_set (get_or_null "recommendation" request) endpoint.recommendations
      raise_if (not known) invalid_value
      raise_if (not (is_str (get_or_null "reasonCode" request) endpoint.set_reason)) invalid_value)
    else if is_str operation "CLEAR"
    then raise_if (not (is_str (get_or_null "reasonCode" request) "CONDITION_CLEARED"))
        invalid_value
    else err invalid_value

-- The checks of the three times.
unfoldable pub check_times : ℕ → ℕ → Datetime → Result (Unit {0})
check_times issued_at expires_at now = do
  raise_if (not (is_utc now)) invalid_value
  raise_if
      (ltb (now.instant + max_future_clock_skew) issued_at
        || ltb max_acceptance_age (now.instant - issued_at))
      stale_request
  raise_if
      (leb expires_at now.instant
        || leb expires_at issued_at
        || ltb max_lease (expires_at - issued_at))
      stale_request

module _ (py : Library) where
  unfoldable pub timestamp_of : Json → Result ℕ
  timestamp_of (Json.str value) = do
    raise_if (not (ends_with_z value)) invalid_value
    elim (py.fromisoformat (drop_last value <> "+00:00")) [
      | none ↦ err invalid_value
      | some parsed ↦ do raise_if (not (is_utc parsed)) invalid_value; ok parsed.instant
    ]
  timestamp_of _ = err invalid_value

  -- `canonical_json` of an object.
  abbrev pub canonical_json : Fields → String
  canonical_json value = py.dumps_unicode (Json.obj value)

  unfoldable pub canonical_object : String → ℕ → Result Fields
  unfolding schema_failure
  canonical_object raw maximum_bytes = do
    raise_if (ltb maximum_bytes (len raw)) invalid_schema
    elim (py.loads raw) [
      | err e ↦ err (schema_failure e)
      | ok value ↦ elim value [
        | Json.obj fields ↦ if raw == canonical_json fields then ok fields else err invalid_schema
        | _ ↦ err invalid_schema
      ]
    ]

  unfoldable pub validate_request : Fields → Endpoint → Datetime → Result (Unit {0})
  validate_request request endpoint now = do
    check_form request
    check_operation endpoint request
    issued_at ← timestamp_of (get_or_null "issuedAt" request)
    expires_at ← timestamp_of (get_or_null "expiresAt" request)
    check_times issued_at expires_at now
