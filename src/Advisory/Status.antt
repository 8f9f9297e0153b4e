-- ===== src/Advisory/Status.antt =====
-- advisory.py: `_validate_status`, and the checks that `handle_gateway_status` adds.
use aos_vehicle_platform.Prelude.{String, not, ◌||◌, List, [], ◌∷◌, ◌++◌, Result}
use aos_vehicle_platform.Prelude.{ok, raise_if, ◌>>=◌, ◌>>◌}
use aos_vehicle_platform.Python.{Json, Fields, Library, get_or_null, keys, same_set, is_int, in_set}
use aos_vehicle_platform.Python.Patterns.{is_uuid}
use aos_vehicle_platform.Advisory.Endpoint.{Endpoint}
use aos_vehicle_platform.Advisory.Request.{
  invalid_schema, invalid_value, is_text_of, is_positive_int, timestamp_of,
}

status_fields : List String
status_fields =
    "schemaVersion" ∷ "requestId" ∷ "producerEpoch" ∷ "sequence" ∷ "state" ∷ "reason"
    ∷ "gatewayObservedAt" ∷ "activeRecommendation" ∷ "activeReasonCode" ∷ "activeUntil" ∷ []

states : List String
states = "RECEIVED" ∷ "APPLIED" ∷ "CLEARED" ∷ "REJECTED" ∷ "EXPIRED" ∷ "FAILED" ∷ []

reasons : List String
reasons =
    "NONE" ∷ "UNAUTHORIZED_SOURCE" ∷ "UNAUTHORIZED_PATH" ∷ "INVALID_SCHEMA" ∷ "INVALID_VALUE"
    ∷ "STALE_REQUEST" ∷ "REPLAY_DETECTED" ∷ "SEQUENCE_ROLLBACK" ∷ "RATE_LIMITED"
    ∷ "QM_POLICY_DENIED" ∷ "INTERNAL_ERROR" ∷ []

recommendations : List String
recommendations =
    "NONE" ∷ "INSPECTION_RECOMMENDED" ∷ "TIRE_INSPECTION_RECOMMENDED"
    ∷ "TIRE_REPLACEMENT_RECOMMENDED" ∷ []

reason_codes : List String
reason_codes = "NONE" ∷ "PREDICTED_BRAKE_DEGRADATION" ∷ "PREDICTED_TIRE_WEAR" ∷ []

-- `if value not in texts: raise AdvisoryError("INVALID_VALUE")`
unfoldable pub require_in : Json → List String → Result (Unit {0})
require_in value texts = do known ← in_set value texts; raise_if (not known) invalid_value

module _ (py : Library) where
  active_until : Json → Result (Unit {0})
  active_until Json.null = ok tt
  active_until value = do until ← timestamp_of py value; ok tt

  unfoldable pub validate_status : Fields → Result (Unit {0})
  unfolding status_fields states reasons recommendations reason_codes active_until require_in
  validate_status status = do
    raise_if
        (not (same_set (keys status) status_fields)
          || not (is_int (get_or_null "schemaVersion" status) 1))
        invalid_schema
    raise_if
        (not (is_text_of is_uuid (get_or_null "requestId" status))
          || not (is_text_of is_uuid (get_or_null "producerEpoch" status)))
        invalid_value
    raise_if (not (is_positive_int (get_or_null "sequence" status))) invalid_value
    require_in (get_or_null "state" status) states
    require_in (get_or_null "reason" status) reasons
    require_in (get_or_null "activeRecommendation" status) recommendations
    require_in (get_or_null "activeReasonCode" status) reason_codes
    observed ← timestamp_of py (get_or_null "gatewayObservedAt" status)
    active_until (get_or_null "activeUntil" status)

  -- What the endpoint may say, beside what any status may.
  unfoldable pub check_status : Fields → Endpoint → Result (Unit {0})
  check_status status endpoint = do
    validate_status status
    require_in (get_or_null "activeRecommendation" status)
        (endpoint.recommendations ++ ("NONE" ∷ []))
    require_in (get_or_null "activeReasonCode" status) (endpoint.set_reason ∷ "NONE" ∷ [])
