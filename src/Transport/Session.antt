-- ===== src/Transport/Session.antt =====
-- advisory_transport.py: the requests in flight on the VISS session, and `set_value`. The transport
-- is its policy's VISS writer; the `Link` is the part of its state that writing uses.
use aos_vehicle_platform.Prelude.{
  ℕ, ◌+◌, String, ◌<>◌, Bool, false, not, ◌||◌, [], ◌∷◌, Result, ok, err, runtime_error, ◌==◌,
  string_eq, if◌then◌else◌,
}
use aos_vehicle_platform.Prelude.Dict.{Dict, insert, erase}
use aos_vehicle_platform.Python.{Json, Fields, Library}
use aos_vehicle_platform.Advisory.Policy.{VissWriter}
use aos_vehicle_platform.Transport.Producer.{is_request_path, is_availability_path}

-- What the transport takes from outside: the monotonic clock, `uuid.uuid4`, and `websocket.send`.
pub record Environment : Type 1 where
  pub State : Type 0
  pub monotonic : State → ℕ × State
  pub uuid4 : State → String × State
  pub send : String → State → Result (Unit {0}) × State

pub record Link (E : Type 0) : Type 0 where
  pub environment : E
  -- `self.websocket is not None`
  pub attached : Bool
  pub pending : Dict String (String × ℕ)

abbrev pub response_timeout : ℕ
response_timeout = 2_000_000

-- `any(item[0] == path for item in self.pending.values())`
unfoldable pub in_flight : String → Dict String (String × ℕ) → Bool
in_flight path [] = false
in_flight path ((id, (p, deadline)) ∷ rest) = p == path || in_flight path rest

-- The object that `set_value` sends.
unfoldable pub set_message : String → String → String → Json
set_message path value request_id = Json.obj (
    Fields.field "action" (Json.str "set") (
      Fields.field "path" (Json.str path) (
        Fields.field "value" (Json.str value)
          (Fields.field "requestId" (Json.str request_id) Fields.end))))

-- What becomes of the entry when the message was sent, or could not be.
unfoldable pub after_send :
    {E : Type 0} → String → Link E → Result (Unit {0}) → E → Result (Unit {0}) × Link E
after_send request_id l (ok u) e = (ok tt, record l { environment = e })
after_send request_id l (err x) e =
    (err x, record l { environment = e; pending = erase request_id l.pending })

module _ (E : Environment) (py : Library) where
  -- The entry is made before the message is sent, and taken back if that fails.
  unfoldable pub send_set : String → String → Link E.State → Result (Unit {0}) × Link E.State
  unfolding set_message after_send
  send_set path value l =
      let (id, e₁) = E.uuid4 l.environment in
      let request_id = "vdp-advisory-" <> id in
      let (now, e₂) = E.monotonic e₁ in
      let pending = insert request_id (path, now + response_timeout) l.pending in
      let (r, e₃) = E.send (py.dumps (set_message path value request_id)) e₂ in
      after_send request_id (record l { pending = pending }) r e₃

  unfoldable pub set_value : String → String → Link E.State → Result (Unit {0}) × Link E.State
  set_value path value l =
      let sent = send_set path value l in
      if not (is_request_path path || is_availability_path path) || not l.attached
      then (err (runtime_error "advisory VISS route unavailable"), l)
      else if in_flight path l.pending
      then (err (runtime_error "advisory VISS response pending"), l)
      else sent

  abbrev pub link_writer : VissWriter
  link_writer = record { State = Link E.State; set_value = set_value }
