-- ===== src/Advisory/Policy/Fresh.antt =====
-- The times of a request that `AdvisoryPolicy.handle_request` (advisory.py) forwards.
use aos_vehicle_platform.Prelude.{ℕ, ◌+◌, ◌≤◌, ◌<◌, String, ◌≡◌, true, arith, ok, >>=-eq-ok}
use aos_vehicle_platform.Python.{Fields, Library, Datetime, get_or_null, is_utc}
use aos_vehicle_platform.Advisory.Endpoint.{
  Endpoint, Caller, Decision, max_request_bytes, max_acceptance_age, max_future_clock_skew,
  max_lease,
}
use aos_vehicle_platform.Advisory.Request.{
  canonical_object, validate_request, check_form, check_operation, check_times, timestamp_of,
}
use aos_vehicle_platform.Advisory.Policy.{
  VissWriter, StatusPublisher, State, Request, read_request, handle_request,
}
use aos_vehicle_platform.Advisory.Policy.Forward.{handle_request-forwarded}

-- The request was issued at most two seconds ago and at most 0.1 seconds ahead, has not expired, and
-- lasts for at most 30 seconds.
pub record IsFresh (py : Library) (request : Fields) (now : Datetime) : Type 0 where
  pub issued_at : ℕ
  pub expires_at : ℕ
  pub issued : timestamp_of py (get_or_null "issuedAt" request) ≡ ok issued_at
  pub expires : timestamp_of py (get_or_null "expiresAt" request) ≡ ok expires_at
  pub utc : is_utc now ≡ true
  pub not_ahead : issued_at ≤ now.instant + max_future_clock_skew
  pub not_old : now.instant ≤ issued_at + max_acceptance_age
  pub not_expired : now.instant < expires_at
  pub in_order : issued_at < expires_at
  pub short : expires_at ≤ issued_at + max_lease

check_times-bounds :
    (i e : ℕ) (now : Datetime)
    → check_times i e now ≡ ok tt
    → (is_utc now ≡ true)
      × (i ≤ now.instant + max_future_clock_skew)
      × (now.instant ≤ i + max_acceptance_age)
      × (now.instant < e)
      × (i < e)
      × (e ≤ i + max_lease)
unfolding check_times
check_times-bounds i e now h =
    (ground arith, ground arith, ground arith, ground arith, ground arith, ground arith)

validate_request-IsFresh :
    (py : Library) (request : Fields) (endpoint : Endpoint) (now : Datetime)
    → validate_request py request endpoint now ≡ ok tt
    → IsFresh py request now
unfolding validate_request
validate_request-IsFresh py request endpoint now h =
    let (_, _, h₁) = >>=-eq-ok (check_form request) _ h in
    let (_, _, h₂) = >>=-eq-ok (check_operation endpoint request) _ h₁ in
    let (i, issued, h₃) = >>=-eq-ok (timestamp_of py (get_or_null "issuedAt" request)) _ h₂ in
    let (e, expires, h₄) = >>=-eq-ok (timestamp_of py (get_or_null "expiresAt" request)) _ h₃ in
    let (utc, ahead, old, live, order, short) = check_times-bounds i e now h₄ in
    record {
      issued_at = i;
      expires_at = e;
      issued = issued;
      expires = expires;
      utc = utc;
      not_ahead = ahead;
      not_old = old;
      not_expired = live;
      in_order = order;
      short = short;
    }

read_request-IsFresh :
    (V : VissWriter) (S : StatusPublisher) (py : Library) (raw : String) (endpoint : Endpoint)
    (now : Datetime) (r : Request)
    → read_request V S py raw endpoint now ≡ ok r
    → (fs : Fields) × (canonical_object py raw max_request_bytes ≡ ok fs) × IsFresh py fs now
unfolding read_request
read_request-IsFresh V S py raw endpoint now r h =
    let (fs, e, h₁) = >>=-eq-ok (canonical_object py raw max_request_bytes) _ h in
    let (_, valid, _) = >>=-eq-ok (validate_request py fs endpoint now) _ h₁ in
    (fs, e, validate_request-IsFresh py fs endpoint now valid)

-- What is forwarded is fresh: it was issued at most two seconds before the given time and at most 0.1
-- seconds after it, has not expired by then, and lasts for at most 30 seconds.
pub handle_request-IsFresh :
    (V : VissWriter) (S : StatusPublisher) (py : Library) (caller : Caller) (path raw : String)
    (now_utc : Datetime) (now : ℕ) (p : State V S) (d : Decision)
    → (handle_request V S py caller path raw now_utc now p).0 ≡ ok d
    → d.forwarded ≡ true
    → (fs : Fields) × (canonical_object py raw max_request_bytes ≡ ok fs) × IsFresh py fs now_utc
handle_request-IsFresh V S py caller path raw now_utc now p d h f =
    let (endpoint, r, _, _, _, _, read, _, _) =
      handle_request-forwarded V S py caller path raw now_utc now p d h f in
    read_request-IsFresh V S py raw endpoint now_utc r read
