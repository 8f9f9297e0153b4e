-- ===== src/Advisory/Policy/Gateway.antt =====
-- What `AdvisoryPolicy.handle_gateway_status` (advisory.py) publishes, and when.
use aos_vehicle_platform.Prelude.{
  String, ◌≡◌, refl, sym, ◌∙◌, ap, ap₂, true, false, inl, inr, some, arith, string_eq, pair_eq,
  nat_eq, if◌then◌else◌, ok, Exception, Result-cases, Option-cases, Bool-cases, >>=-eq-ok,
  ok-injective,
}
use aos_vehicle_platform.Prelude.Dict.{Dict, lookup, erase, lookup-erase_eq}
use aos_vehicle_platform.Python.{Library, Fields}
use aos_vehicle_platform.Advisory.Endpoint.{
  Endpoint, endpoint_by_status, Decision, refused, max_status_bytes,
}
use aos_vehicle_platform.Advisory.Request.{Identity, canonical_object, canonical_json, identity_of}
use aos_vehicle_platform.Advisory.Status.{check_status}
use aos_vehicle_platform.Advisory.Policy.{
  VissWriter, StatusPublisher, State, read_status, publish, is_pending, is_terminal, is_success,
  handle_gateway_status, refused_by,
}
use aos_vehicle_platform.Advisory.Policy.Forward.{canonical_object-eq}

module _ (V : VissWriter) (S : StatusPublisher) (py : Library) where
  canonical-read_status :
      (raw : String) (endpoint : Endpoint) (fs : Fields) (i : Identity)
      → read_status V S py raw endpoint ≡ ok (fs, i)
      → canonical_json py fs ≡ raw
  unfolding read_status
  canonical-read_status raw endpoint fs i h =
      let (gs, e, h₁) = >>=-eq-ok (canonical_object py raw max_status_bytes) _ h in
      let (_, _, h₂) = >>=-eq-ok (check_status py gs endpoint) _ h₁ in
      let (j, _, h₃) = >>=-eq-ok (identity_of gs) _ h₂ in
      ap (canonical_json py) (ap (λ (t : Fields × Identity). t.0) (sym (ok-injective h₃)))
      ∙ sym (canonical_object-eq V S py raw max_status_bytes gs e)

  -- The status `fs`, of this identity, went to the publisher.
  pub record IsPublished (endpoint : Endpoint) (raw : String) (fs : Fields) (i : Identity)
      (d : Decision) (p p' : State V S) : Type 0 where
    pub awaited : is_pending V S py endpoint (lookup (endpoint.endpoint_id, i) p.pending) ≡ true
    pub text : canonical_json py fs ≡ raw
    pub published : (S.publish_status endpoint.status_path (canonical_json py fs) p.kuksa).0 ≡ ok tt
    pub publisher :
        (S.publish_status endpoint.status_path (canonical_json py fs) p.kuksa).1 ≡ p'.kuksa
    pub writer : p'.viss ≡ p.viss
    pub success : d.application_success ≡ is_success V S py fs
    pub rest :
        p'.pending
        ≡ (if is_terminal V S py fs then erase (endpoint.endpoint_id, i) p.pending else p.pending)

  publish-IsPublished :
      (endpoint : Endpoint) (raw : String) (fs : Fields) (i : Identity) (p : State V S)
      (d : Decision)
      → is_pending V S py endpoint (lookup (endpoint.endpoint_id, i) p.pending) ≡ true
      → canonical_json py fs ≡ raw
      → (publish V S py endpoint fs i p).0 ≡ ok d
      → IsPublished endpoint raw fs i d p (publish V S py endpoint fs i p).1
  unfolding publish
  publish-IsPublished endpoint raw fs i p d a t h =
      elim (Result-cases (S.publish_status endpoint.status_path (canonical_json py fs) p.kuksa).0) [
        | inr (x, bad) ↦ absurd (ground arith)
        | inl (u, good) ↦
            rw (good, publish)
              (record {
                awaited = a;
                text = t;
                published = good;
                publisher = refl;
                writer = refl;
                success =
                    ap (λ (x : Decision). x.application_success)
                      (sym (ok-injective (rw (good, publish) at h)));
                rest = refl;
              })
      ]

  refused_by-accepted :
      (x : Exception) (d : Decision) → refused_by V S x ≡ ok d → d.accepted ≡ false
  unfolding refused_by
  refused_by-accepted x d h = ground arith

  -- A status is accepted only on an endpoint's status path, with a valid text whose identity stands in
  -- the table of pending requests for that endpoint; the table also keeps a request whose write failed.
  -- The publisher takes exactly that text, the writer nothing, and the entry stays unless the status is
  -- terminal.
  pub handle_gateway_status-accepted :
      (path raw : String) (p : State V S) (d : Decision)
      → (handle_gateway_status V S py path raw p).0 ≡ ok d
      → d.accepted ≡ true
      → (endpoint : Endpoint) × (fs : Fields) × (i : Identity) × (lookup path endpoint_by_status
          ≡ some endpoint)
        × (read_status V S py raw endpoint ≡ ok (fs, i))
        × IsPublished endpoint raw fs i d p (handle_gateway_status V S py path raw p).1
  unfolding handle_gateway_status
  handle_gateway_status-accepted path raw p d h a =
      elim (Option-cases (lookup path endpoint_by_status)) [
        | inl unknown ↦ absurd (ground arith)
        | inr (endpoint, known) ↦ elim (Result-cases (read_status V S py raw endpoint)) [
          | inr (x, bad) ↦ absurd (ground (arith, refused_by-accepted x d))
          | inl ((fs, i), good) ↦
              elim (Bool-cases
                (is_pending V S py endpoint (lookup (endpoint.endpoint_id, i) p.pending))) [
                  | inr gone ↦ absurd (ground arith)
                  | inl awaited ↦ (
                    endpoint,
                    fs,
                    i,
                    known,
                    good,
                    rw (known, good, awaited, handle_gateway_status)
                        (publish-IsPublished endpoint raw fs i p d awaited
                          (canonical-read_status raw endpoint fs i good)
                          (rw (known, good, awaited, handle_gateway_status) at h)),
                  )
                ]
        ]
      ]

  refuses_unawaited :
      (path raw : String) (p : State V S) (endpoint : Endpoint) (fs : Fields) (i : Identity)
      → lookup path endpoint_by_status ≡ some endpoint
      → read_status V S py raw endpoint ≡ ok (fs, i)
      → is_pending V S py endpoint (lookup (endpoint.endpoint_id, i) p.pending) ≡ false
      → handle_gateway_status V S py path raw p ≡ (ok (refused "REPLAY_DETECTED"), p)
  unfolding handle_gateway_status
  refuses_unawaited path raw p endpoint fs i known good gone =
      rw (known, good, gone, handle_gateway_status)

  not_pending_after_erase :
      (endpoint : Endpoint) (i : Identity) (d : Dict (String × Identity) Endpoint)
      → is_pending V S py endpoint
          (lookup (endpoint.endpoint_id, i) (erase (endpoint.endpoint_id, i) d))
        ≡ false
  unfolding is_pending
  not_pending_after_erase endpoint i d =
      let key : String × Identity = (endpoint.endpoint_id, i) in
      rw (lookup-erase_eq key key d refl, is_pending)

  rest_gone :
      (endpoint' endpoint : Endpoint) (fs' fs : Fields) (i' i : Identity)
      (after before : Dict (String × Identity) Endpoint) (raw : String)
      → endpoint' ≡ endpoint
      → read_status V S py raw endpoint' ≡ ok (fs', i')
      → read_status V S py raw endpoint ≡ ok (fs, i)
      → is_terminal V S py fs ≡ true
      → after
        ≡ (if is_terminal V S py fs' then erase (endpoint'.endpoint_id, i') before else before)
      → is_pending V S py endpoint (lookup (endpoint.endpoint_id, i) after) ≡ false
  rest_gone endpoint' endpoint fs' fs i' i after before raw same good' good final rest =
      let pair : ok (fs', i') ≡ ok (fs, i) = sym good' ∙ ap (read_status V S py raw) same ∙ good in
      let same_fs : fs' ≡ fs = ap (λ (t : Fields × Identity). t.0) (ok-injective pair) in
      let same_i : i' ≡ i = ap (λ (t : Fields × Identity). t.1) (ok-injective pair) in
      let final' : is_terminal V S py fs' ≡ true = ap (is_terminal V S py) same_fs ∙ final in
      let gone : after ≡ erase (endpoint.endpoint_id, i) before =
        rest ∙ rw final' (ap₂ (λ (e : Endpoint) j. erase (e.endpoint_id, j) before) same same_i) in
      rw gone (not_pending_after_erase endpoint i before)

  -- A terminal status is accepted once: the same text, on the same path, is then refused as a
  -- replay, and changes nothing.
  pub terminal_once :
      (path raw : String) (p : State V S) (d : Decision) (endpoint : Endpoint) (fs : Fields)
      (i : Identity)
      → (handle_gateway_status V S py path raw p).0 ≡ ok d
      → d.accepted ≡ true
      → lookup path endpoint_by_status ≡ some endpoint
      → read_status V S py raw endpoint ≡ ok (fs, i)
      → is_terminal V S py fs ≡ true
      → handle_gateway_status V S py path raw (handle_gateway_status V S py path raw p).1
        ≡ (ok (refused "REPLAY_DETECTED"), (handle_gateway_status V S py path raw p).1)
  terminal_once path raw p d endpoint fs i h a known good final =
      let (endpoint', fs', i', known', good', s) =
        handle_gateway_status-accepted path raw p d h a in
      let p' = (handle_gateway_status V S py path raw p).1 in
      let same : endpoint' ≡ endpoint = cc in
      refuses_unawaited path raw p' endpoint fs i known good (
        rest_gone endpoint' endpoint fs' fs i' i p'.pending p.pending raw same good' good final
          s.rest)
