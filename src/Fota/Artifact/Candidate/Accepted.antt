-- ===== src/Fota/Artifact/Candidate/Accepted.antt =====
-- The repository's files in a layer that `validate` of packaging/fota/vdp_artifact.py accepts.
use aos_vehicle_platform.Prelude.{
  String, ◌≡◌, ap, ◌∙◌, true, string_eq, ok, ◌>>=◌, >>=-eq-ok, not_raised,
}
use aos_vehicle_platform.Python.{Json}
use aos_vehicle_platform.Fota.Bytes.{Bytes, same_bytes, same_bytes-eq}
use aos_vehicle_platform.Fota.Documents.{as_object}
use aos_vehicle_platform.Fota.Tar.{Tools, member_map}
use aos_vehicle_platform.Fota.Prebuild.Compose.{Repository}
use aos_vehicle_platform.Fota.Artifact.Metadata.{validate_archive_metadata}
use aos_vehicle_platform.Fota.Artifact.Layer.{
  Members, check_layer_layout, bytes_of, check_accepted, check_provenance,
}
use aos_vehicle_platform.Fota.Artifact.Candidate.{
  release_path, Contents, check_contents, check_product, check_origin, check_layer,
}

check_accepted-eq :
    (accepted : Bytes) (name : String) (members : Members) (message : String)
    → check_accepted accepted name members message ≡ ok tt
    → bytes_of name members ≡ ok accepted
unfolding check_accepted
check_accepted-eq accepted name members message h =
    let (content, is, same) = >>=-eq-ok (bytes_of name members) _ h in
    is ∙ ap ok (same_bytes-eq content accepted (not_raised (same_bytes content accepted) _ same))

-- A member of the layer that is a file of the repository.
abbrev HasFile : Repository → Members → String → String → Type 0
HasFile repo members path name =
    (content : Bytes) × (repo path ≡ ok content) × (bytes_of name members ≡ ok content)

-- The layer has the repository's files.
pub record IsAccepted (repo : Repository) (members : Members) (version : String) : Type 0 where
  pub capability : Bytes
  pub provider : Bytes
  pub lock : Bytes
  pub capability_file : repo (release_path version "capability-manifest.json") ≡ ok capability
  pub provider_file : repo (release_path version "provider.json") ≡ ok provider
  pub lock_file : repo "packaging/fota/requirements-arm64.txt" ≡ ok lock
  pub capability_member : bytes_of "config/capability-manifest.json" members ≡ ok capability
  pub provider_member : bytes_of "config/provider.json" members ≡ ok provider
  pub lock_member : bytes_of "dependency-lock/requirements-arm64.txt" members ≡ ok lock

module _ (t : Tools) where
  -- What the two halves of the checks show.
  check_product-accepted :
      (repo : Repository) (members : Members) (version : String) (capability : Json)
      → check_product t repo members version ≡ ok capability
      → HasFile repo members
          (release_path version "capability-manifest.json")
          "config/capability-manifest.json"
        × HasFile repo members (release_path version "provider.json") "config/provider.json"
  unfolding check_product
  check_product-accepted repo members version capability h =
      let (component, _, h) = >>=-eq-ok (bytes_of "component.json" members >>= t.loads) _ h in
      let (capability, _, h) =
        >>=-eq-ok (bytes_of "config/capability-manifest.json" members >>= t.loads) _ h in
      let (provider, _, h) = >>=-eq-ok (bytes_of "config/provider.json" members >>= t.loads) _ h in
      let (a, is_a, h) = >>=-eq-ok (repo (release_path version "capability-manifest.json")) _ h in
      let (b, is_b, h) = >>=-eq-ok (repo (release_path version "provider.json")) _ h in
      let (_, has_a, h) =
        >>=-eq-ok (check_accepted a "config/capability-manifest.json" members _) _ h in
      let (_, has_b, h) = >>=-eq-ok (check_accepted b "config/provider.json" members _) _ h in
      (
        (a, is_a, check_accepted-eq a "config/capability-manifest.json" members _ has_a),
        (b, is_b, check_accepted-eq b "config/provider.json" members _ has_b),
      )

  check_origin-accepted :
      (repo : Repository) (members : Members) (version : String) (capability : Json)
      (contents : Contents)
      → check_origin t repo members version capability ≡ ok contents
      → HasFile repo members "packaging/fota/requirements-arm64.txt"
          "dependency-lock/requirements-arm64.txt"
  unfolding check_origin
  check_origin-accepted repo members version capability contents h =
      let (raw, _, h) = >>=-eq-ok (bytes_of "provenance/provenance.json" members) _ h in
      let (value, _, h) = >>=-eq-ok (t.loads raw) _ h in
      let (sbom, _, h) = >>=-eq-ok (bytes_of "sbom/spdx.json" members) _ h in
      let (sbom_value, _, h) = >>=-eq-ok (t.loads sbom) _ h in
      let (provenance, _, h) = >>=-eq-ok (as_object value) _ h in
      let (_, _, h) = >>=-eq-ok (check_provenance provenance version) _ h in
      let (lock, is_lock, h) = >>=-eq-ok (repo "packaging/fota/requirements-arm64.txt") _ h in
      let (_, has_lock, _) =
        >>=-eq-ok (check_accepted lock "dependency-lock/requirements-arm64.txt" members _) _ h in
      (
        lock,
        is_lock,
        check_accepted-eq lock "dependency-lock/requirements-arm64.txt" members _ has_lock,
      )

  check_contents-IsAccepted :
      (repo : Repository) (members : Members) (version : String) (contents : Contents)
      → check_contents t repo members version ≡ ok contents
      → IsAccepted repo members version
  unfolding check_contents
  check_contents-IsAccepted repo members version contents h =
      let (capability, product, origin) = >>=-eq-ok (check_product t repo members version) _ h in
      let ((a, is_a, has_a), (b, is_b, has_b)) =
        check_product-accepted repo members version capability product in
      let (c, is_c, has_c) =
        check_origin-accepted repo members version capability contents origin in
      record {
        capability = a;
        provider = b;
        lock = c;
        capability_file = is_a;
        provider_file = is_b;
        lock_file = is_c;
        capability_member = has_a;
        provider_member = has_b;
        lock_member = has_c;
      }

  pub check_layer-IsAccepted :
      (repo : Repository) (layer : Bytes) (version : String) (contents : Contents)
      → check_layer t repo layer version ≡ ok contents
      → (members : Members) × (member_map t layer ≡ ok members) × IsAccepted repo members version
  unfolding check_layer
  check_layer-IsAccepted repo layer version contents h =
      let (members, read, h) = >>=-eq-ok (member_map t layer) _ h in
      let (_, _, h) = >>=-eq-ok (validate_archive_metadata t true members) _ h in
      let (_, _, h) = >>=-eq-ok (check_layer_layout members version) _ h in
      (members, read, check_contents-IsAccepted repo members version contents h)
