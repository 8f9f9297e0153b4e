-- ===== src/Fota/Prebuild/Bound.antt =====
-- The documents of a prebuild that `validate_bytes` of packaging/fota/vdp_family.py accepts.
use aos_vehicle_platform.Prelude.{
  String, ◌≡◌, ap, true, arith, string_eq, ok, >>=-eq-ok, ok-injective,
}
use aos_vehicle_platform.Python.{Json, Fields, get_or_null}
use aos_vehicle_platform.Manifest.Valid.{is_str-eq}
use aos_vehicle_platform.Fota.Documents.{as_object, is_true}
use aos_vehicle_platform.Fota.Prebuild.{
  check_component, check_prebuild, check_versions, check_bindings, check_documents,
}

as_object-eq : (v : Json) (fs : Fields) → as_object v ≡ ok fs → v ≡ Json.obj fs
unfolding as_object
as_object-eq (Json.obj fs) fs' h = ap Json.obj (ok-injective h)
as_object-eq (Json.arr vs) fs h = cc
as_object-eq Json.null fs h = cc
as_object-eq (Json.bool b) fs h = cc
as_object-eq (Json.int n) fs h = cc
as_object-eq (Json.float d) fs h = cc
as_object-eq (Json.str s) fs h = cc

is_true-eq : (v : Json) → is_true v ≡ true → v ≡ Json.bool true
unfolding is_true
is_true-eq (Json.bool b) h = ap Json.bool h
is_true-eq (Json.obj fs) h = cc
is_true-eq (Json.arr vs) h = cc
is_true-eq Json.null h = cc
is_true-eq (Json.int n) h = cc
is_true-eq (Json.float d) h = cc
is_true-eq (Json.str s) h = cc

-- The documents bind the manifest's digest, the version and the source revision.
pub record AreBound (component config prebuild : Json) (sha version revision : String)
    : Type 0 where
  pub c : Fields
  pub g : Fields
  pub p : Fields
  pub component_object : component ≡ Json.obj c
  pub config_object : config ≡ Json.obj g
  pub prebuild_object : prebuild ≡ Json.obj p
  pub component_digest : get_or_null "capabilityManifestSha256" c ≡ Json.str sha
  pub config_digest : get_or_null "capabilityManifestSha256" g ≡ Json.str sha
  pub component_version : get_or_null "semanticVersion" c ≡ Json.str version
  pub config_version : get_or_null "semanticVersion" g ≡ Json.str version
  pub source : get_or_null "sourceRevision" p ≡ Json.str revision
  pub not_deployable : get_or_null "notDeployable" p ≡ Json.bool true

check_versions-component :
    (c m : Fields) (version : String)
    → check_versions c m version ≡ ok tt
    → get_or_null "semanticVersion" c ≡ Json.str version
unfolding check_versions
check_versions-component c m version h =
    is_str-eq (get_or_null "semanticVersion" c) version (ground arith)

check_bindings-facts :
    (c g p : Fields) (sha version revision : String)
    → check_bindings c g p sha version revision ≡ ok tt
    → (get_or_null "semanticVersion" g ≡ Json.str version)
      × (get_or_null "capabilityManifestSha256" c ≡ Json.str sha)
      × (get_or_null "capabilityManifestSha256" g ≡ Json.str sha)
      × (get_or_null "sourceRevision" p ≡ Json.str revision)
      × (get_or_null "notDeployable" p ≡ Json.bool true)
unfolding check_bindings
check_bindings-facts c g p sha version revision h = (
  is_str-eq _ version (ground arith),
  is_str-eq _ sha (ground arith),
  is_str-eq _ sha (ground arith),
  is_str-eq _ revision (ground arith),
  is_true-eq _ (ground arith),
)

pub check_documents-AreBound :
    (component manifest config prebuild : Json) (sha version revision : String) (p : Fields)
    → check_documents component manifest config prebuild sha version revision ≡ ok p
    → (bound : AreBound component config prebuild sha version revision) × (bound.p ≡ p)
unfolding check_documents
check_documents-AreBound component manifest config prebuild sha version revision p h =
    let (c, is_c, h) = >>=-eq-ok (as_object component) _ h in
    let (_, _, h) = >>=-eq-ok (check_component c) _ h in
    let (p', is_p, h) = >>=-eq-ok (as_object prebuild) _ h in
    let (_, _, h) = >>=-eq-ok (check_prebuild p') _ h in
    let (m, _, h) = >>=-eq-ok (as_object manifest) _ h in
    let (_, versioned, h) = >>=-eq-ok (check_versions c m version) _ h in
    let (g, is_g, h) = >>=-eq-ok (as_object config) _ h in
    let (_, bindings, h) = >>=-eq-ok (check_bindings c g p' sha version revision) _ h in
    (
      record {
        c = c;
        g = g;
        p = p';
        component_object = as_object-eq component c is_c;
        config_object = as_object-eq config g is_g;
        prebuild_object = as_object-eq prebuild p' is_p;
        component_digest = (check_bindings-facts c g p' sha version revision bindings).1;
        config_digest = (check_bindings-facts c g p' sha version revision bindings).2;
        component_version = check_versions-component c m version versioned;
        config_version = (check_bindings-facts c g p' sha version revision bindings).0;
        source = (check_bindings-facts c g p' sha version revision bindings).3;
        not_deployable = (check_bindings-facts c g p' sha version revision bindings).4;
      },
      ok-injective h,
    )
