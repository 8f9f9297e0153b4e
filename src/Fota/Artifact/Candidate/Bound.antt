-- ===== src/Fota/Artifact/Candidate/Bound.antt =====
-- What `validate` of packaging/fota/vdp_artifact.py accepts.
use aos_vehicle_platform.Prelude.{
  String, ◌≡◌, refl, ap, ◌∙◌, subst, true, false, not, Option, none, some, [], ◌∷◌, string_eq,
  Result, ok, err, raise_if, ◌>>=◌, >>=-eq-ok, ok-injective, not_raised,
}
use aos_vehicle_platform.Prelude.Dict.{Dict}
use aos_vehicle_platform.Python.{Json, same_set}
use aos_vehicle_platform.Python.Equal.{json_equals}
use aos_vehicle_platform.Fota.Bytes.{Bytes, same_bytes, same_bytes-eq}
use aos_vehicle_platform.Fota.Documents.{file_names}
use aos_vehicle_platform.Fota.Tar.{Tools, member_map, member_map_bytes}
use aos_vehicle_platform.Fota.Prebuild.Compose.{Repository}
use aos_vehicle_platform.Fota.Disk.{Child, plain_child}
use aos_vehicle_platform.Fota.Artifact.{
  require_version, prepared_filename, layer_name, layer_path, validate_manifest_strings,
  canonical_json, canonical_document,
}
use aos_vehicle_platform.Fota.Artifact.Family.{item}
use aos_vehicle_platform.Fota.Artifact.Metadata.{validate_archive_metadata}
use aos_vehicle_platform.Fota.Artifact.Producer.{envelope_configuration}
use aos_vehicle_platform.Fota.Artifact.Layer.{Members, candidate_file, bytes_of, envelope_bytes}
use aos_vehicle_platform.Fota.Artifact.Document.{producer_manifest, candidate_summary}
use aos_vehicle_platform.Fota.Artifact.Candidate.Accepted.{IsAccepted, check_layer-IsAccepted}
use aos_vehicle_platform.Fota.Artifact.Candidate.Recorded.{
  producer_manifest-IsRecorded, recorded-sha256,
}
use aos_vehicle_platform.Fota.Artifact.Candidate.{
  Candidate, Contents, read_candidate, check_envelope, check_layer, check_manifest, validate,
}

candidate_file-eq :
    (name : String) (file : Option Bytes) (content : Bytes)
    → candidate_file name file ≡ ok content
    → file ≡ some content
unfolding candidate_file
candidate_file-eq name none content h = cc
candidate_file-eq name (some found) content h = ap some (ok-injective h)

opened_content :
    (r : Result (Option Bytes)) (content : Bytes)
    → (r >>= envelope_bytes) ≡ ok content
    → r ≡ ok (some content)
unfolding envelope_bytes
opened_content (ok none) content h = cc
opened_content (ok (some found)) content h = ap (λ c. ok (some c)) (ok-injective h)
opened_content (err e) content h = cc

module _ (t : Tools) where
  -- The envelope holds the layer byte for byte.
  check_envelope-layer :
      (artifact layer : Bytes) (version : String) (config : Bytes)
      → check_envelope t artifact layer version ≡ ok config
      → (content : Bytes) × (t.gunzip artifact ≡ ok (some content))
        × ((envelope : Members) × (member_map_bytes t content ≡ ok envelope)
            × ((path : String) × (layer_path version ≡ ok path)
                × (bytes_of path envelope ≡ ok layer)))
  unfolding check_envelope
  check_envelope-layer artifact layer version config h =
      let (content, opened, h) = >>=-eq-ok (t.gunzip artifact >>= envelope_bytes) _ h in
      let (envelope, read, h) = >>=-eq-ok (member_map_bytes t content) _ h in
      let (path, is_path, h) = >>=-eq-ok (layer_path version) _ h in
      let (_, _, h) =
        >>=-eq-ok (raise_if (not (same_set (file_names envelope) ("config.yaml" ∷ path ∷ []))) _) _
          h in
      let (_, _, h) = >>=-eq-ok (validate_archive_metadata t false envelope) _ h in
      let (found, _, h) = >>=-eq-ok (bytes_of "config.yaml" envelope) _ h in
      let (expected, _, h) = >>=-eq-ok (envelope_configuration version >>= canonical_json t) _ h in
      let (_, _, h) = >>=-eq-ok (raise_if (not (same_bytes found expected)) _) _ h in
      let (inner, is_inner, h) = >>=-eq-ok (bytes_of path envelope) _ h in
      let (_, same, _) = >>=-eq-ok (raise_if (not (same_bytes inner layer)) _) _ h in
      (
        content,
        opened_content (t.gunzip artifact) content opened,
        (
          envelope,
          read,
          (
            path,
            is_path,
            is_inner
                ∙ ap ok (same_bytes-eq inner layer (not_raised (same_bytes inner layer) _ same)),
          ),
        ),
      )

  check_manifest-digests :
      (repo : Repository) (candidate : Candidate) (contents : Contents) (config : Bytes)
      (version : String) (manifest : Json)
      → check_manifest t repo candidate contents config version ≡ ok manifest
      → ((item "preparedArtifact" manifest >>= item "sha256")
          ≡ ok (Json.str (t.sha256 candidate.artifact)))
        × ((item "transport" manifest >>= item "layer" >>= item "sha256")
            ≡ ok (Json.str (t.sha256 candidate.layer)))
  unfolding check_manifest
  check_manifest-digests repo candidate contents config version manifest h =
      let (expected, made, h) =
        >>=-eq-ok
          (producer_manifest t version candidate.artifact candidate.layer contents.inputs
            contents.capability contents.provenance_sha256 contents.sbom_sha256 repo)
          _ h in
      let (_, same, h) =
        >>=-eq-ok (raise_if (not (json_equals (Json.obj candidate.manifest) expected)) _) _ h in
      let (bytes, _, h) = >>=-eq-ok (canonical_json t (Json.obj candidate.manifest)) _ h in
      let (summary, _, h) =
        >>=-eq-ok (candidate_summary t version (Json.obj candidate.manifest) config bytes) _ h in
      let (_, _, h) =
        >>=-eq-ok (raise_if (not (json_equals (Json.obj candidate.summary) summary)) _) _ h in
      recorded-sha256 t candidate.artifact candidate.layer manifest expected
        (subst (λ m. json_equals m expected ≡ true) (ok-injective h)
          (not_raised (json_equals (Json.obj candidate.manifest) expected) _ same))
        (producer_manifest-IsRecorded t version candidate.artifact candidate.layer contents.inputs
          contents.capability contents.provenance_sha256 contents.sbom_sha256 repo expected made)

  -- The files of a candidate under their names.
  pub record HasFiles (children : Dict String Child) (version : String) (candidate : Candidate)
      : Type 0 where
    pub artifact_name : String
    pub name : String
    pub is_artifact_name : prepared_filename version ≡ ok artifact_name
    pub is_name : layer_name version ≡ ok name
    pub artifact_file : plain_child artifact_name children ≡ some candidate.artifact
    pub layer_file : plain_child name children ≡ some candidate.layer

  read_candidate-HasFiles :
      (children : Dict String Child) (version manifest_name : String) (manifest_file : Option Bytes)
      (candidate : Candidate)
      → read_candidate t children version manifest_name manifest_file ≡ ok candidate
      → HasFiles children version candidate
  unfolding read_candidate
  read_candidate-HasFiles children version manifest_name manifest_file candidate h =
      let (artifact_name, is_artifact_name, h) = >>=-eq-ok (prepared_filename version) _ h in
      let (name, is_name, h) = >>=-eq-ok (layer_name version) _ h in
      let (artifact, has_artifact, h) =
        >>=-eq-ok (candidate_file artifact_name (plain_child artifact_name children)) _ h in
      let (layer, has_layer, h) = >>=-eq-ok (candidate_file name (plain_child name children)) _ h in
      let (summary_raw, _, h) =
        >>=-eq-ok (candidate_file "candidate.json" (plain_child "candidate.json" children)) _ h in
      let (manifest_raw, _, h) = >>=-eq-ok (candidate_file manifest_name manifest_file) _ h in
      let (manifest, _, h) = >>=-eq-ok (canonical_document t manifest_raw) _ h in
      let (_, _, h) = >>=-eq-ok (validate_manifest_strings t (Json.obj manifest)) _ h in
      let (summary, _, h) = >>=-eq-ok (canonical_document t summary_raw) _ h in
      subst (HasFiles children version) (ok-injective h) (record {
        artifact_name = artifact_name;
        name = name;
        is_artifact_name = is_artifact_name;
        is_name = is_name;
        artifact_file =
            candidate_file-eq artifact_name (plain_child artifact_name children) artifact
              has_artifact;
        layer_file = candidate_file-eq name (plain_child name children) layer has_layer;
      })

  -- A candidate whose manifest binds its files, whose envelope holds its layer, and whose layer holds
  -- the repository's files.
  pub record IsBound (repo : Repository) (children : Dict String Child) (version : String)
      (manifest : Json) : Type 0 where
    pub candidate : Candidate
    pub files : HasFiles children version candidate
    pub artifact_digest :
        (item "preparedArtifact" manifest >>= item "sha256")
        ≡ ok (Json.str (t.sha256 candidate.artifact))
    pub layer_digest :
        (item "transport" manifest >>= item "layer" >>= item "sha256")
        ≡ ok (Json.str (t.sha256 candidate.layer))
    pub content : Bytes
    pub opened : t.gunzip candidate.artifact ≡ ok (some content)
    pub envelope : Members
    pub envelope_read : member_map_bytes t content ≡ ok envelope
    pub path : String
    pub is_path : layer_path version ≡ ok path
    pub inner : bytes_of path envelope ≡ ok candidate.layer
    pub members : Members
    pub members_read : member_map t candidate.layer ≡ ok members
    pub accepted : IsAccepted repo members version

  pub validate-children :
      (repo : Repository) (children : Dict String Child) (version manifest_name : String)
      (manifest_file : Option Bytes) (manifest : Json)
      → validate t repo (some children) version manifest_name manifest_file ≡ ok manifest
      → IsBound repo children version manifest
  unfolding validate
  validate-children repo children version manifest_name manifest_file manifest h =
      let (_, _, h) = >>=-eq-ok (require_version version) _ h in
      let (candidate, read, h) =
        >>=-eq-ok (read_candidate t children version manifest_name manifest_file) _ h in
      let (config, sealed, h) =
        >>=-eq-ok (check_envelope t candidate.artifact candidate.layer version) _ h in
      let (contents, checked, h) = >>=-eq-ok (check_layer t repo candidate.layer version) _ h in
      let (artifact_digest, layer_digest) =
        check_manifest-digests repo candidate contents config version manifest h in
      let (content, opened, (envelope, envelope_read, (path, is_path, inner))) =
        check_envelope-layer candidate.artifact candidate.layer version config sealed in
      let (members, members_read, accepted) =
        check_layer-IsAccepted t repo candidate.layer version contents checked in
      record {
        candidate = candidate;
        files = read_candidate-HasFiles children version manifest_name manifest_file candidate read;
        artifact_digest = artifact_digest;
        layer_digest = layer_digest;
        content = content;
        opened = opened;
        envelope = envelope;
        envelope_read = envelope_read;
        path = path;
        is_path = is_path;
        inner = inner;
        members = members;
        members_read = members_read;
        accepted = accepted;
      }

  validate-none :
      (repo : Repository) (version manifest_name : String) (manifest_file : Option Bytes)
      (manifest : Json)
      → ¬ (validate t repo none version manifest_name manifest_file ≡ ok manifest)
  unfolding validate
  validate-none repo version manifest_name manifest_file manifest h =
      let (_, _, raised) = >>=-eq-ok (require_version version) _ h in cc

  -- What `validate` accepts is a directory whose manifest has the SHA-256 digests of the prepared
  -- artifact and of the layer that stand in it under the version's names. The artifact, decompressed,
  -- is an archive that holds these bytes of the layer, and the layer holds the repository's capability
  -- manifest, provider profile and dependency lock byte for byte.
  pub validate-IsBound :
      (repo : Repository) (root : Option (Dict String Child)) (version manifest_name : String)
      (manifest_file : Option Bytes) (manifest : Json)
      → validate t repo root version manifest_name manifest_file ≡ ok manifest
      → (children : Dict String Child) × (root ≡ some children)
        × IsBound repo children version manifest
  validate-IsBound repo none version manifest_name manifest_file manifest h =
      absurd (validate-none repo version manifest_name manifest_file manifest h)
  validate-IsBound repo (some children) version manifest_name manifest_file manifest h = (
    children,
    refl,
    validate-children repo children version manifest_name manifest_file manifest h,
  )
