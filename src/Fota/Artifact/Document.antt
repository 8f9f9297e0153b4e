-- ===== src/Fota/Artifact/Document.antt =====
-- `producer_manifest` of packaging/fota/vdp_artifact.py, and the summary of a candidate.
use aos_vehicle_platform.Prelude.{ℕ, String, false, List, [], ◌∷◌, Result, ok, ◌>>=◌}
use aos_vehicle_platform.Prelude.Lists.{length}
use aos_vehicle_platform.Python.{Json, pos}
use aos_vehicle_platform.Manifest.{component_type}
use aos_vehicle_platform.Manifest.Valid.{json_texts}
use aos_vehicle_platform.Fota.Bytes.{Bytes}
use aos_vehicle_platform.Fota.Documents.{object, array}
use aos_vehicle_platform.Fota.Tar.{Tools}
use aos_vehicle_platform.Fota.Prebuild.Compose.{Repository}
use aos_vehicle_platform.Fota.Artifact.{
  candidate_id, prepared_filename, manifest_filename, layer_media_type, layer_path,
}
use aos_vehicle_platform.Fota.Artifact.Family.{item}
use aos_vehicle_platform.Fota.Artifact.Producer.{
  product_source_revision, product_source_tree, factory_version, factory_raw_sha256, spdx_comment,
  contract_delta,
}

abbrev number : ℕ → Json
number n = Json.int (pos n)

abbrev text : String → Json
text s = Json.str s

compatibility : Json
compatibility = object (
    ("componentRuntime", text "systemd-slot-component")
    ∷ ("componentType", text component_type)
    ∷ ("factoryImageRawSha256", text factory_raw_sha256)
    ∷ ("factoryImageVersion", text factory_version)
    ∷ ("providerSlotAtFactory", text "EMPTY")
    ∷ ("runtimeInterface", number 1)
    ∷ [])

licenses : Json
licenses = object (
    ("concluded", json_texts ("Apache-2.0" ∷ "BSD-3-Clause" ∷ "PSF-2.0" ∷ []))
    ∷ ("noticePath", text "THIRD_PARTY_NOTICES.md")
    ∷ ("spdxLicensePath", text "licenses/Apache-2.0.txt")
    ∷ [])

permissions : Json
permissions = object (
    ("dynamicProviderAuthorization", Json.bool false)
    ∷ ("linuxCapabilities", array [])
    ∷ ("providerAuthority", text "TRUSTED_OEM_PLATFORM_INTEGRATION")
    ∷ ("serviceCredentialReuse", Json.bool false)
    ∷ [])

qualification_evidence : Json
qualification_evidence = json_texts (
    "UT-VDP-001" ∷ "UT-VDP-002" ∷ "UT-VDP-003" ∷ "UT-VDP-004" ∷ "UT-VDP-005" ∷ "UT-VDP-006"
    ∷ "UT-VDP-007" ∷ "UT-VDP-008" ∷ "OFFLINE_DETERMINISTIC_DOUBLE_BUILD"
    ∷ "LIVE_VISS_KUKSA_AB_QUALIFICATION_DEFERRED" ∷ [])

resource_envelope : Json
resource_envelope = object (
    ("applicationStateStore", Json.bool false)
    ∷ ("cpuQuota", Json.null)
    ∷ ("logStore", Json.bool false)
    ∷ ("memoryQuotaBytes", Json.null)
    ∷ ("telemetryPersistence", Json.bool false)
    ∷ [])

source : Json
source = object (
    ("repository", text "aos-vehicle-platform")
    ∷ ("revision", text product_source_revision)
    ∷ ("tree", text product_source_tree)
    ∷ [])

-- The parts of the manifest that do not depend on the candidate's files.
fixed_entries : List (String × Json)
unfolding compatibility licenses permissions qualification_evidence resource_envelope source
fixed_entries =
    ("$comment", spdx_comment)
    ∷ ("artifactKind", text "AOS_COMPONENT_FOTA_UNSIGNED")
    ∷ ("compatibility", compatibility)
    ∷ ("licenses", licenses)
    ∷ ("permissions", permissions)
    ∷ (
      "product",
      object (
          ("componentId", text "vehicle-data-platform")
          ∷ ("name", text "AosEdge Vehicle Data Platform")
          ∷ []),
    )
    ∷ ("qualificationEvidence", qualification_evidence)
    ∷ ("resourceEnvelope", resource_envelope)
    ∷ ("schemaVersion", number 1)
    ∷ ("signingState", text "UNSIGNED")
    ∷ ("source", source)
    ∷ ("target", object (("architecture", text "arm64") ∷ ("os", text "linux") ∷ []))
    ∷ []

module _ (t : Tools) where
  -- `preparedArtifact`
  unfoldable pub prepared_record : String → Bytes → Json
  prepared_record name artifact = object (
      ("byteLength", number (length artifact))
      ∷ ("fileName", text name)
      ∷ ("sha256", text (t.sha256 artifact))
      ∷ [])

  -- `transport["layer"]`
  unfoldable pub layer_record : String → String → Bytes → Json
  layer_record media_type path layer = object (
      ("byteLength", number (length layer))
      ∷ ("mediaType", text media_type)
      ∷ ("path", text path)
      ∷ ("sha256", text (t.sha256 layer))
      ∷ [])

  -- The parts that do, with the records of the candidate's files first.
  unfoldable pub with_records :
      String → String → String → Bytes → Bytes → List (String × Json) → List (String × Json)
  with_records name media_type path artifact layer others =
      ("preparedArtifact", prepared_record name artifact)
      ∷ ("transport", object (("layer", layer_record media_type path layer) ∷ []))
      ∷ others

  unfoldable pub bound_entries :
      String
      → Bytes
      → Bytes
      → Json
      → Json
      → String
      → String
      → Repository
      → Result (List (String × Json))
  unfolding fixed_entries
  bound_entries version artifact layer inputs capability provenance_sha256 sbom_sha256 repo = do
    id ← candidate_id version
    delta ← contract_delta t repo version capability
    endpoints ← item "advisoryEndpoints" capability
    paths ← item "readPaths" capability
    name ← prepared_filename version
    media_type ← layer_media_type version
    path ← layer_path version
    ok (
        with_records name media_type path artifact layer (
          ("buildInputs", inputs)
          ∷ ("candidateId", text id)
          ∷ ("contractDelta", delta)
          ∷ (
            "functionalOutputs",
            object (("advisoryEndpoints", endpoints) ∷ ("kuksaPublishedPaths", paths) ∷ []),
          )
          ∷ (
            "provenance",
            object (
                ("path", text "provenance/provenance.json")
                ∷ ("sha256", text provenance_sha256)
                ∷ []),
          )
          ∷ (
            "sbom",
            object (
                ("format", text "SPDX-2.3")
                ∷ ("path", text "sbom/spdx.json")
                ∷ ("sha256", text sbom_sha256)
                ∷ []),
          )
          ∷ ("semanticVersion", text version)
          ∷ fixed_entries))

  -- `producer_manifest`, a dict: the order of its keys does not count.
  unfoldable pub producer_manifest :
      String → Bytes → Bytes → Json → Json → String → String → Repository → Result Json
  producer_manifest version artifact layer inputs capability provenance_sha256 sbom_sha256 repo = do
    entries ←
        bound_entries version artifact layer inputs capability provenance_sha256 sbom_sha256 repo
    ok (object entries)

  -- `expected_summary`
  unfoldable pub candidate_summary : String → Json → Bytes → Bytes → Result Json
  candidate_summary version manifest config manifest_bytes = do
    artifact ← item "preparedArtifact" manifest
    layer ← item "transport" manifest >>= item "layer"
    name ← manifest_filename version
    ok (
        object (
          ("$comment", spdx_comment)
          ∷ ("artifact", artifact)
          ∷ ("configSha256", text (t.sha256 config))
          ∷ ("layer", layer)
          ∷ (
            "manifest",
            object (
                ("byteLength", number (length manifest_bytes))
                ∷ ("fileName", text name)
                ∷ ("sha256", text (t.sha256 manifest_bytes))
                ∷ []),
          )
          ∷ ("schemaVersion", number 1)
          ∷ []))
