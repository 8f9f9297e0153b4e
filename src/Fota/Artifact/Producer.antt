-- ===== src/Fota/Artifact/Producer.antt =====
-- The documents of packaging/fota/vdp_artifact.py: `envelope_configuration`, `_contract_delta` and
-- `producer_manifest`.
use aos_vehicle_platform.Prelude.{
  ℕ, String, ◌<>◌, Bool, true, false, not, ◌&&◌, ◌||◌, Option, none, some, List, [], ◌∷◌, ◌++◌,
  string_eq, ◌==◌, contains, if◌then◌else◌, Result, ok, err, key_error, type_error, ◌>>=◌,
}
use aos_vehicle_platform.Prelude.Text.{sorted}
use aos_vehicle_platform.Prelude.Dict.{Dict, lookup}
use aos_vehicle_platform.Python.{Json, Fields, pos, items}
use aos_vehicle_platform.Manifest.{component_type}
use aos_vehicle_platform.Manifest.Valid.{json_texts}
use aos_vehicle_platform.Fota.Documents.{object, array}
use aos_vehicle_platform.Fota.Tar.{Tools}
use aos_vehicle_platform.Fota.Prebuild.Compose.{Repository}
use aos_vehicle_platform.Fota.Artifact.{deployment_bundle_versions, layer_name, layer_media_type}
use aos_vehicle_platform.Fota.Artifact.Family.{item, texts_of}

abbrev pub product_source_revision : String
product_source_revision = "5303787379d8e852e09b3ccab3e87e099c0be5cf"

abbrev pub product_source_tree : String
product_source_tree = "0d51108b7b68661e971583db85c79256a26a628b"

abbrev pub factory_version : String
factory_version = "6.1.1-maninblack.27"

abbrev pub factory_raw_sha256 : String
factory_raw_sha256 = "6d947579865d33860c88e63a4630e88ab95a6941efc3a62468d89deb61faad78"

abbrev pub spdx_comment : Json
spdx_comment =
    Json.str "SPDX-FileCopyrightText: 2026 maninblack; SPDX-License-Identifier: Apache-2.0"

abbrev number : ℕ → Json
number n = Json.int (pos n)

abbrev text : String → Json
text s = Json.str s

envelope_runtimes : String → List (String × Json)
envelope_runtimes version =
    if contains deployment_bundle_versions version
    then (
      "configuration",
      object (
          (
            "runtimes",
            array (object (("codename", text component_type) ∷ ("type", text "runtime") ∷ []) ∷ []),
          )
          ∷ []),
    )
      ∷ []
    else []

envelope_item : String → String → String → Json
unfolding envelope_runtimes
envelope_item version media_type name = object (
    (
      "identity",
      object (
          ("codename", text component_type)
          ∷ ("description", text ("AosEdge Vehicle Data Platform " <> version))
          ∷ ("title", text "Vehicle Data Platform")
          ∷ ("type", text "component")
          ∷ []),
    )
    ∷ (
      "images",
      array (
          object (
            ("archInfo", object (("architecture", text "arm64") ∷ []))
            ∷ ("mediaType", text media_type)
            ∷ ("osInfo", object (("os", text "linux") ∷ []))
            ∷ ("path", text name)
            ∷ [])
          ∷ []),
    )
    ∷ ("sourceFolder", text "vehicle-data-platform")
    ∷ ("version", text version)
    ∷ envelope_runtimes version)

-- `envelope_configuration`
unfoldable pub envelope_configuration : String → Result Json
unfolding envelope_item
envelope_configuration version = do
  media_type ← layer_media_type version
  name ← layer_name version
  ok (
      object (
        ("$comment", spdx_comment)
        ∷ ("items", array (envelope_item version media_type name ∷ []))
        ∷ ("publisher", object (("author", text "maninblack") ∷ []))
        ∷ ("schemaVersion", number 2)
        ∷ []))

predecessors : Dict String (Option String)
predecessors =
    ("1.0.0", none)
    ∷ ("1.0.14", some "1.0.0")
    ∷ ("1.0.15", some "1.0.14")
    ∷ ("2.0.0", some "1.0.15")
    ∷ ("3.0.0", some "2.0.0")
    ∷ []

-- `predecessor`
unfoldable pub predecessor_of : String → Result (Option String)
unfolding predecessors
predecessor_of version = elim (lookup version predecessors) [
  | none ↦ err (key_error version)
  | some prior ↦ ok prior
]

-- `sorted(set(xs) - ys)`
added : List String → List String → List String
added [] ys = []
added (x ∷ xs) ys =
    let rest = added xs ys in if contains ys x || contains xs x then rest else x ∷ rest

unfoldable pub sorted_difference : List String → List String → List String
unfolding added
sorted_difference xs ys = sorted (added xs ys)

is_empty_list : List String → Bool
is_empty_list [] = true
is_empty_list (x ∷ xs) = false

or_null : Option String → Json
or_null none = Json.null
or_null (some s) = Json.str s

is_some : Option String → Bool
is_some none = false
is_some (some s) = true

-- `item["id"]` of each; one that is no text is a `TypeError` in the model.
ids_of : List Json → Result (List String)
ids_of [] = ok []
ids_of (v ∷ vs) = do
  id ← item "id" v
  texts ← texts_of (array (id ∷ []))
  rest ← ids_of vs
  ok (texts ++ rest)

-- What `for item in value` goes through, where each item is then subscripted: the characters of a text
-- and the keys of an object are texts, on which that is a `TypeError`, as it is to go through a number.
items_in : Json → Result (List Json)
items_in (Json.arr vs) = ok (items vs)
items_in (Json.str s) = if s == "" then ok [] else err type_error
items_in (Json.obj Fields.end) = ok []
items_in _ = err type_error

-- What the predecessor's accepted manifest names, `(paths, capabilities)`.
prior_of : Tools → Repository → Option String → Result (List String × List String)
prior_of t repo none = ok ([], [])
prior_of t repo (some version) = do
  raw ← repo ("providers/carla-viss-kuksa/releases/" <> version <> "/capability-manifest.json")
  prior ← t.loads_utf8 raw
  paths ← item "readPaths" prior >>= texts_of
  capabilities ← item "capabilities" prior >>= texts_of
  ok (paths, capabilities)

unfoldable pub delta_document : Option String → List String → List String → List String → Json
unfolding is_empty_list or_null is_some
delta_document predecessor capabilities paths ids = object (
    ("addedCapabilities", json_texts capabilities)
    ∷ ("addedReadPaths", json_texts paths)
    ∷ ("advisoryEndpointIds", json_texts (sorted ids))
    ∷ ("predecessor", or_null predecessor)
    ∷ (
      "strictAdditiveSuperset",
      Json.bool (not (is_empty_list capabilities) || not (is_empty_list paths)),
    )
    ∷ (
      "versionOnlySuccessor",
      Json.bool (is_some predecessor && is_empty_list capabilities && is_empty_list paths),
    )
    ∷ [])

-- `_contract_delta`
unfoldable pub contract_delta : Tools → Repository → String → Json → Result Json
unfolding prior_of ids_of items_in
contract_delta t repo version capability = do
  predecessor ← predecessor_of version
  (prior_paths, prior_capabilities) ← prior_of t repo predecessor
  capabilities ← item "capabilities" capability >>= texts_of
  let added_capabilities = sorted_difference capabilities prior_capabilities
  paths ← item "readPaths" capability >>= texts_of
  let added_paths = sorted_difference paths prior_paths
  endpoints ← item "advisoryEndpoints" capability
  ids ← items_in endpoints >>= ids_of
  ok (delta_document predecessor added_capabilities added_paths ids)
