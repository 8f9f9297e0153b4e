-- ===== src/Fota/Artifact/Candidate/Recorded.antt =====
-- The digests that a producer manifest records.
use aos_vehicle_platform.Prelude.{
  String, ◌≡◌, refl, ap, ◌∙◌, subst, true, List, [], ◌∷◌, arith, string_eq, ok, ◌>>=◌, >>=-eq-ok,
  ok-injective,
}
use aos_vehicle_platform.Python.{Json, get}
use aos_vehicle_platform.Python.Equal.{json_equals}
use aos_vehicle_platform.Python.Equal.Laws.{json_equals-str, json_equals-obj, json_equals-get}
use aos_vehicle_platform.Fota.Bytes.{Bytes}
use aos_vehicle_platform.Fota.Documents.{object}
use aos_vehicle_platform.Fota.Tar.{Tools}
use aos_vehicle_platform.Fota.Prebuild.Compose.{Repository}
use aos_vehicle_platform.Fota.Artifact.{
  candidate_id, prepared_filename, layer_path, layer_media_type,
}
use aos_vehicle_platform.Fota.Artifact.Family.{item}
use aos_vehicle_platform.Fota.Artifact.Producer.{contract_delta}
use aos_vehicle_platform.Fota.Artifact.Document.{
  prepared_record, layer_record, with_records, bound_entries, producer_manifest,
}

-- `v[key]` of a value that equals another.
item-equal :
    (key : String) (v w x : Json)
    → json_equals v w ≡ true
    → item key w ≡ ok x
    → (y : Json) × (item key v ≡ ok y) × (json_equals y x ≡ true)
unfolding item
item-equal key v (Json.obj gs) x h there =
    let (fs, is, same, within) = json_equals-obj v gs h in
    let (y, here, equal) = json_equals-get fs gs key x same within (ground arith) in
    (y, rw (is, here, item) refl, equal)
item-equal key v (Json.str s) x h there = cc
item-equal key v Json.null x h there = cc
item-equal key v (Json.bool b) x h there = cc
item-equal key v (Json.int z) x h there = cc
item-equal key v (Json.float d) x h there = cc
item-equal key v (Json.arr vs) x h there = cc

-- The text at the end of two keys.
text-equal :
    (key : String) (v w : Json) (s : String)
    → json_equals v w ≡ true
    → item key w ≡ ok (Json.str s)
    → item key v ≡ ok (Json.str s)
text-equal key v w s h there =
    let (y, here, equal) = item-equal key v w (Json.str s) h there in
    here ∙ ap ok (json_equals-str y s equal)

module _ (t : Tools) where
  prepared_record-sha256 :
      (name : String) (artifact : Bytes)
      → item "sha256" (prepared_record t name artifact) ≡ ok (Json.str (t.sha256 artifact))
  unfolding item prepared_record object get string_eq
  prepared_record-sha256 name artifact = refl

  layer_record-sha256 :
      (media_type path : String) (layer : Bytes)
      → item "sha256" (layer_record t media_type path layer) ≡ ok (Json.str (t.sha256 layer))
  unfolding item layer_record object get string_eq
  layer_record-sha256 media_type path layer = refl

  -- A manifest records these two files.
  pub record IsRecorded (artifact layer : Bytes) (manifest : Json) : Type 0 where
    pub name : String
    pub media_type : String
    pub path : String
    pub transport : Json
    pub prepared_of : item "preparedArtifact" manifest ≡ ok (prepared_record t name artifact)
    pub transport_of : item "transport" manifest ≡ ok transport
    pub layer_of : item "layer" transport ≡ ok (layer_record t media_type path layer)

  with_records-IsRecorded :
      (name media_type path : String) (artifact layer : Bytes) (others : List (String × Json))
      → IsRecorded artifact layer
          (object (with_records t name media_type path artifact layer others))
  unfolding with_records item object get string_eq
  with_records-IsRecorded name media_type path artifact layer others = record {
    name = name;
    media_type = media_type;
    path = path;
    transport = object (("layer", layer_record t media_type path layer) ∷ []);
    prepared_of = refl;
    transport_of = refl;
    layer_of = refl;
  }

  pub producer_manifest-IsRecorded :
      (version : String) (artifact layer : Bytes) (inputs capability : Json) (p s : String)
      (repo : Repository) (expected : Json)
      → producer_manifest t version artifact layer inputs capability p s repo ≡ ok expected
      → IsRecorded artifact layer expected
  unfolding producer_manifest bound_entries
  producer_manifest-IsRecorded version artifact layer inputs capability p s repo expected h =
      let (entries, bound, made) =
        >>=-eq-ok (bound_entries t version artifact layer inputs capability p s repo) _ h in
      let (id, _, b) = >>=-eq-ok (candidate_id version) _ bound in
      let (delta, _, b) = >>=-eq-ok (contract_delta t repo version capability) _ b in
      let (endpoints, _, b) = >>=-eq-ok (item "advisoryEndpoints" capability) _ b in
      let (paths, _, b) = >>=-eq-ok (item "readPaths" capability) _ b in
      let (name, _, b) = >>=-eq-ok (prepared_filename version) _ b in
      let (media_type, _, b) = >>=-eq-ok (layer_media_type version) _ b in
      let (path, _, b) = >>=-eq-ok (layer_path version) _ b in
      subst (IsRecorded artifact layer) (ap object (ok-injective b) ∙ ok-injective made)
        (with_records-IsRecorded name media_type path artifact layer _)

  -- The digests that a manifest gives which equals such a manifest.
  pub recorded-sha256 :
      (artifact layer : Bytes) (manifest expected : Json)
      → json_equals manifest expected ≡ true
      → IsRecorded artifact layer expected
      → ((item "preparedArtifact" manifest >>= item "sha256") ≡ ok (Json.str (t.sha256 artifact)))
        × ((item "transport" manifest >>= item "layer" >>= item "sha256")
            ≡ ok (Json.str (t.sha256 layer)))
  recorded-sha256 artifact layer manifest expected h r =
      let (prepared, is_prepared, same) =
        item-equal "preparedArtifact" manifest expected _ h r.prepared_of in
      let (transport, is_transport, same') =
        item-equal "transport" manifest expected r.transport h r.transport_of in
      let (inner, is_inner, same'') = item-equal "layer" transport r.transport _ same' r.layer_of in
      (
        rw is_prepared
            (text-equal "sha256" prepared _ _ same (prepared_record-sha256 r.name artifact)),
        rw (is_transport, is_inner)
            (text-equal "sha256" inner _ _ same'' (layer_record-sha256 r.media_type r.path layer)),
      )
