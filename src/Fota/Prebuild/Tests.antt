-- ===== src/Fota/Prebuild/Tests.antt =====
-- A small repository whose prebuild of 1.0.0 is composed, checked and prepared.
use aos_vehicle_platform.Prelude.{
  String, ◌≡◌, refl, Bool, true, false, ◌≢◌, ◌==◌, none, some, List, [], ◌∷◌, ◌++◌, string_eq,
  nat_eq, if◌then◌else◌, contains, Result, ok, err, json_decode_error, prebuild_error,
}
use aos_vehicle_platform.Prelude.Dict.{Dict, lookup, insert}
use aos_vehicle_platform.Python.{Json, Fields, get_or_null}
use aos_vehicle_platform.Manifest.{component_type}
use aos_vehicle_platform.Fota.Bytes.{Bytes, ascii, same_bytes}
use aos_vehicle_platform.Fota.Documents.{object, fields_of}
use aos_vehicle_platform.Fota.Tar.{Tools, archive_end, sort_items, ustar, members}
use aos_vehicle_platform.Fota.Tar.RoundTrip.{read_back, written}
use aos_vehicle_platform.Fota.Disk.Laws.{IsPublished, HasClearWay, HasWay}
use aos_vehicle_platform.Fota.Disk.{Disk, folder, leaf, plain}
use aos_vehicle_platform.Fota.Prebuild.{validate_bytes}
use aos_vehicle_platform.Fota.Prebuild.Compose.{
  Repository, source_payload, component_document, prebuild_entries, compose, indented_json,
}
use aos_vehicle_platform.Fota.Prebuild.Output.{prepare, validate_directory, summary_of}
use aos_vehicle_platform.Fota.Prebuild.Valid.{IsPrebuild, validate_bytes-IsPrebuild}
use aos_vehicle_platform.Fota.Prebuild.Prepared.{
  ReadsBack, summary_fields, prepare-validate_directory,
}
use aos_vehicle_platform.Fota.Documents.{
  array, content_of, names_under, file_names, has_file, differs, as_object, is_true,
}
use aos_vehicle_platform.Fota.Family.{profile_module, check_releases}
use aos_vehicle_platform.Fota.Paths.{
  add_parents, parent, posix_path, parts_of, is_unsafe, rstrip, add, as_posix, is_slash, keep, join,
  scan,
}
use aos_vehicle_platform.Fota.Paths.Parents.{climb}
use aos_vehicle_platform.Fota.Tar.RoundTrip.{all_parents}
use aos_vehicle_platform.Fota.Tar.{
  directories, ustar_entries, members_from, observe_member, file_entry, directory_entry,
}
use aos_vehicle_platform.Fota.Prebuild.Compose.{compose_archive, is_revision}
use aos_vehicle_platform.Fota.Prebuild.{
  validate_files, check_layout, check_forbidden, forbidden, check_documents, check_component,
  check_prebuild, check_versions, check_bindings, expected_source_files, listed,
}
use aos_vehicle_platform.Fota.Bytes.{starts_with, any_occurs}
use aos_vehicle_platform.Python.{get, same_set, is_subset, is_str, is_int, keys}
use aos_vehicle_platform.Manifest.{is_objects, is_object}
use aos_vehicle_platform.Prelude.Text.{every, drop_last, codes_le, sorted}

-- Every file of the repository holds its path.
abbrev repo : Repository
repo path = ok (ascii path)

abbrev revision : String
revision = "0123456789abcdef0123456789abcdef01234567"

abbrev payload_of : Result (Dict String Bytes) → Dict String Bytes
payload_of (ok files) = files
payload_of (err e) = []

abbrev payload : Dict String Bytes
payload = payload_of (source_payload repo "1.0.0")

-- A value by the key that it begins with.
abbrev first_key : Json → String
first_key (Json.obj (Fields.field k v fs)) = k
first_key _ = ""

abbrev sha256 : Bytes → String
sha256 content = "0"

abbrev files : Dict String Bytes
files = payload ++ ("component.json", ascii "architecture\n") ∷ []

-- What is composed, but for the documents that are read back.
abbrev writing : Tools
writing = record {
  sha256 = sha256;
  loads = λ content. err json_decode_error;
  loads_utf8 = λ content. err json_decode_error;
  dumps_indent = first_key;
  dumps_canonical = λ value. ok [];
  tar_write = λ entries. ok (ascii "ustar");
  tar_read = λ archive. archive_end;
  tar_read_any = λ archive. archive_end;
  gunzip = λ content. ok none;
  lower = λ text. text;
}

abbrev prebuild : List (String × Json)
prebuild = prebuild_entries writing "1.0.0" revision "0" "0" files

abbrev manifest : Json
manifest =
    object (("componentType", Json.str component_type) ∷ ("semanticVersion", Json.str "1.0.0") ∷ [])

abbrev config : Json
config =
    object (("semanticVersion", Json.str "1.0.0") ∷ ("capabilityManifestSha256", Json.str "0") ∷ [])

abbrev document : Bytes → Result Json
document content =
    if same_bytes content (ascii "architecture\n")
    then ok (component_document "1.0.0" "0")
    else if same_bytes content (ascii "$comment\n")
    then ok (object prebuild)
    else if same_bytes content (ascii "providers/carla-viss-kuksa/releases/1.0.0/provider.json")
    then ok config
    else ok manifest

abbrev tools : Tools
tools = record writing {
  loads = document;
  loads_utf8 = λ content. ok (summary_of writing prebuild (ascii "ustar"));
  tar_read = λ archive. read_back (written (files ++ ("prebuild.json", ascii "$comment\n") ∷ []));
}

composed : compose tools repo "1.0.0" revision ≡ ok (ascii "ustar", prebuild)
unfolding compose compose_archive source_payload is_revision content_of lookup profile_module
    component_document prebuild_entries object array fields_of indented_json ustar directories
    add_parents parent posix_path parts_of ustar_entries sort_items validate_bytes members
    members_from observe_member read_back written all_parents climb is_unsafe rstrip insert
    validate_files check_layout check_releases names_under file_names has_file differs starts_with
    same_set is_subset contains check_forbidden any_occurs forbidden same_bytes check_documents
    check_component check_prebuild check_versions check_bindings as_object is_true get get_or_null
    is_str is_int keys is_objects expected_source_files listed string_eq nat_eq file_entry
    directory_entry add as_posix every drop_last is_slash keep codes_le sorted join scan is_object
composed = refl

-- The release does not fit the module that the archive has.
other_release :
    validate_bytes tools (ascii "ustar") "3.0.0" revision
    ≡ err (prebuild_error "source prebuild contains another release profile")
unfolding compose compose_archive source_payload is_revision content_of lookup profile_module
    component_document prebuild_entries object array fields_of indented_json ustar directories
    add_parents parent posix_path parts_of ustar_entries sort_items validate_bytes members
    members_from observe_member read_back written all_parents climb is_unsafe rstrip insert
    validate_files check_layout check_releases names_under file_names has_file differs starts_with
    same_set is_subset contains check_forbidden any_occurs forbidden same_bytes check_documents
    check_component check_prebuild check_versions check_bindings as_object is_true get get_or_null
    is_str is_int keys is_objects expected_source_files listed string_eq nat_eq file_entry
    directory_entry add as_posix every drop_last is_slash keep codes_le sorted join scan is_object
other_release = refl

validated : validate_bytes tools (ascii "ustar") "1.0.0" revision ≡ ok tt
unfolding compose compose_archive source_payload is_revision content_of lookup profile_module
    component_document prebuild_entries object array fields_of indented_json ustar directories
    add_parents parent posix_path parts_of ustar_entries sort_items validate_bytes members
    members_from observe_member read_back written all_parents climb is_unsafe rstrip insert
    validate_files check_layout check_releases names_under file_names has_file differs starts_with
    same_set is_subset contains check_forbidden any_occurs forbidden same_bytes check_documents
    check_component check_prebuild check_versions check_bindings as_object is_true get get_or_null
    is_str is_int keys is_objects expected_source_files listed string_eq nat_eq file_entry
    directory_entry add as_posix every drop_last is_slash keep codes_le sorted join scan is_object
validated = refl

validate_bytes-IsPrebuild_example :
    (read : Dict String Bytes) × (members tools (ascii "ustar") ≡ ok read)
    × IsPrebuild tools read "1.0.0" revision
validate_bytes-IsPrebuild_example =
    validate_bytes-IsPrebuild tools (ascii "ustar") "1.0.0" revision validated

abbrev disk : Disk
disk = ("/tmp/other", folder []) ∷ []

read_again :
    ReadsBack tools
      (summary_fields tools prebuild (ascii "ustar"))
      (indented_json tools (summary_of tools prebuild (ascii "ustar")))
unfolding summary_of object
read_again = record {
  fields = summary_fields tools prebuild (ascii "ustar");
  read = refl;
  same = λ key. refl;
}

no_leaf : (b : Bool) → (if b then some (folder []) else none) ≢ some leaf
no_leaf true h = cc
no_leaf false h = cc

clear_way : HasClearWay "/tmp/out" disk
unfolding lookup
clear_way path above = no_leaf (path == "/tmp/other")

prepare-validate_directory_example :
    (disk' : Disk) × (prepare tools repo disk "/tmp/out" "1.0.0" revision ≡ ok disk')
    × (validate_directory tools disk' "/tmp/out" "1.0.0" ≡ ok tt)
    × IsPublished disk disk' "/tmp/out" (
        insert "prebuild.json"
          (plain (indented_json tools (summary_of tools prebuild (ascii "ustar"))))
          (insert "source-prebuild.tar" (plain (ascii "ustar")) []))
    × HasWay "/tmp/out" disk'
unfolding lookup string_eq
prepare-validate_directory_example =
    prepare-validate_directory tools repo disk "/tmp/out" "1.0.0" revision (ascii "ustar") prebuild
      composed refl refl clear_way read_again
