-- ===== src/Fota/Artifact/Wheels.antt =====
-- The wheels of packaging/fota/vdp_artifact.py: `validate_wheelhouse` and `extract_wheels`.
use aos_vehicle_platform.Prelude.{
  ℕ, ◌/◌, ◌%◌, ◌^◌, String, ◌<>◌, Bool, true, false, not, ◌&&◌, ◌||◌, Option, none, some, List, [],
  ◌∷◌, ◌==◌, nat_eq, string_eq, contains, if◌then◌else◌, Result, ok, err, artifact_error, raise_if,
  ◌>>=◌, ◌>>◌,
}
use aos_vehicle_platform.Prelude.Text.{sorted, codes, codes_le}
use aos_vehicle_platform.Prelude.Dict.{Dict, lookup, insert}
use aos_vehicle_platform.Python.{same_set}
use aos_vehicle_platform.Manifest.Releases.{Texts}
use aos_vehicle_platform.Fota.Bytes.{Bytes, ascii, same_bytes}
use aos_vehicle_platform.Fota.Documents.{content_of, file_names}
use aos_vehicle_platform.Fota.Paths.{posix_path, as_posix, rstrip}
use aos_vehicle_platform.Fota.Tar.{Tools, safe_member}
use aos_vehicle_platform.Fota.Disk.{Child, plain_child}

-- `WHEEL_DIGESTS`
abbrev pub wheel_digests : Texts
wheel_digests =
    (
      "grpcio-1.75.0-cp312-cp312-manylinux2014_aarch64.manylinux_2_17_aarch64.whl",
      "36764a4ad9dc1eb891042fab51e8cdf7cc014ad82cee807c10796fb708455041",
    )
    ∷ (
      "kuksa_client-0.5.0-py3-none-any.whl",
      "c60404292e5ded4e0436b1c8568e9daf4981c4db94907b96f482173ed9ce2c4a",
    )
    ∷ (
      "protobuf-5.29.6-cp38-abi3-manylinux2014_aarch64.whl",
      "a8866b2cff111f0f863c1b3b9e7572dc7eaea23a7fae27f6fc613304046483e6",
    )
    ∷ (
      "typing_extensions-4.15.0-py3-none-any.whl",
      "f0fa19c6845758ab08074a0cfa8b7aecb71c999ca73d62883bc25cc018c4e548",
    )
    ∷ (
      "websockets-15.0.1-cp312-cp312-manylinux_2_17_aarch64.manylinux2014_aarch64.whl",
      "e8b56bdcdb4505c8078cb6c7157d9811a85790f2f2b3632c7d1462ab5783d215",
    )
    ∷ []

abbrev pub excluded_wheel_members : List String
excluded_wheel_members = "grpc/_cython/_credentials/roots.pem" ∷ []

-- A `ZipInfo` with its content.
pub record ZipMember : Type 0 where
  pub filename : String
  pub external_attr : ℕ
  pub is_dir : Bool
  pub content : Bytes

same_list : List String → List String → Bool
same_list [] [] = true
same_list [] (y ∷ ys) = false
same_list (x ∷ xs) [] = false
same_list (x ∷ xs) (y ∷ ys) = x == y && same_list xs ys

-- `stat.S_IFMT((external_attr >> 16) & 0xFFFF)`, by the mode's highest four bits: 0 for none, 8 for
-- a regular file and 4 for a directory.
unfoldable pub file_type : ℕ → ℕ
file_type external_attr = external_attr / 2 ^ 16 % 2 ^ 16 / 2 ^ 12

-- What the loops have seen: the files written, by their paths, and the members left out.
pub record Extraction : Type 0 where
  pub files : Dict String Bytes
  pub excluded : List String

unfoldable pub add_file : String → Bytes → Extraction → Result Extraction
add_file path content seen = elim (lookup path seen.files) [
  | some known ↦ err (artifact_error ("wheel path collision: " <> path))
  | none ↦ ok (record seen { files = insert path content seen.files })
]

-- A member that is not left out.
unfoldable pub extract_kept : ZipMember → Extraction → Result Extraction
extract_kept m seen = do
  safe_member (rstrip m.filename)
  let kind = file_type m.external_attr
  raise_if (not (kind == 0) && not (kind == 8) && not (kind == 4))
      (artifact_error ("wheel contains a link or special file: " <> m.filename))
  if m.is_dir then ok seen else add_file (as_posix (posix_path (rstrip m.filename))) m.content seen

-- One round of the inner loop.
unfoldable pub extract_member : ZipMember → Extraction → Result Extraction
extract_member m seen =
    if contains excluded_wheel_members m.filename
    then ok (record seen { excluded = m.filename ∷ seen.excluded })
    else extract_kept m seen

unfoldable pub extract_all : List ZipMember → Extraction → Result Extraction
extract_all [] seen = ok seen
extract_all (m ∷ ms) seen = extract_member m seen >>= extract_all ms

insert_member : ZipMember → List ZipMember → List ZipMember
insert_member m [] = m ∷ []
insert_member m (n ∷ ns) =
    let rest = n ∷ insert_member m ns in
    if codes_le (codes m.filename) (codes n.filename) then m ∷ n ∷ ns else rest

-- `sorted(archive.infolist(), key=lambda item: item.filename)`
unfoldable pub sort_members : List ZipMember → List ZipMember
unfolding insert_member
sort_members [] = []
sort_members (m ∷ ms) = insert_member m (sort_members ms)

abbrev pub Wheel : Type 0
Wheel = String × Bytes

-- A text that ends with this.
ends_with : Bytes → Bytes → Bool
ends_with ending [] = same_bytes ending []
ends_with ending (c ∷ cs) = same_bytes ending (c ∷ cs) || ends_with ending cs

-- `wheelhouse.glob("*.whl")`
wheel_names : List String → List String
wheel_names [] = []
wheel_names (name ∷ names) =
    let rest = wheel_names names in
    if ends_with (ascii ".whl") (ascii name) then name ∷ rest else rest

module _ (t : Tools) where
  unfoldable pub check_wheel : Dict String Child → String → Result Wheel
  check_wheel children name = elim (plain_child name children) [
    | none ↦ err (artifact_error "wheelhouse contains an unsafe file")
    | some content ↦
        (content_of name wheel_digests >>= λ digest.
        raise_if (not (t.sha256 content == digest))
          (artifact_error ("wheel digest mismatch: " <> name))
        >> ok (name, content))
  ]

  unfoldable pub check_wheels : Dict String Child → List String → Result (List Wheel)
  check_wheels children [] = ok []
  check_wheels children (name ∷ names) = do
    wheel ← check_wheel children name
    wheels ← check_wheels children names
    ok (wheel ∷ wheels)

  -- `validate_wheelhouse`
  unfoldable pub validate_wheelhouse : Option (Dict String Child) → Result (List Wheel)
  unfolding same_list wheel_names ends_with
  validate_wheelhouse none = err (artifact_error "local ARM64 wheelhouse is missing or unsafe")
  validate_wheelhouse (some children) = do
    let names = sorted (wheel_names (file_names children))
    raise_if (not (same_list names (sorted (file_names wheel_digests))))
        (artifact_error "wheelhouse file set does not match the five-file allowlist")
    check_wheels children names

  -- The outer loop of `extract_wheels`; `zip_read` is `zipfile`'s.
  unfoldable pub extract_each :
      (Bytes → Result (List ZipMember)) → List Wheel → Extraction → Result Extraction
  extract_each zip_read [] seen = ok seen
  extract_each zip_read ((name, content) ∷ wheels) seen = do
    listed ← zip_read content
    seen' ← extract_all (sort_members listed) seen
    extract_each zip_read wheels seen'

  -- `extract_wheels`, with the files that it writes below its destination.
  unfoldable pub extract_wheels :
      (Bytes → Result (List ZipMember)) → List Wheel → Result (Dict String Bytes)
  extract_wheels zip_read wheels = do
    seen ← extract_each zip_read wheels (record { files = []; excluded = [] })
    raise_if (not (same_set seen.excluded excluded_wheel_members))
        (artifact_error "expected redundant gRPC public trust bundle is absent")
    ok seen.files
