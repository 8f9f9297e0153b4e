-- ===== src/Fota/Artifact/Metadata.antt =====
-- `_validate_archive_metadata` of packaging/fota/vdp_artifact.py.
use Prim.Native.Nat.{compare, Ordering}
use Prim.Native.Char.{code}
use aos_vehicle_platform.Prelude.{
  ℕ, ◌+◌, ◌*◌, ◌%◌, String, ◌<>◌, Bool, true, false, not, ◌&&◌, ◌||◌, Option, none, some, List, [],
  ◌∷◌, ◌==◌, nat_eq, string_eq, contains, if◌then◌else◌, ltb, Result, ok, artifact_error, raise_if,
  ◌>>◌,
}
use aos_vehicle_platform.Prelude.Lists.{length, drop}
use aos_vehicle_platform.Prelude.Dict.{Dict}
use aos_vehicle_platform.Fota.Bytes.{Bytes, ascii, starts_with, occurs, any_occurs}
use aos_vehicle_platform.Fota.Paths.{parts_of}
use aos_vehicle_platform.Fota.Tar.{Kind, regular, directory, Entry, Tools}

-- `FORBIDDEN_CONTENT`
abbrev pub forbidden_content : List Bytes
forbidden_content =
    ascii ("-----BEGIN " <> "PRIVATE KEY-----")
    ∷ ascii ("-----BEGIN " <> "RSA PRIVATE KEY-----")
    ∷ ascii ("-----BEGIN " <> "EC PRIVATE KEY-----")
    ∷ ascii "/Users/"
    ∷ ascii "AKIA"
    ∷ ascii "api.aoscloud.io"
    ∷ ascii "oem.aoscloud.io"
    ∷ []

abbrev pub certificate_marker : Bytes
certificate_marker = ascii ("-----BEGIN " <> "CERTIFICATE-----")

abbrev pub grpc_embedded_public_roots : String
grpc_embedded_public_roots = "python/site-packages/grpc/_cython/cygrpc."

abbrev pub forbidden_suffixes : List String
forbidden_suffixes =
    ".cer" ∷ ".crt" ∷ ".csr" ∷ ".der" ∷ ".jks" ∷ ".key" ∷ ".p12" ∷ ".pem" ∷ ".pfx" ∷ ".pkcs12"
    ∷ ".token" ∷ []

-- The text from its last dot on.
from_last_dot : String → Option String
from_last_dot String.[] = none
from_last_dot (String.◌∷◌ c s) = elim (from_last_dot s) [
  | some rest ↦ some rest
  | none ↦ elim (compare (code c) b'.') [ Ordering.eq ↦ some (String.◌∷◌ c s) | _ ↦ none ]
]

last_part : List String → String
last_part [] = ""
last_part (p ∷ []) = p
last_part (p ∷ q ∷ ps) = last_part (q ∷ ps)

-- A dot that begins a name, or ends it, makes no suffix.
suffix_of : String → String
suffix_of String.[] = ""
suffix_of (String.◌∷◌ c s) = elim (from_last_dot s) [
  | none ↦ ""
  | some rest ↦ if rest == "." then "" else rest
]

-- `PurePosixPath(name).suffix`
unfoldable pub suffix : String → String
unfolding suffix_of from_last_dot last_part
suffix name = suffix_of (last_part (parts_of name))

-- `content[index]`, where there are enough bytes.
unfoldable pub byte_at : ℕ → Bytes → ℕ
byte_at index content = elim (drop index content) [ [] ↦ 0 | b ∷ bs ↦ b ]

-- A 64-bit little-endian ELF file for AArch64, or no ELF file.
unfoldable pub check_elf : String → Bytes → Result (Unit {0})
check_elf name content =
    if starts_with (127 ∷ ascii "ELF") content
    then (do
      raise_if
          (ltb (length content) 20 || not (byte_at 4 content == 2) || not (byte_at 5 content == 1))
          (artifact_error ("ELF ABI mismatch: " <> name))
      raise_if (not (byte_at 18 content + 256 * byte_at 19 content == 183))
          (artifact_error ("ELF is not AArch64: " <> name)))
    else ok tt

unfoldable pub is_regular : Kind → Bool
is_regular regular = true
is_regular _ = false

unfoldable pub is_directory : Kind → Bool
is_directory directory = true
is_directory _ = false

unfoldable pub expected_mode : String → Kind → ℕ
expected_mode name kind =
    if is_directory kind || name == "bin/vehicle-data-provider" then 0o755 else 0o644

module _ (t : Tools) where
  unfoldable pub scan_file : String → Bytes → Result (Unit {0})
  scan_file name content = do
    raise_if (contains forbidden_suffixes (t.lower (suffix name)))
        (artifact_error ("credential or certificate file in payload: " <> name))
    raise_if (any_occurs forbidden_content content)
        (artifact_error ("forbidden content in payload: " <> name))
    raise_if
        (occurs certificate_marker content
          && not (starts_with (ascii grpc_embedded_public_roots) (ascii name)))
        (artifact_error ("certificate material in payload: " <> name))
    check_elf name content

  -- One round of the loop.
  unfoldable pub check_member : Bool → String → Entry → Bytes → Result (Unit {0})
  check_member scan_content name e content = do
    raise_if (not (e.uid == 0) || not (e.gid == 0) || not (e.mtime == 0))
        (artifact_error ("non-deterministic archive metadata: " <> name))
    raise_if (not (e.mode % 4096 == expected_mode name e.kind))
        (artifact_error ("unsafe archive mode: " <> name))
    if is_regular e.kind && scan_content then scan_file name content else ok tt

  -- `_validate_archive_metadata`
  unfoldable pub validate_archive_metadata : Bool → Dict String (Entry × Bytes) → Result (Unit {0})
  validate_archive_metadata scan_content [] = ok tt
  validate_archive_metadata scan_content ((name, (e, content)) ∷ members) =
      check_member scan_content name e content >> validate_archive_metadata scan_content members
