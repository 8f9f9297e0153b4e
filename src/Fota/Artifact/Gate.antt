-- ===== src/Fota/Artifact/Gate.antt =====
-- `verify_entry_gate` of packaging/fota/vdp_artifact.py.
use aos_vehicle_platform.Prelude.{
  ℕ, zero, suc, ◌*◌, ◌^◌, ltb, String, Bool, not, ◌||◌, Option, some, List, [], ◌∷◌, ◌==◌,
  string_eq, option_eq, if◌then◌else◌, Result, ok, err, artifact_error, raise_if, ◌>>=◌, ◌>>◌,
}
use aos_vehicle_platform.Prelude.Lists.{length}
use aos_vehicle_platform.Prelude.Dict.{Dict}
use aos_vehicle_platform.Fota.Paths.{PosixPath, parent}
use aos_vehicle_platform.Fota.Tar.{Tools}
use aos_vehicle_platform.Fota.Disk.{Child}
use aos_vehicle_platform.Fota.Artifact.Producer.{product_source_revision, product_source_tree}
use aos_vehicle_platform.Fota.Artifact.Wheels.{Wheel, validate_wheelhouse}

-- What the gate asks of its surroundings: the environment, Git's answers about the repository, and
-- the file system.
pub record Surroundings : Type 0 where
  pub environ : String → Option String
  -- the output of `git status --porcelain`
  pub status : String
  -- the stripped output of `git rev-parse HEAD`
  pub head : String
  -- whether `git merge-base --is-ancestor` returns 0
  pub is_ancestor : String → String → Bool
  -- the stripped output of `git rev-parse REVISION^{tree}`
  pub tree_of : String → String
  -- whether `git diff --quiet REVISION -- *SOURCE_BOUNDARY` returns 0
  pub is_unchanged : String → List String → Bool
  pub exists_at : PosixPath → Bool
  -- `shutil.disk_usage(path).free`
  pub free_bytes : PosixPath → ℕ

source_boundary : List String
source_boundary =
    "DEPENDENCIES.json" ∷ "LICENSES/Apache-2.0.txt" ∷ "THIRD_PARTY_NOTICES.md"
    ∷ "packaging/fota/provider_main.py" ∷ "packaging/fota/requirements-arm64.txt"
    ∷ "packaging/fota/vehicle-data-provider" ∷ "providers/carla-viss-kuksa/releases"
    ∷ "providers/carla-viss-kuksa/src/carla_viss_kuksa_provider" ∷ []

-- `55 * 1024**3`
abbrev pub minimum_free_bytes : ℕ
minimum_free_bytes = 55 * 1024 ^ 3

-- `while not free_root.exists()`, of a path with as many parts as there is fuel: without parts the
-- path is its own parent.
existing_parent : ℕ → (PosixPath → Bool) → PosixPath → Result PosixPath
existing_parent zero there path =
    if there path
    then ok path
    else err (artifact_error "candidate output has no existing filesystem parent")
existing_parent (suc fuel) there path =
    let rest = existing_parent fuel there (parent path) in if there path then ok path else rest

-- `free_root`, from the output's parent on.
unfoldable pub free_root : (PosixPath → Bool) → PosixPath → Result PosixPath
unfolding existing_parent
free_root there path = existing_parent (length path.parts) there path

-- `verify_entry_gate`
unfoldable pub verify_entry_gate :
    Tools → Surroundings → PosixPath → Option (Dict String Child) → Result (List Wheel)
unfolding source_boundary
verify_entry_gate t around output wheelhouse = do
  raise_if
      (not (around.environ "AOS_VDP_BUILD_OFFLINE" == some "1")
        || not (around.environ "PIP_NO_INDEX" == some "1"))
      (artifact_error "offline build guards are not active")
  raise_if (not (around.status == ""))
      (artifact_error "source worktree must be clean before candidate generation")
  raise_if (not (around.is_ancestor product_source_revision around.head))
      (artifact_error "accepted product source revision is not an ancestor")
  raise_if (not (around.tree_of product_source_revision == product_source_tree))
      (artifact_error "accepted product source tree mismatch")
  raise_if (not (around.is_unchanged product_source_revision source_boundary))
      (artifact_error "accepted VDP runtime inputs changed after source integration")
  root ← free_root around.exists_at (parent output)
  raise_if (ltb (around.free_bytes root) minimum_free_bytes)
      (artifact_error "VDP candidate filesystem has less than 55 GiB free")
  validate_wheelhouse t wheelhouse
