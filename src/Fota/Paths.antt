-- ===== src/Fota/Paths.antt =====
-- `PurePosixPath`, and the texts that packaging/fota makes of it.
pub mod Laws
pub mod Parents
use Prim.Native.Nat.{compare, Ordering}
use Prim.Native.Char.{Char, code}
use aos_vehicle_platform.Prelude.{
  ℕ, zero, suc, String, ◌<>◌, Bool, true, false, not, ◌&&◌, ◌||◌, Option, none, some, List, [], ◌∷◌,
  ◌==◌, string_eq, contains, if◌then◌else◌,
}

unfoldable pub is_slash : Char → Bool
is_slash c = elim (compare (code c) b'/') [ Ordering.eq ↦ true | _ ↦ false ]

unfoldable pub is_empty : String → Bool
is_empty String.[] = true
is_empty (String.◌∷◌ c s) = false

-- `s.rstrip("/")`
unfoldable pub rstrip : String → String
unfolding is_slash is_empty
rstrip String.[] = String.[]
rstrip (String.◌∷◌ c s) =
    let rest = rstrip s in if is_slash c && is_empty rest then String.[] else String.◌∷◌ c rest

-- An empty component and `.` are no part of a path.
unfoldable pub keep : String → List String → List String
keep part parts = if part == "" || part == "." then parts else part ∷ parts

-- The text up to its first slash, and the parts that follow.
unfoldable pub scan : String → String × List String
unfolding is_slash keep
scan String.[] = (String.[], [])
scan (String.◌∷◌ c s) =
    let rest = scan s in
    if is_slash c then (String.[], keep rest.0 rest.1) else (String.◌∷◌ c rest.0, rest.1)

unfoldable pub parts_of : String → List String
unfolding scan
parts_of name = keep (scan name).0 (scan name).1

unfoldable pub is_absolute : String → Bool
unfolding is_slash
is_absolute String.[] = false
is_absolute (String.◌∷◌ c s) = is_slash c

pub record PosixPath : Type 0 where
  pub absolute : Bool
  pub parts : List String

-- `PurePosixPath(name)`
unfoldable pub posix_path : String → PosixPath
unfolding is_absolute parts_of
posix_path name = record { absolute = is_absolute name; parts = parts_of name }

-- `path.is_absolute() or any(part in {"", ".", ".."} for part in path.parts)`: a part is never
-- empty or `.`, and the root is none of the three.
unfoldable pub is_unsafe : String → Bool
unfolding posix_path
is_unsafe name =
    let path = posix_path name in
    path.absolute || contains path.parts "" || contains path.parts "." || contains path.parts ".."

abbrev pub drop_final {ℓ} : {A : Type ℓ} → List A → List A
drop_final [] = []
drop_final (x ∷ []) = []
drop_final (x ∷ y ∷ xs) = x ∷ drop_final (y ∷ xs)

-- `path.parent`
unfoldable pub parent : PosixPath → PosixPath
parent path = record path { parts = drop_final path.parts }

unfoldable pub join : List String → String
join [] = ""
join (p ∷ []) = p
join (p ∷ q ∷ ps) = p <> "/" <> join (q ∷ ps)

-- `str(path)`, `path.as_posix()`
unfoldable pub as_posix : PosixPath → String
unfolding join
as_posix path =
    if path.absolute
    then "/" <> join path.parts
    else elim path.parts [ [] ↦ "." | p ∷ ps ↦ join (p ∷ ps) ]

-- `directories.add(name)`
unfoldable pub add : String → List String → List String
add name names = if contains names name then names else name ∷ names

-- `while str(parent) != ".": directories.add(parent.as_posix()); parent = parent.parent`, and `none`
-- where the fuel has run out: an absolute path, whose last parent is `/`, has no end.
unfoldable pub add_parents : ℕ → PosixPath → List String → Option (List String)
unfolding as_posix parent add
add_parents zero path names = none
add_parents (suc fuel) path names = elim (as_posix path == ".") [
  | true ↦ some names
  | false ↦ add_parents fuel (parent path) (add (as_posix path) names)
]
