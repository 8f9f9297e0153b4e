-- ===== src/Fota/Paths/Laws.antt =====
-- What holds of paths: trailing slashes, the text of parts, parents.
use Prim.Native.Char.{Char}
use text.Mathlib.TextLemmas.{nil-append, cons-append}
use aos_vehicle_platform.Prelude.{
  String, ◌<>◌, ◌≡◌, refl, sym, ap, ◌∙◌, subst, true, false, ◌&&◌, ◌||◌, List, [], ◌∷◌, arith, ◌==◌,
  string_eq, contains, if◌then◌else◌, Bool-cases, inl, inr,
}
use aos_vehicle_platform.Prelude.Lists.{All}
use aos_vehicle_platform.Fota.Paths.{
  is_slash, is_empty, rstrip, keep, scan, parts_of, is_absolute, is_unsafe, join,
}

scan-empty : (s : String) → is_empty s ≡ true → scan s ≡ (String.[], [])
unfolding is_empty scan
scan-empty String.[] h = refl
scan-empty (String.◌∷◌ c s) h = cc

scan_slash :
    (c : Char) (s : String) → is_slash c ≡ true → scan (String.◌∷◌ c s) ≡ (String.[], parts_of s)
unfolding scan parts_of
scan_slash c s h = ground arith

scan_char :
    (c : Char) (s : String)
    → is_slash c ≡ false
    → scan (String.◌∷◌ c s) ≡ (String.◌∷◌ c (scan s).0, (scan s).1)
unfolding scan
scan_char c s h = ground arith

keep_empty : (ps : List String) → keep "" ps ≡ ps
unfolding keep string_eq
keep_empty ps = refl

pub parts_of_empty : (s : String) → is_empty s ≡ true → parts_of s ≡ []
unfolding parts_of
parts_of_empty s h = rw (scan-empty s h) (keep_empty [])

scan-rstrip_slash :
    (c : Char) (s rest : String)
    → is_slash c ≡ true
    → scan rest ≡ scan s
    → scan (if is_empty rest then String.[] else String.◌∷◌ c rest) ≡ (String.[], parts_of s)
unfolding parts_of scan
scan-rstrip_slash c s rest slash h = elim (Bool-cases (is_empty rest)) [
  | inl e ↦ rw (e, ← h, scan-empty rest e) (ap (λ t. ("", t)) (sym (keep_empty [])))
  | inr more ↦ rw (more, scan_slash c rest slash) (ap (λ t. ("", parts_of' t)) h)
]
  where
    parts_of' : String × List String → List String
    parts_of' t = keep t.0 t.1

scan-rstrip_cons :
    (c : Char) (s rest : String)
    → scan rest ≡ scan s
    → scan (if is_slash c && is_empty rest then String.[] else String.◌∷◌ c rest)
      ≡ scan (String.◌∷◌ c s)
scan-rstrip_cons c s rest h = elim (Bool-cases (is_slash c)) [
  | inl slash ↦ rw (slash, scan_slash c s slash) (scan-rstrip_slash c s rest slash h)
  | inr char ↦ rw (char, scan_char c rest char, scan_char c s char, h) refl
]

scan-rstrip : (s : String) → scan (rstrip s) ≡ scan s
unfolding rstrip
scan-rstrip String.[] = refl
scan-rstrip (String.◌∷◌ c s) = scan-rstrip_cons c s (rstrip s) (scan-rstrip s)

-- Trailing slashes are no part of a path.
pub parts_of-rstrip : (s : String) → parts_of (rstrip s) ≡ parts_of s
unfolding parts_of
parts_of-rstrip s = rw (scan-rstrip s)

pub is_absolute-rstrip : (s : String) → is_absolute s ≡ false → is_absolute (rstrip s) ≡ false
unfolding is_absolute rstrip
is_absolute-rstrip String.[] h = refl
is_absolute-rstrip (String.◌∷◌ c s) h = ground arith

scan_root : scan "/" ≡ ("", [])
unfolding scan keep string_eq
scan_root = refl

scan-slash : (s : String) → scan (s <> "/") ≡ scan s
unfolding scan
scan-slash String.[] = subst (λ t. scan t ≡ scan "") (sym (nil-append "/")) scan_root
scan-slash (String.◌∷◌ c s) =
    subst (λ t. scan t ≡ scan (String.◌∷◌ c s)) (sym (cons-append c s "/")) (rw (scan-slash s))

pub parts_of-slash : (s : String) → parts_of (s <> "/") ≡ parts_of s
unfolding parts_of
parts_of-slash s = rw (scan-slash s)

pub NoSlash : String → Type 0
NoSlash String.[] = Unit
NoSlash (String.◌∷◌ c s) = (is_slash c ≡ false) × NoSlash s

-- A component of a path.
pub record IsPart (p : String) : Type 0 where
  pub kept : keep p [] ≡ p ∷ []
  pub no_slash : NoSlash p

keep_lem : (p : String) (ps : List String) → keep p [] ≡ p ∷ [] → keep p ps ≡ p ∷ ps
unfolding keep
keep_lem p ps h = ground arith

keep-All : (p : String) (ps : List String) → NoSlash p → All IsPart ps → All IsPart (keep p ps)
unfolding keep
keep-All p ps slash h = elim (Bool-cases (p == "" || p == ".")) [
  | inl dropped ↦ rw dropped h
  | inr stays ↦ rw stays (record { kept = rw stays; no_slash = slash }, h)
]

scan-IsPart : (s : String) → NoSlash (scan s).0 × All IsPart (scan s).1
unfolding NoSlash scan parts_of
scan-IsPart String.[] = (tt, tt)
scan-IsPart (String.◌∷◌ c s) = elim (Bool-cases (is_slash c)) [
  | inl slash ↦
      rw (scan_slash c s slash)
        (tt, keep-All (scan s).0 (scan s).1 (scan-IsPart s).0 (scan-IsPart s).1)
  | inr char ↦ rw (scan_char c s char) ((char, (scan-IsPart s).0), (scan-IsPart s).1)
]

-- Every part is a component.
pub parts_of-IsPart : (s : String) → All IsPart (parts_of s)
unfolding parts_of
parts_of-IsPart s = keep-All (scan s).0 (scan s).1 (scan-IsPart s).0 (scan-IsPart s).1

scan-NoSlash : (p : String) → NoSlash p → scan p ≡ (p, [])
unfolding scan NoSlash
scan-NoSlash String.[] h = refl
scan-NoSlash (String.◌∷◌ c p) h = rw (scan-NoSlash p h.1, h.0)

slash : Char
slash = "/"

slash_cons : (r : String) → "/" <> r ≡ String.◌∷◌ slash r
unfolding slash
slash_cons r = cons-append "/" "" r ∙ ap (String.◌∷◌ "/") (nil-append r)

scan-joined : (p r : String) → NoSlash p → scan (p <> "/" <> r) ≡ (p, parts_of r)
unfolding NoSlash is_slash slash
scan-joined String.[] r h =
    subst (λ t. scan t ≡ ("", parts_of r)) (sym (nil-append ("/" <> r)))
      (subst (λ t. scan t ≡ ("", parts_of r)) (sym (slash_cons r)) (scan_slash slash r refl))
scan-joined (String.◌∷◌ c p) r h =
    subst (λ t. scan t ≡ (String.◌∷◌ c p, parts_of r)) (sym (cons-append c p ("/" <> r)))
      (rw (scan_char c (p <> "/" <> r) h.0, scan-joined p r h.1))

-- The text of a path's parts has those parts.
pub parts_of-join : (ps : List String) → All IsPart ps → parts_of (join ps) ≡ ps
unfolding parts_of join is_empty
parts_of-join [] h = parts_of_empty "" refl
parts_of-join (p ∷ []) h = rw (scan-NoSlash p h.0.no_slash) h.0.kept
parts_of-join (p ∷ q ∷ ps) h =
    rw (scan-joined p (join (q ∷ ps)) h.0.no_slash) (
      keep_lem p (parts_of (join (q ∷ ps))) h.0.kept ∙ ap (λ t. p ∷ t) (parts_of-join (q ∷ ps) h.1))

is_absolute_cons : (p : String) (r : String) → IsPart p → is_absolute (p <> r) ≡ false
unfolding is_absolute NoSlash keep string_eq
is_absolute_cons String.[] r h = cc (h.kept)
is_absolute_cons (String.◌∷◌ c p) r h =
    subst (λ t. is_absolute t ≡ false) (sym (cons-append c p r)) h.no_slash.0

is_absolute-part : (p : String) → IsPart p → is_absolute p ≡ false
unfolding is_absolute NoSlash keep string_eq
is_absolute-part String.[] h = refl
is_absolute-part (String.◌∷◌ c p) h = h.no_slash.0

-- The text of parts is a relative path.
pub is_absolute-join : (ps : List String) → All IsPart ps → is_absolute (join ps) ≡ false
unfolding join is_absolute
is_absolute-join [] h = refl
is_absolute-join (p ∷ []) h = is_absolute-part p h.0
is_absolute-join (p ∷ q ∷ ps) h = is_absolute_cons p ("/" <> join (q ∷ ps)) h.0

ne_empty : (p : String) → keep p [] ≡ p ∷ [] → ("" == p) ≡ false
unfolding keep
ne_empty p h = ground arith

ne_dot : (p : String) → keep p [] ≡ p ∷ [] → ("." == p) ≡ false
unfolding keep
ne_dot p h = ground arith

contains_empty : (ps : List String) → All IsPart ps → contains ps "" ≡ false
unfolding contains
contains_empty [] h = refl
contains_empty (p ∷ ps) h = rw (ne_empty p h.0.kept) (contains_empty ps h.1)

contains_dot : (ps : List String) → All IsPart ps → contains ps "." ≡ false
unfolding contains
contains_dot [] h = refl
contains_dot (p ∷ ps) h = rw (ne_dot p h.0.kept) (contains_dot ps h.1)

-- A relative name is safe when no part goes up.
pub is_unsafe_lem :
    (name : String)
    → is_absolute name ≡ false
    → contains (parts_of name) ".." ≡ false
    → is_unsafe name ≡ false
unfolding is_unsafe
is_unsafe_lem name relative down = rw (
  relative,
  down,
  contains_empty (parts_of name) (parts_of-IsPart name),
  contains_dot (parts_of name) (parts_of-IsPart name),
)

-- What safe names have.
pub is_unsafe-down :
    (name : String) → is_unsafe name ≡ false → contains (parts_of name) ".." ≡ false
unfolding is_unsafe
is_unsafe-down name h = ground arith

pub is_unsafe-relative : (name : String) → is_unsafe name ≡ false → is_absolute name ≡ false
unfolding is_unsafe
is_unsafe-relative name h = ground arith

pub is_unsafe-rstrip : (name : String) → is_unsafe name ≡ false → is_unsafe (rstrip name) ≡ false
is_unsafe-rstrip name h =
    is_unsafe_lem (rstrip name) (is_absolute-rstrip name (is_unsafe-relative name h))
      (ap (λ parts. contains parts "..") (parts_of-rstrip name) ∙ is_unsafe-down name h)

is_absolute-slash :
    (name : String)
    → is_empty name ≡ false
    → is_absolute name ≡ false
    → is_absolute (name <> "/") ≡ false
unfolding is_absolute is_empty
is_absolute-slash String.[] named h = cc
is_absolute-slash (String.◌∷◌ c s) named h =
    subst (λ t. is_absolute t ≡ false) (sym (cons-append c s "/")) h

-- The slash that marks a directory leaves its name safe.
pub is_unsafe-slash :
    (name : String)
    → is_empty name ≡ false
    → is_unsafe name ≡ false
    → is_unsafe (name <> "/") ≡ false
is_unsafe-slash name named h =
    is_unsafe_lem (name <> "/") (is_absolute-slash name named (is_unsafe-relative name h))
      (ap (λ parts. contains parts "..") (parts_of-slash name) ∙ is_unsafe-down name h)
