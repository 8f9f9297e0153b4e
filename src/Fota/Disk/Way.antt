-- ===== src/Fota/Disk/Way.antt =====
-- What the directories made above a target leave on a disk.
use aos_vehicle_platform.Prelude.{
  String, ◌≡◌, ◌≢◌, refl, sym, ap, true, ◌∙◌, ◌⊎◌, false, inl, inr, Option, none, some, List, [],
  ◌∷◌, arith, string_eq, contains, Option-cases, subst,
}
use aos_vehicle_platform.Prelude.Dict.{Dict, lookup, insert, lookup-insert_eq, lookup-insert_ne}
use aos_vehicle_platform.Fota.Paths.{parts_of}
use aos_vehicle_platform.Fota.Disk.{
  Child, other, Node, folder, leaf, Disk, child_path, list_child, make_missing, make_way_from,
  anchor, make_way,
}

ancestors_from : String → List String → List String
ancestors_from directory [] = []
ancestors_from directory (part ∷ []) = directory ∷ []
ancestors_from directory (part ∷ next ∷ parts) =
    directory ∷ ancestors_from (child_path directory part) (next ∷ parts)

-- The directories above a path.
unfoldable pub ancestors : String → List String
unfolding ancestors_from
ancestors path = ancestors_from (anchor path) (parts_of path)

-- What stood at a path stands there, and a directory has what it had.
abbrev pub Keeps : Option Node → Option Node → Type 0
Keeps none after = Unit
Keeps (some leaf) after = after ≡ some leaf
Keeps (some (folder children)) after =
    (children' : Dict String Child) × (after ≡ some (folder children'))
    × ((name : String) (child : Child)
        → lookup name children ≡ some child
        → lookup name children' ≡ some child)

none-ne-some : {A : Type 0} {a : A} → ◌≢◌ {A = Option A} none (some a)
none-ne-some h = cc

folder-ne-leaf : {children : Dict String Child} → some (folder children) ≢ some leaf
folder-ne-leaf h = cc

-- A directory whose listing gains a name, or the disk as it was.
abbrev Lists : String → String → Disk → Type 0
Lists directory name disk =
    (list_child directory name disk ≡ disk)
    ⊎ ((children : Dict String Child) × (lookup directory disk ≡ some (folder children))
        × (lookup name children ≡ none)
        × (list_child directory name disk
            ≡ insert directory (folder (insert name other children)) disk))

list_child-node :
    (directory name : String) (disk : Disk) (node : Node)
    → lookup directory disk ≡ some node
    → Lists directory name disk
unfolding list_child
list_child-node directory name disk leaf e = inl (rw (e, list_child) refl)
list_child-node directory name disk (folder children) e =
    elim (Option-cases (lookup name children)) [
      | inl absent ↦ inr (children, e, absent, rw (e, absent, list_child) refl)
      | inr (child, there) ↦ inl (rw (e, there, list_child) refl)
    ]

list_child-cases : (directory name : String) (disk : Disk) → Lists directory name disk
unfolding list_child
list_child-cases directory name disk = elim (Option-cases (lookup directory disk)) [
  | inl absent ↦ inl (rw (absent, list_child) refl)
  | inr (node, e) ↦ list_child-node directory name disk node e
]

make_missing-cases :
    (path : String) (disk : Disk)
    → (make_missing path disk ≡ disk)
      ⊎ ((lookup path disk ≡ none) × (make_missing path disk ≡ insert path (folder []) disk))
unfolding make_missing
make_missing-cases path disk = elim (Option-cases (lookup path disk)) [
  | inl absent ↦ inr (absent, rw (absent, make_missing) refl)
  | inr (node, e) ↦ inl (rw (e, make_missing) refl)
]

list_child-elsewhere :
    (path directory name : String) (disk : Disk)
    → path ≢ directory
    → lookup path (list_child directory name disk) ≡ lookup path disk
list_child-elsewhere path directory name disk ne = elim (list_child-cases directory name disk) [
  | inl same ↦ ap (lookup path) same
  | inr (children, e, absent, gained) ↦
      ap (lookup path) gained ∙ lookup-insert_ne path directory _ disk ne
]

make_missing-elsewhere :
    (path made : String) (disk : Disk)
    → path ≢ made
    → lookup path (make_missing made disk) ≡ lookup path disk
make_missing-elsewhere path made disk ne = elim (make_missing-cases made disk) [
  | inl same ↦ ap (lookup path) same
  | inr (absent, new) ↦ ap (lookup path) new ∙ lookup-insert_ne path made (folder []) disk ne
]

not-contains :
    (p : String) (ps : List String) (path : String)
    → contains (p ∷ ps) path ≡ false
    → (path ≢ p) × (contains ps path ≡ false)
unfolding contains
not-contains p ps path h = ground arith

not-ancestor_first :
    (directory next : String) (parts : List String) (path : String)
    → contains (ancestors_from directory (next ∷ parts)) path ≡ false
    → path ≢ directory
unfolding ancestors_from
not-ancestor_first directory next [] path h = (not-contains directory [] path h).0
not-ancestor_first directory next (p ∷ ps) path h = (not-contains directory _ path h).0

make_way_from-elsewhere :
    (path directory : String) (parts : List String) (disk : Disk)
    → contains (ancestors_from directory parts) path ≡ false
    → lookup path (make_way_from directory parts disk) ≡ lookup path disk
unfolding make_way_from ancestors_from
make_way_from-elsewhere path directory [] disk h = refl
make_way_from-elsewhere path directory (part ∷ []) disk h =
    list_child-elsewhere path directory part disk (not-contains directory [] path h).0
make_way_from-elsewhere path directory (part ∷ next ∷ parts) disk h =
    let (ne, rest) = not-contains directory _ path h in
    let made = child_path directory part in
    make_way_from-elsewhere path made (next ∷ parts)
      (make_missing made (list_child directory part disk)) rest
    ∙ make_missing-elsewhere path made (list_child directory part disk)
        (not-ancestor_first made next parts path rest)
    ∙ list_child-elsewhere path directory part disk ne

Keeps-same : (before after : Option Node) → after ≡ before → Keeps before after
Keeps-same none after e = tt
Keeps-same (some leaf) after e = e
Keeps-same (some (folder children)) after e = (children, e, λ name child h. h)

Keeps-then : (a b c : Option Node) → Keeps a b → Keeps b c → Keeps a c
Keeps-then none b c h k = tt
Keeps-then (some leaf) b c h k = subst (λ x. Keeps x c) h k
Keeps-then (some (folder children)) b c (children', e, kept) k =
    let (children'', e', kept') = subst (λ x. Keeps x c) e k in
    (children'', e', λ name child h. kept' name child (kept name child h))

Keeps-absent : (before after : Option Node) → before ≡ none → Keeps before after
Keeps-absent before after e = subst (λ x. Keeps x after) (sym e) tt

lookup-listed :
    (name : String) (children : Dict String Child) (at : String) (child : Child)
    → lookup name children ≡ none
    → lookup at children ≡ some child
    → lookup at (insert name other children) ≡ some child
lookup-listed name children at child absent h = elim (string_eq.dec at name) [
  | yes same ↦ absurd (none-ne-some (sym absent ∙ sym (ap (λ x. lookup x children) same) ∙ h))
  | no ne ↦ lookup-insert_ne at name other children ne ∙ h
]

list_child-Keeps :
    (path directory name : String) (disk : Disk)
    → Keeps (lookup path disk) (lookup path (list_child directory name disk))
list_child-Keeps path directory name disk = elim (string_eq.dec path directory) [
  | no ne ↦ Keeps-same _ _ (list_child-elsewhere path directory name disk ne)
  | yes same ↦ elim (list_child-cases directory name disk) [
    | inl unchanged ↦ Keeps-same _ _ (ap (lookup path) unchanged)
    | inr (children, e, absent, gained) ↦
        subst (λ x. Keeps x (lookup path (list_child directory name disk)))
          (sym (ap (λ x. lookup x disk) same ∙ e))
          (
            insert name other children,
            ap (lookup path) gained ∙ lookup-insert_eq path directory _ disk same,
            λ at child h. lookup-listed name children at child absent h,
          )
  ]
]

make_missing-Keeps :
    (path made : String) (disk : Disk)
    → Keeps (lookup path disk) (lookup path (make_missing made disk))
make_missing-Keeps path made disk = elim (string_eq.dec path made) [
  | no ne ↦ Keeps-same _ _ (make_missing-elsewhere path made disk ne)
  | yes same ↦ elim (make_missing-cases made disk) [
    | inl unchanged ↦ Keeps-same _ _ (ap (lookup path) unchanged)
    | inr (absent, new) ↦ Keeps-absent _ _ (ap (λ x. lookup x disk) same ∙ absent)
  ]
]

make_way_from-Keeps :
    (path directory : String) (parts : List String) (disk : Disk)
    → Keeps (lookup path disk) (lookup path (make_way_from directory parts disk))
unfolding make_way_from
make_way_from-Keeps path directory [] disk = Keeps-same _ _ refl
make_way_from-Keeps path directory (part ∷ []) disk = list_child-Keeps path directory part disk
make_way_from-Keeps path directory (part ∷ next ∷ parts) disk =
    let made = child_path directory part in
    let listed = list_child directory part disk in
    Keeps-then _ (lookup path listed) _ (list_child-Keeps path directory part disk) (
      Keeps-then _ (lookup path (make_missing made listed)) _ (make_missing-Keeps path made listed)
        (make_way_from-Keeps path made (next ∷ parts) (make_missing made listed)))

Keeps-present : (before after : Option Node) → Keeps before after → before ≢ none → after ≢ none
Keeps-present none after k there gone = there refl
Keeps-present (some leaf) after k there gone = cc
Keeps-present (some (folder children)) after (children', e, kept) there gone = cc

make_missing-ne :
    (path : String) (disk : Disk) → lookup path disk ≡ none → make_missing path disk ≢ disk
unfolding make_missing
make_missing-ne path disk absent same = none-ne-some (
    sym absent
    ∙ ap (lookup path) (sym same)
    ∙ ap (lookup path) (rw (absent, make_missing) refl)
    ∙ lookup-insert_eq path path (folder []) disk refl)

make_missing-present : (path : String) (disk : Disk) → lookup path (make_missing path disk) ≢ none
make_missing-present path disk gone = elim (make_missing-cases path disk) [
  | inr (absent, new) ↦
      none-ne-some
        (sym gone ∙ ap (lookup path) new ∙ lookup-insert_eq path path (folder []) disk refl)
  | inl unchanged ↦ elim (Option-cases (lookup path disk)) [
    | inr (node, e) ↦ none-ne-some (sym gone ∙ ap (lookup path) unchanged ∙ e)
    | inl absent ↦ make_missing-ne path disk absent unchanged
  ]
]

nothing-contains : (path : String) → contains [] path ≢ true
unfolding contains
nothing-contains path h = cc

later-contains :
    (p : String) (ps : List String) (path : String)
    → contains (p ∷ ps) path ≡ true
    → path ≢ p
    → contains ps path ≡ true
unfolding contains
later-contains p ps path h ne = ground arith

make_way_from-made :
    (path directory : String) (parts : List String) (disk : Disk)
    → contains (ancestors_from directory parts) path ≡ true
    → path ≢ directory
    → lookup path (make_way_from directory parts disk) ≢ none
unfolding make_way_from ancestors_from
make_way_from-made path directory [] disk h ne = absurd (nothing-contains path h)
make_way_from-made path directory (part ∷ []) disk h ne =
    absurd (nothing-contains path (later-contains directory [] path h ne))
make_way_from-made path directory (part ∷ next ∷ parts) disk h ne =
    let made = child_path directory part in
    let listed = list_child directory part disk in
    elim (string_eq.dec path made) [
      | yes same ↦
          Keeps-present _ _
            (make_way_from-Keeps path made (next ∷ parts) (make_missing made listed))
            (subst (λ x. lookup x (make_missing made listed) ≢ none) (sym same)
              (make_missing-present made listed))
      | no apart ↦
          make_way_from-made path made (next ∷ parts) (make_missing made listed)
            (later-contains directory _ path h ne) apart
    ]

make_way-made :
    (path target : String) (disk : Disk)
    → contains (ancestors target) path ≡ true
    → path ≢ anchor target
    → lookup path (make_way target disk) ≢ none
unfolding make_way ancestors
make_way-made path target disk h ne =
    make_way_from-made path (anchor target) (parts_of target) disk h ne

-- A path that is not above the target is as it was.
pub make_way-elsewhere :
    (path target : String) (disk : Disk)
    → contains (ancestors target) path ≡ false
    → lookup path (make_way target disk) ≡ lookup path disk
unfolding make_way ancestors
make_way-elsewhere path target disk h =
    make_way_from-elsewhere path (anchor target) (parts_of target) disk h

-- Wherever something stood it stands, and no directory loses or changes what it has.
pub make_way-Keeps :
    (path target : String) (disk : Disk)
    → Keeps (lookup path disk) (lookup path (make_way target disk))
unfolding make_way
make_way-Keeps path target disk = make_way_from-Keeps path (anchor target) (parts_of target) disk

Node-cases : (n : Node) → (n ≡ leaf) ⊎ ((children : Dict String Child) × (n ≡ folder children))
Node-cases leaf = inl refl
Node-cases (folder children) = inr (children, refl)

list_child-leaf :
    (path directory name : String) (disk : Disk)
    → lookup path (list_child directory name disk) ≡ some leaf
    → lookup path disk ≡ some leaf
list_child-leaf path directory name disk h = elim (list_child-cases directory name disk) [
  | inl same ↦ sym (ap (lookup path) same) ∙ h
  | inr (children, e, absent, gained) ↦ elim (string_eq.dec path directory) [
    | no ne ↦ sym (list_child-elsewhere path directory name disk ne) ∙ h
    | yes here ↦ absurd (
        folder-ne-leaf
          (sym (ap (lookup path) gained ∙ lookup-insert_eq path directory _ disk here) ∙ h))
  ]
]

make_missing-leaf :
    (path made : String) (disk : Disk)
    → lookup path (make_missing made disk) ≡ some leaf
    → lookup path disk ≡ some leaf
make_missing-leaf path made disk h = elim (make_missing-cases made disk) [
  | inl same ↦ sym (ap (lookup path) same) ∙ h
  | inr (absent, new) ↦ elim (string_eq.dec path made) [
    | no ne ↦ sym (make_missing-elsewhere path made disk ne) ∙ h
    | yes here ↦
        absurd
          (folder-ne-leaf (sym (ap (lookup path) new ∙ lookup-insert_eq path made _ disk here) ∙ h))
  ]
]

make_way_from-leaf :
    (path directory : String) (parts : List String) (disk : Disk)
    → lookup path (make_way_from directory parts disk) ≡ some leaf
    → lookup path disk ≡ some leaf
unfolding make_way_from
make_way_from-leaf path directory [] disk h = h
make_way_from-leaf path directory (part ∷ []) disk h = list_child-leaf path directory part disk h
make_way_from-leaf path directory (part ∷ next ∷ parts) disk h =
    let made = child_path directory part in
    let listed = list_child directory part disk in
    list_child-leaf path directory part disk (
      make_missing-leaf path made listed
        (make_way_from-leaf path made (next ∷ parts) (make_missing made listed) h))

-- Every directory above the target is one, but perhaps the one that its path begins at, where no
-- file stood.
pub make_way-folder :
    (path target : String) (disk : Disk)
    → contains (ancestors target) path ≡ true
    → path ≢ anchor target
    → lookup path disk ≢ some leaf
    → (children : Dict String Child) × (lookup path (make_way target disk) ≡ some (folder children))
unfolding make_way
make_way-folder path target disk h ne clear =
    elim (Option-cases (lookup path (make_way target disk))) [
      | inl absent ↦ absurd (make_way-made path target disk h ne absent)
      | inr (node, there) ↦ elim (Node-cases node) [
        | inr (children, is) ↦ (children, there ∙ ap some is)
        | inl is ↦ absurd (
            clear
              (make_way_from-leaf path (anchor target) (parts_of target) disk (there ∙ ap some is)))
      ]
    ]
