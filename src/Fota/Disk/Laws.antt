-- ===== src/Fota/Disk/Laws.antt =====
-- What the writes leave on a disk.
use aos_vehicle_platform.Prelude.{
  String, ◌≡◌, ◌≢◌, refl, sym, subst, true, false, contains, ◌∙◌, none, some, [], string_eq,
}
use aos_vehicle_platform.Prelude.Dict.{
  Dict, lookup, insert, erase, lookup-insert_eq, lookup-insert_ne, lookup-erase_eq, lookup-erase_ne,
}
use aos_vehicle_platform.Fota.Bytes.{Bytes}
use aos_vehicle_platform.Fota.Disk.Way.{
  Keeps, ancestors, make_way-elsewhere, make_way-Keeps, make_way-folder,
}
use aos_vehicle_platform.Fota.Disk.{
  anchor, Child, plain, Node, folder, leaf, Disk, write_child, replace, folder_at, partial, publish,
  make_way,
}

write_child-folder :
    (directory name : String) (content : Bytes) (children : Dict String Child) (disk : Disk)
    → lookup directory disk ≡ some (folder children)
    → lookup directory (write_child directory name content disk)
      ≡ some (folder (insert name (plain content) children))
unfolding write_child
write_child-folder directory name content children disk h =
    rw (h, write_child) (lookup-insert_eq directory directory _ disk refl)

write_child-elsewhere :
    (path directory name : String) (content : Bytes) (children : Dict String Child) (disk : Disk)
    → lookup directory disk ≡ some (folder children)
    → path ≢ directory
    → lookup path (write_child directory name content disk) ≡ lookup path disk
unfolding write_child
write_child-elsewhere path directory name content children disk h ne =
    rw (h, write_child) (lookup-insert_ne path directory _ disk ne)

replace-target :
    (source target : String) (node : Node) (disk : Disk)
    → lookup source disk ≡ some node
    → lookup target (replace source target disk) ≡ some node
unfolding replace
replace-target source target node disk h =
    rw (h, replace) (lookup-insert_eq target target node (erase source disk) refl)

replace-elsewhere :
    (path source target : String) (node : Node) (disk : Disk)
    → lookup source disk ≡ some node
    → path ≢ target
    → path ≢ source
    → lookup path (replace source target disk) ≡ lookup path disk
unfolding replace
replace-elsewhere path source target node disk h ne ne' =
    rw (h, replace)
      (lookup-insert_ne path target node (erase source disk) ne
        ∙ lookup-erase_ne path source disk ne')

replace-source :
    (path source target : String) (node : Node) (disk : Disk)
    → lookup source disk ≡ some node
    → path ≢ target
    → path ≡ source
    → lookup path (replace source target disk) ≡ none
unfolding replace
replace-source path source target node disk h ne e =
    rw (h, replace)
      (lookup-insert_ne path target node (erase source disk) ne
        ∙ lookup-erase_eq path source disk e)

module _ (target first : String) (first_content : Bytes) (second : String) (second_content : Bytes)
    (disk : Disk) where
  abbrev published : Dict String Child
  published = insert second (plain second_content) (insert first (plain first_content) [])

  made :
      lookup (partial target) (insert (partial target) (folder []) (make_way target disk))
      ≡ some (folder [])
  made = lookup-insert_eq (partial target) (partial target) (folder []) (make_way target disk) refl

  with_first :
      lookup (partial target) (
        write_child
          (partial target)
          first
          first_content
          (insert (partial target) (folder []) (make_way target disk)))
      ≡ some (folder (insert first (plain first_content) []))
  with_first = write_child-folder (partial target) first first_content [] _ made

  with_both :
      lookup (partial target) (
        write_child (partial target) second second_content (
          write_child
            (partial target)
            first
            first_content
            (insert (partial target) (folder []) (make_way target disk))))
      ≡ some (folder published)
  with_both = write_child-folder (partial target) second second_content _ _ with_first

  lookup-target :
      lookup target (publish target first first_content second second_content disk)
      ≡ some (folder published)
  unfolding publish
  lookup-target = replace-target (partial target) target _ _ with_both

  lookup-untouched :
      (path : String)
      → path ≢ target
      → path ≢ partial target
      → lookup path (publish target first first_content second second_content disk)
        ≡ lookup path (make_way target disk)
  unfolding publish
  lookup-untouched path ne ne' =
      replace-elsewhere path (partial target) target _ _ with_both ne ne'
      ∙ write_child-elsewhere path (partial target) second _ _ _ with_first ne'
      ∙ write_child-elsewhere path (partial target) first _ [] _ made ne'
      ∙ lookup-insert_ne path (partial target) (folder []) (make_way target disk) ne'

  lookup-partial :
      (path : String)
      → path ≢ target
      → path ≡ partial target
      → lookup path (publish target first first_content second second_content disk) ≡ none
  unfolding publish
  lookup-partial path ne e = replace-source path (partial target) target _ _ with_both ne e

  folder_at-target :
      folder_at target (publish target first first_content second second_content disk)
      ≡ some published
  unfolding folder_at
  folder_at-target = rw (lookup-target, folder_at) refl

-- The directory that was published.
pub folder_at-publish :
    (target first : String) (first_content : Bytes) (second : String) (second_content : Bytes)
    (disk : Disk)
    → folder_at target (publish target first first_content second second_content disk)
      ≡ some (insert second (plain second_content) (insert first (plain first_content) []))
folder_at-publish target first first_content second second_content disk =
    folder_at-target target first first_content second second_content disk

-- A directory was published: it stands at the target, and nothing at its partial name. The directories
-- above the target are there, where no file or link stood, but perhaps the one that its path begins at.
-- What stood there has what it had, and every other path is as it was.
pub record IsPublished (disk disk' : Disk) (target : String) (children : Dict String Child)
    : Type 0 where
  pub present : lookup target disk' ≡ some (folder children)
  pub moved : (path : String) → path ≢ target → path ≡ partial target → lookup path disk' ≡ none
  pub above :
      (path : String)
      → path ≢ target
      → path ≢ partial target
      → contains (ancestors target) path ≡ true
      → path ≢ anchor target
      → lookup path disk ≢ some leaf
      → (found : Dict String Child) × (lookup path disk' ≡ some (folder found))
  pub kept :
      (path : String)
      → path ≢ target
      → path ≢ partial target
      → Keeps (lookup path disk) (lookup path disk')
  pub elsewhere :
      (path : String)
      → path ≢ target
      → path ≢ partial target
      → contains (ancestors target) path ≡ false
      → lookup path disk' ≡ lookup path disk

pub publish-IsPublished :
    (target first : String) (first_content : Bytes) (second : String) (second_content : Bytes)
    (disk : Disk)
    → IsPublished disk
        (publish target first first_content second second_content disk)
        target
        (insert second (plain second_content) (insert first (plain first_content) []))
publish-IsPublished target first first_content second second_content disk =
    let untouched = lookup-untouched target first first_content second second_content disk in
    record {
      present = lookup-target target first first_content second second_content disk;
      moved = lookup-partial target first first_content second second_content disk;
      above = λ path ne ne' h start clear.
          subst (λ x. (found : Dict String Child) × (x ≡ some (folder found)))
            (sym (untouched path ne ne')) (make_way-folder path target disk h start clear);
      kept = λ path ne ne'.
          subst (Keeps (lookup path disk)) (sym (untouched path ne ne'))
            (make_way-Keeps path target disk);
      elsewhere = λ path ne ne' h. untouched path ne ne' ∙ make_way-elsewhere path target disk h;
    }

-- No file and no link stands where a directory above the target is to be.
abbrev pub HasClearWay : String → Disk → Type 0
HasClearWay target disk =
    (path : String) → contains (ancestors target) path ≡ true → lookup path disk ≢ some leaf

-- The directories above the target are there, but perhaps the one that its path begins at.
abbrev pub HasWay : String → Disk → Type 0
HasWay target disk =
    (path : String)
    → path ≢ target
    → path ≢ partial target
    → contains (ancestors target) path ≡ true
    → path ≢ anchor target
    → (children : Dict String Child) × (lookup path disk ≡ some (folder children))

pub publish-HasWay :
    (target first : String) (first_content : Bytes) (second : String) (second_content : Bytes)
    (disk : Disk)
    → HasClearWay target disk
    → HasWay target (publish target first first_content second second_content disk)
publish-HasWay target first first_content second second_content disk clear = λ path ne ne' h start.
    let published = publish-IsPublished target first first_content second second_content disk in
    published.above path ne ne' h start (clear path h)
