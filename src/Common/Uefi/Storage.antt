-- ===== src/Common/Uefi/Storage.antt =====
-- internal/common/common.go: what `storageConfigHasUEFIESP` has found in the actions where it says yes.
use ubuntu_vm_template_build.Base.{
  ◌≡◌, refl, sym, subst, inl, inr, ◌⊎◌, true, false, not, ◌&&◌, List, [], ◌∷◌, is_empty, codes,
  OneOf, All, Bool-cases, arith,
}
use ubuntu_vm_template_build.Text.{Text, equal, is_among}
use ubuntu_vm_template_build.Text.Trim.{equal_iff}
use ubuntu_vm_template_build.Common.Yaml.{Node, kind_of, is_mapping}
use ubuntu_vm_template_build.Common.Uefi.{
  is_fat_filesystem, Dict, assign, lookup, Esp, field, add_disk, add_partition, add_format,
  add_mount, add_action, add_actions, some_esp, no_esp, storage_config_has_uefi_esp,
}

-- One of the actions, of the type.
pub record IsAction (actions : List Node) (type : Text) (action : Node) : Type 0 where
  pub listed : OneOf action actions
  pub mapping : is_mapping (kind_of action) ≡ true
  pub typed : equal (field action (codes "type")) type ≡ true

module _ (actions : List Node) where
  pub IsGptDisk : Text → Type 0
  IsGptDisk d =
      (a : Node) × IsAction actions (codes "disk") a
      × (field a (codes "id") ≡ d)
      × (equal (field a (codes "ptable")) (codes "gpt") ≡ true)

  pub IsBootPartition : Text × Text → Type 0
  IsBootPartition (p, d) =
      (a : Node) × IsAction actions (codes "partition") a
      × (field a (codes "id") ≡ p)
      × (field a (codes "device") ≡ d)
      × (equal (field a (codes "flag")) (codes "boot") ≡ true)

  pub IsFatFormat : Text × Text → Type 0
  IsFatFormat (v, f) =
      (a : Node) × IsAction actions (codes "format") a
      × (field a (codes "volume") ≡ v)
      × (field a (codes "id") ≡ f)
      × (is_fat_filesystem (field a (codes "fstype")) ≡ true)

  pub IsEfiMount : Text → Type 0
  IsEfiMount d =
      (a : Node) × IsAction actions (codes "mount") a
      × (field a (codes "device") ≡ d)
      × (equal (field a (codes "path")) (codes "/boot/efi") ≡ true)

  -- A boot partition of a GPT disk with a FAT format, mounted at /boot/efi by itself or by its
  -- format.
  pub record IsEsp : Type 0 where
    pub partition : Text
    pub device : Text
    pub format : Text
    pub mounted : Text
    pub disk : IsGptDisk device
    pub boot : IsBootPartition (partition, device)
    pub fat : IsFatFormat (partition, format)
    pub mount : IsEfiMount mounted
    pub one_of_both : (mounted ≡ format) ⊎ (mounted ≡ partition)

  record AreFound (e : Esp) : Type 0 where
    disks : All IsGptDisk e.gpt_disks
    partitions : All IsBootPartition e.boot_partition_device
    formats : All IsFatFormat e.fat_format_for_volume
    mounts : All IsEfiMount e.efi_mount_devices

  assign-All :
      (P : Text × Text → Type 0) (k v : Text) (d : Dict) → P (k, v) → All P d → All P (assign k v d)
  unfolding assign
  assign-All P k v [] p h = (p, tt)
  assign-All P k v ((k', v') ∷ d) p (h, hs) = elim (Bool-cases (equal k' k)) [
    | inl same ↦ rw same (p, hs)
    | inr other ↦ rw other (h, assign-All P k v d p hs)
  ]

  module _ (a : Node) (e : Esp) (h : AreFound e) where
    add_disk-AreFound : IsAction actions (codes "disk") a → AreFound (add_disk a e)
    unfolding add_disk IsGptDisk
    add_disk-AreFound i =
        elim (Bool-cases (
          not (is_empty (field a (codes "id")))
          && equal (field a (codes "ptable")) (codes "gpt"))) [
            | inl gpt ↦ rw gpt (record {
              disks = ((a, i, refl, ground arith), h.disks);
              partitions = h.partitions;
              formats = h.formats;
              mounts = h.mounts;
            })
            | inr other ↦ rw other h
          ]

    add_partition-AreFound : IsAction actions (codes "partition") a → AreFound (add_partition a e)
    unfolding add_partition IsBootPartition
    add_partition-AreFound i =
        elim (Bool-cases (
          not (is_empty (field a (codes "id")))
          && not (is_empty (field a (codes "device")))
          && equal (field a (codes "flag")) (codes "boot"))) [
            | inl boot ↦ rw boot (record {
              disks = h.disks;
              partitions =
                  assign-All IsBootPartition _ _ e.boot_partition_device
                    (a, i, refl, refl, ground arith) h.partitions;
              formats = h.formats;
              mounts = h.mounts;
            })
            | inr other ↦ rw other h
          ]

    add_format-AreFound : IsAction actions (codes "format") a → AreFound (add_format a e)
    unfolding add_format IsFatFormat
    add_format-AreFound i =
        elim (Bool-cases (
          not (is_empty (field a (codes "id")))
          && not (is_empty (field a (codes "volume")))
          && is_fat_filesystem (field a (codes "fstype")))) [
            | inl fat ↦ rw fat (record {
              disks = h.disks;
              partitions = h.partitions;
              formats =
                  assign-All IsFatFormat _ _ e.fat_format_for_volume
                    (a, i, refl, refl, ground arith) h.formats;
              mounts = h.mounts;
            })
            | inr other ↦ rw other h
          ]

    add_mount-AreFound : IsAction actions (codes "mount") a → AreFound (add_mount a e)
    unfolding add_mount IsEfiMount
    add_mount-AreFound i =
        elim (Bool-cases (
          not (is_empty (field a (codes "device")))
          && equal (field a (codes "path")) (codes "/boot/efi"))) [
            | inl efi ↦ rw efi (record {
              disks = h.disks;
              partitions = h.partitions;
              formats = h.formats;
              mounts = ((a, i, refl, ground arith), h.mounts);
            })
            | inr other ↦ rw other h
          ]

    add_action-AreFound : OneOf a actions → AreFound (add_action a e)
    unfolding add_action
    add_action-AreFound m = elim (Bool-cases (is_mapping (kind_of a))) [
      | inr other ↦ rw other h
      | inl map ↦ elim (Bool-cases (equal (field a (codes "type")) (codes "disk"))) [
        | inl t ↦ rw (map, t) (add_disk-AreFound (record { listed = m; mapping = map; typed = t }))
        | inr not_disk ↦ elim (Bool-cases (equal (field a (codes "type")) (codes "partition"))) [
          | inl t ↦
              rw (map, not_disk, t)
                (add_partition-AreFound (record { listed = m; mapping = map; typed = t }))
          | inr not_partition ↦
              elim (Bool-cases (equal (field a (codes "type")) (codes "format"))) [
                | inl t ↦
                    rw (map, not_disk, not_partition, t)
                      (add_format-AreFound (record { listed = m; mapping = map; typed = t }))
                | inr not_format ↦
                    elim (Bool-cases (equal (field a (codes "type")) (codes "mount"))) [
                      | inl t ↦
                          rw (map, not_disk, not_partition, not_format, t)
                            (add_mount-AreFound (record { listed = m; mapping = map; typed = t }))
                      | inr other ↦ rw (map, not_disk, not_partition, not_format, other) h
                    ]
              ]
        ]
      ]
    ]

  add_actions-AreFound :
      (rest : List Node) (e : Esp)
      → ((a : Node) → OneOf a rest → OneOf a actions)
      → AreFound e
      → AreFound (add_actions rest e)
  unfolding add_actions
  add_actions-AreFound [] e k h = h
  add_actions-AreFound (a ∷ rest) e k h =
      add_actions-AreFound rest (add_action a e) (λ b m. k b (inr m))
        (add_action-AreFound a e h (k a (inl refl)))

  is_among-All :
      (P : Text → Type 0) (v : Text) (vs : List Text) → is_among v vs ≡ true → All P vs → P v
  unfolding is_among
  is_among-All P v [] m h = absurd (cc m)
  is_among-All P v (w ∷ vs) m (h, hs) = elim (Bool-cases (equal v w)) [
    | inl same ↦ subst P (sym ((equal_iff v w).0 same)) h
    | inr other ↦ is_among-All P v vs (rw other at m) hs
  ]

  lookup-All :
      (P : Text × Text → Type 0) (k : Text) (d : Dict)
      → is_empty (lookup k d) ≡ false
      → All P d
      → P (k, lookup k d)
  unfolding lookup
  lookup-All P k [] n h = absurd (cc n)
  lookup-All P k ((k', v) ∷ d) n (h, hs) = elim (Bool-cases (equal k' k)) [
    | inl same ↦ rw same (subst (λ x. P (x, v)) ((equal_iff k' k).0 same) h)
    | inr other ↦ rw other (lookup-All P k d (rw other at n) hs)
  ]

  some_esp-IsEsp :
      (partitions : Dict) (e : Esp)
      → AreFound e
      → All IsBootPartition partitions
      → some_esp partitions e ≡ true
      → IsEsp
  unfolding some_esp
  some_esp-IsEsp [] e f h s = absurd (cc s)
  some_esp-IsEsp ((p, d) ∷ partitions) e f (h, hs) s =
      let format = lookup p e.fat_format_for_volume in
      let esp : (m : Text)
          → is_among d e.gpt_disks ≡ true
          → is_empty format ≡ false
          → is_among m e.efi_mount_devices ≡ true
          → (m ≡ format) ⊎ (m ≡ p)
          → IsEsp =
        λ m gpt full mounted which. record {
          partition = p;
          device = d;
          format = format;
          mounted = m;
          disk = is_among-All IsGptDisk d e.gpt_disks gpt f.disks;
          boot = h;
          fat = lookup-All IsFatFormat p e.fat_format_for_volume full f.formats;
          mount = is_among-All IsEfiMount m e.efi_mount_devices mounted f.mounts;
          one_of_both = which;
        } in
      elim (Bool-cases (is_among d e.gpt_disks)) [
        | inr no_disk ↦ some_esp-IsEsp partitions e f hs (rw no_disk at s)
        | inl gpt ↦ elim (Bool-cases (is_empty format)) [
          | inl no_format ↦ some_esp-IsEsp partitions e f hs (rw (gpt, no_format) at s)
          | inr full ↦ elim (Bool-cases (is_among format e.efi_mount_devices)) [
            | inl by_format ↦ esp format gpt full by_format (inl refl)
            | inr not_format ↦ elim (Bool-cases (is_among p e.efi_mount_devices)) [
              | inl by_partition ↦ esp p gpt full by_partition (inr refl)
              | inr not_partition ↦
                  some_esp-IsEsp partitions e f hs (rw (gpt, full, not_format, not_partition) at s)
            ]
          ]
        ]
      ]

-- The actions have such a partition if the code says so.
pub storage_config-IsEsp :
    (actions : List Node) → storage_config_has_uefi_esp actions ≡ true → IsEsp actions
unfolding storage_config_has_uefi_esp
storage_config-IsEsp actions s =
    let e = add_actions actions no_esp in
    let f =
      add_actions-AreFound actions actions no_esp (λ a m. m)
        (record { disks = tt; partitions = tt; formats = tt; mounts = tt }) in
    some_esp-IsEsp actions e.boot_partition_device e f f.partitions s
