-- ===== src/Seed/Boot/Lines.antt =====
-- internal/seediso/seediso.go: the lines of a changed boot configuration.
use ubuntu_vm_template_build.Base.{
  ℕ, ◌≡◌, refl, sym, ◌∙◌, inl, inr, true, false, ◌&&◌, ◌||◌, List, [], ◌∷◌, ◌++◌, Option, none,
  some, codes, ◌==◌, take, drop, OneOf, All, All-take, All-drop, All-append, Bool-cases, arith,
}
use ubuntu_vm_template_build.Text.{
  Text, is_space, trim_space, trim_by, trim_left_by, trim_right_by, to_lower, lower, has_prefix,
  contains, index,
}
use ubuntu_vm_template_build.Text.Split.{Lacks, lacks_iff}
use ubuntu_vm_template_build.Seed.Boot.{
  Dialect, grub, syslinux, is_installer_boot_line, insert_at, insert_before_triple_dash,
  insert_missing, ensure_autoinstall_args, console_tty0, console_ttys0, indent_of, patch_line,
}
use ubuntu_vm_template_build.Seed.Boot.Args.{IsUnattended, ensure_autoinstall_args-IsUnattended}

-- What the settings of both dialects are like.
pub record IsSetting (setting : Text) : Type 0 where
  pub trimmed :
      (indent : Text)
      → All (λ c. is_space c ≡ true) indent
      → trim_space (indent ++ setting) ≡ setting
  pub not_boot : is_installer_boot_line setting ≡ false
  pub one_line : Lacks b'\n' setting

pub record IsDialect (d : Dialect) : Type 0 where
  pub first : IsSetting d.first_setting
  pub second : IsSetting d.second_setting
  pub nocloud_word : Lacks b' ' d.nocloud
  pub nocloud_line : Lacks b'\n' d.nocloud

trim_space-indented :
    (indent s : Text)
    → All (λ c. is_space c ≡ true) indent
    → trim_space (indent ++ s) ≡ trim_space s
unfolding trim_space trim_by trim_left_by
trim_space-indented [] s h = refl
trim_space-indented (c ∷ indent) s (h, hs) = rw h (trim_space-indented indent s hs)

fixed-IsSetting :
    (s : Text) → trim_space s ≡ s → is_installer_boot_line s ≡ false → Lacks b'\n' s → IsSetting s
fixed-IsSetting s t b l = record {
  trimmed = λ indent h. trim_space-indented indent s h ∙ t;
  not_boot = b;
  one_line = l;
}

pub grub-IsDialect : IsDialect grub
unfolding grub trim_space trim_by trim_left_by trim_right_by is_space is_installer_boot_line
    to_lower lower has_prefix contains
grub-IsDialect = record {
  first = fixed-IsSetting _ refl refl (lacks_iff b'\n' (codes "set timeout_style=hidden") refl);
  second = fixed-IsSetting _ refl refl (lacks_iff b'\n' (codes "set timeout=0") refl);
  nocloud_word = lacks_iff b' ' (codes "ds=nocloud\\;s=/cdrom/nocloud/") refl;
  nocloud_line = lacks_iff b'\n' (codes "ds=nocloud\\;s=/cdrom/nocloud/") refl;
}

pub syslinux-IsDialect : IsDialect syslinux
unfolding syslinux trim_space trim_by trim_left_by trim_right_by is_space is_installer_boot_line
    to_lower lower has_prefix contains
syslinux-IsDialect = record {
  first = fixed-IsSetting _ refl refl (lacks_iff b'\n' (codes "prompt 0") refl);
  second = fixed-IsSetting _ refl refl (lacks_iff b'\n' (codes "timeout 1") refl);
  nocloud_word = lacks_iff b' ' (codes "ds=nocloud;s=/cdrom/nocloud/") refl;
  nocloud_line = lacks_iff b'\n' (codes "ds=nocloud;s=/cdrom/nocloud/") refl;
}

indent_of-AllSpace : (line : Text) → All (λ c. is_space c ≡ true) (indent_of line)
unfolding indent_of is_space
indent_of-AllSpace [] = tt
indent_of-AllSpace (c ∷ line) = elim (Bool-cases (c == b' ' || c == b'\t')) [
  | inl space ↦ rw space (ground arith, indent_of-AllSpace line)
  | inr other ↦ rw other tt
]

-- The same test on lines that are the same without the spaces round them.
is_installer_boot_line-trim :
    (line s : Text)
    → trim_space line ≡ s
    → trim_space s ≡ s
    → is_installer_boot_line line ≡ is_installer_boot_line s
unfolding is_installer_boot_line
is_installer_boot_line-trim line s h k = rw (h, k) refl

-- A line that stands in the result: a boot line only with its arguments.
abbrev pub IsReady : Dialect → Text → Type 0
IsReady d line = is_installer_boot_line line ≡ true → IsUnattended d.nocloud line

pub setting-IsReady :
    (d : Dialect) (s indent : Text)
    → IsSetting s
    → All (λ c. is_space c ≡ true) indent
    → IsReady d (indent ++ s)
setting-IsReady d s indent i h boot = absurd (
    cc (
      sym boot
      ∙ is_installer_boot_line-trim (indent ++ s) s (i.trimmed indent h) (i.trimmed [] tt)
      ∙ i.not_boot))

pub patch_line-IsReady : (d : Dialect) (line : Text) → IsDialect d → IsReady d (patch_line d line)
unfolding patch_line
patch_line-IsReady d line i = elim (Bool-cases (d.is_first (trim_space line))) [
  | inl first ↦
      rw first
        (setting-IsReady d d.first_setting (indent_of line) i.first (indent_of-AllSpace line))
  | inr not_first ↦ elim (Bool-cases (d.is_second (trim_space line))) [
    | inl second ↦
        rw (not_first, second)
          (setting-IsReady d d.second_setting (indent_of line) i.second (indent_of-AllSpace line))
    | inr not_second ↦ elim (Bool-cases (is_installer_boot_line line)) [
      | inl boot ↦
          rw (not_first, not_second, boot)
            (ready (ensure_autoinstall_args-IsUnattended line d.nocloud i.nocloud_word))
      | inr other ↦ rw (not_first, not_second, other) (unready other)
    ]
  ]
]
  where
    ready : {l : Text} → IsUnattended d.nocloud l → IsReady d l
    ready u = λ _. u

    unready : is_installer_boot_line line ≡ false → IsReady d line
    unready o = λ boot. absurd (cc (sym boot ∙ o))

abbrev NoNewline : ℕ → Type 0
NoNewline c = (c == b'\n') ≡ false

insert_at-Lacks :
    (line arg : Text) (i : Option ℕ)
    → Lacks b'\n' line
    → Lacks b'\n' arg
    → Lacks b'\n' (insert_at line arg i)
insert_at-Lacks line arg none h k = All-append NoNewline line _ h (refl, k)
insert_at-Lacks line arg (some i) h k =
    All-append NoNewline (take i line) _ (All-take NoNewline i line h)
      (refl, All-append NoNewline arg (drop i line) k (All-drop NoNewline i line h))

insert_missing-Lacks :
    (args : List Text) (line : Text)
    → All (Lacks b'\n') args
    → Lacks b'\n' line
    → Lacks b'\n' (insert_missing line args)
unfolding insert_missing insert_before_triple_dash
insert_missing-Lacks [] line h k = k
insert_missing-Lacks (arg ∷ args) line (h, hs) k = elim (Bool-cases (contains line arg)) [
  | inl has ↦ rw has (insert_missing-Lacks args line hs k)
  | inr lack ↦ rw lack (
      insert_missing-Lacks args (insert_before_triple_dash line arg) hs
        (insert_at-Lacks line arg (index line (codes " ---")) k h))
]

ensure_autoinstall_args-Lacks :
    (line nocloud : Text)
    → Lacks b'\n' nocloud
    → Lacks b'\n' line
    → Lacks b'\n' (ensure_autoinstall_args line nocloud)
unfolding ensure_autoinstall_args
ensure_autoinstall_args-Lacks line nocloud h k =
    elim (Bool-cases (
      contains line (codes "autoinstall")
      && contains line nocloud
      && contains line console_ttys0)) [
        | inl there ↦ rw there k
        | inr lack ↦ rw lack (
            insert_missing-Lacks (codes "autoinstall" ∷ nocloud ∷ console_tty0 ∷ console_ttys0 ∷ [])
              line
              (
                lacks_iff b'\n' (codes "autoinstall") refl,
                (h, (lacks_iff b'\n' console_tty0 refl, (lacks_iff b'\n' console_ttys0 refl, tt))),
              )
              k)
      ]

indent_of-Lacks : (line : Text) → Lacks b'\n' line → Lacks b'\n' (indent_of line)
unfolding indent_of
indent_of-Lacks [] h = tt
indent_of-Lacks (c ∷ line) (h, hs) = elim (Bool-cases (c == b' ' || c == b'\t')) [
  | inl space ↦ rw space (h, indent_of-Lacks line hs)
  | inr other ↦ rw other tt
]

-- A changed line is still one line.
pub patch_line-Lacks :
    (d : Dialect) (line : Text) → IsDialect d → Lacks b'\n' line → Lacks b'\n' (patch_line d line)
unfolding patch_line
patch_line-Lacks d line i h = elim (Bool-cases (d.is_first (trim_space line))) [
  | inl first ↦ rw first (
      All-append NoNewline (indent_of line) d.first_setting (indent_of-Lacks line h)
        i.first.one_line)
  | inr not_first ↦ elim (Bool-cases (d.is_second (trim_space line))) [
    | inl second ↦
        rw (not_first, second)
          (All-append NoNewline (indent_of line) d.second_setting (indent_of-Lacks line h)
            i.second.one_line)
    | inr not_second ↦ elim (Bool-cases (is_installer_boot_line line)) [
      | inl boot ↦
          rw (not_first, not_second, boot)
            (ensure_autoinstall_args-Lacks line d.nocloud i.nocloud_line h)
      | inr other ↦ rw (not_first, not_second, other) h
    ]
  ]
]

-- A line with the setting, which may be indented.
unfoldable pub HasSetting : Text → List Text → Type 0
HasSetting s lines = (line : Text) × OneOf line lines × (trim_space line ≡ s)

pub HasSetting-first :
    (d : Dialect) (line : Text) (rest : List Text)
    → IsDialect d
    → d.is_first (trim_space line) ≡ true
    → HasSetting d.first_setting (patch_line d line ∷ rest)
unfolding HasSetting patch_line
HasSetting-first d line rest i first = (
  patch_line d line,
  inl refl,
  rw first (i.first.trimmed (indent_of line) (indent_of-AllSpace line)),
)

pub HasSetting-second :
    (d : Dialect) (line : Text) (rest : List Text)
    → IsDialect d
    → d.is_first (trim_space line) ≡ false
    → d.is_second (trim_space line) ≡ true
    → HasSetting d.second_setting (patch_line d line ∷ rest)
unfolding HasSetting patch_line
HasSetting-second d line rest i not_first second = (
  patch_line d line,
  inl refl,
  rw (not_first, second) (i.second.trimmed (indent_of line) (indent_of-AllSpace line)),
)
