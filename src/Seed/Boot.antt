-- ===== src/Seed/Boot.antt =====
-- internal/seediso/seediso.go: the boot configurations of the ISO, changed for an unattended
-- installation. AddGRUBAutoinstallKernelArgs and AddSyslinuxAutoinstallKernelArgs are one function
-- here of what they differ in.
pub mod Args
pub mod Lines
pub mod Patched
use ubuntu_vm_template_build.Base.{
  ℕ, Bool, true, false, not, ◌&&◌, ◌||◌, List, [], ◌∷◌, ◌++◌, Option, none, some, if◌then◌else◌,
  is_empty, codes, ◌==◌, take, drop,
}
use ubuntu_vm_template_build.Text.{
  Text, trim_space, to_lower, has_prefix, contains, index, split, join, equal,
}

abbrev pub console_tty0 : Text
console_tty0 = codes "console=tty0"

abbrev pub console_ttys0 : Text
console_ttys0 = codes "console=ttyS0,115200n8"

-- What the two kinds of files differ in: the line of each of the two settings, how such a line is
-- recognized, without the spaces round it, and the argument of the data source.
pub record Dialect : Type 0 where
  pub is_first : Text → Bool
  pub first_setting : Text
  pub is_second : Text → Bool
  pub second_setting : Text
  pub nocloud : Text

unfoldable pub grub : Dialect
unfolding has_prefix
grub = record {
  is_first = λ line. has_prefix line (codes "set timeout_style=");
  first_setting = codes "set timeout_style=hidden";
  is_second = λ line. has_prefix line (codes "set timeout=");
  second_setting = codes "set timeout=0";
  nocloud = codes "ds=nocloud\\;s=/cdrom/nocloud/";
}

unfoldable pub syslinux : Dialect
unfolding has_prefix to_lower
syslinux = record {
  is_first = λ line. has_prefix (to_lower line) (codes "prompt ");
  first_setting = codes "prompt 0";
  is_second = λ line. has_prefix (to_lower line) (codes "timeout ");
  second_setting = codes "timeout 1";
  nocloud = codes "ds=nocloud;s=/cdrom/nocloud/";
}

unfoldable pub is_installer_boot_line : Text → Bool
is_installer_boot_line line =
    let lowered = to_lower (trim_space line) in
    has_prefix lowered (codes "linux ")
    || has_prefix lowered (codes "linuxefi ")
    || has_prefix lowered (codes "append ")
    || contains lowered (codes "/casper/vmlinuz")

abbrev pub insert_at : Text → Text → Option ℕ → Text
insert_at line arg none = line ++ (codes " " ++ arg)
insert_at line arg (some i) = take i line ++ (codes " " ++ (arg ++ drop i line))

unfoldable pub insert_before_triple_dash : Text → Text → Text
insert_before_triple_dash line arg = insert_at line arg (index line (codes " ---"))

-- The loop over the arguments.
unfoldable pub insert_missing : Text → List Text → Text
insert_missing line [] = line
insert_missing line (arg ∷ args) =
    insert_missing (if contains line arg then line else insert_before_triple_dash line arg) args

unfoldable pub ensure_autoinstall_args : Text → Text → Text
ensure_autoinstall_args line nocloud =
    if contains line (codes "autoinstall") && contains line nocloud && contains line console_ttys0
    then line
    else insert_missing line (codes "autoinstall" ∷ nocloud ∷ console_tty0 ∷ console_ttys0 ∷ [])

-- The spaces and tabs that a line starts with.
unfoldable pub indent_of : Text → Text
indent_of [] = []
indent_of (c ∷ line) = let rest = indent_of line in if c == b' ' || c == b'\t' then c ∷ rest else []

unfoldable pub patch_line : Dialect → Text → Text
patch_line d line =
    if d.is_first (trim_space line)
    then indent_of line ++ d.first_setting
    else if d.is_second (trim_space line)
    then indent_of line ++ d.second_setting
    else if is_installer_boot_line line
    then ensure_autoinstall_args line d.nocloud
    else line

-- What the loop over the lines leaves.
pub record Patch : Type 0 where
  pub lines : List Text
  pub changed : Bool
  pub saw_first : Bool
  pub saw_second : Bool

unfoldable pub patch_lines : Dialect → List Text → Patch
patch_lines d [] = record { lines = []; changed = false; saw_first = false; saw_second = false }
patch_lines d (line ∷ lines) =
    let rest = patch_lines d lines in
    let first = d.is_first (trim_space line) in
    record {
      lines = patch_line d line ∷ rest.lines;
      changed = not (equal (patch_line d line) line) || rest.changed;
      saw_first = first || rest.saw_first;
      saw_second = (not first && d.is_second (trim_space line)) || rest.saw_second;
    }

unfoldable pub ends_with_newline : Text → Bool
ends_with_newline [] = false
ends_with_newline (c ∷ []) = c == b'\n'
ends_with_newline (c ∷ d ∷ s) = ends_with_newline (d ∷ s)

-- `strings.TrimSuffix(text, "\n")`
unfoldable pub without_newline : Text → Text
without_newline [] = []
without_newline (c ∷ []) = if c == b'\n' then [] else c ∷ []
without_newline (c ∷ d ∷ s) = c ∷ without_newline (d ∷ s)

-- The settings that no line had.
unfoldable pub missing_settings : Dialect → Patch → List Text
missing_settings d p =
    (if p.saw_first then [] else d.first_setting ∷ [])
    ++ (if p.saw_second then [] else d.second_setting ∷ [])

-- The text and whether it has changed.
unfoldable pub add_kernel_args : Dialect → Text → Text × Bool
add_kernel_args d file =
    let p = patch_lines d (split (without_newline file) b'\n') in
    let prefix = missing_settings d p in
    let out = join (prefix ++ p.lines) (codes "\n") in
    if p.changed || not (is_empty prefix)
    then (if ends_with_newline file then out ++ codes "\n" else out, true)
    else (file, false)

-- `PatchBootConfig`
unfoldable pub patch_boot_config : Text → Text → Text × Bool
patch_boot_config iso_path file =
    if contains iso_path (codes "/grub/")
    then add_kernel_args grub file
    else add_kernel_args syslinux file
