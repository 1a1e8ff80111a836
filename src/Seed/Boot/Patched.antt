-- ===== src/Seed/Boot/Patched.antt =====
-- internal/seediso/seediso.go: a changed boot configuration installs unattended.
use ubuntu_vm_template_build.Base.{◌≡◌, true, false, List, [], ◌∷◌, if◌then◌else◌, codes, All}
use ubuntu_vm_template_build.Text.{Text, contains}
use ubuntu_vm_template_build.Text.Split.{Lacks}
use ubuntu_vm_template_build.Seed.Boot.{
  Dialect, grub, syslinux, is_installer_boot_line, Patch, ends_with_newline,
}
use ubuntu_vm_template_build.Seed.Boot.Args.{IsUnattended}
use ubuntu_vm_template_build.Seed.Boot.Lines.{IsReady, HasSetting}

-- What the loop over the lines leaves.
record IsPatched (d : Dialect) (lines : List Text) (p : Patch) : Type 0 where
  ready : All (IsReady d) p.lines
  first : p.saw_first ≡ true → HasSetting d.first_setting p.lines
  second : p.saw_second ≡ true → HasSetting d.second_setting p.lines
  same : p.changed ≡ false → p.lines ≡ lines
  one_line : All (Lacks b'\n') p.lines

-- What a boot configuration is to be, by its lines.
pub record AreUnattended (d : Dialect) (lines : List Text) : Type 0 where
  pub boot : All (λ line. is_installer_boot_line line ≡ true → IsUnattended d.nocloud line) lines
  pub first : HasSetting d.first_setting lines
  pub second : HasSetting d.second_setting lines

-- The line behind the last newline.
abbrev last_line : Text → List Text
last_line file = if ends_with_newline file then [] ∷ [] else []

-- The dialect of a file on the ISO.
abbrev pub dialect_of : Text → Dialect
dialect_of iso_path = if contains iso_path (codes "/grub/") then grub else syslinux
