-- ===== src/Qemu/Tests.antt =====
-- internal/backend/qemu/qemu.go: runs of the code, and the theorem at a concrete input.
use ubuntu_vm_template_build.Base.{◌≡◌, ◌⊎◌, refl, List, [], ◌∷◌, none, some, codes, flatten}
use ubuntu_vm_template_build.Text.{Text, contains, has_prefix}
use ubuntu_vm_template_build.Qemu.Detector.{
  installer_failure_markers, new_detector, find_marker, write, write_all, error_marker,
}
use ubuntu_vm_template_build.Qemu.Detector.Whole.{HasNone, HasOne, error_marker-write_all}

-- A marker that comes in two pieces.
abbrev output_pieces : List Text
output_pieces = codes "curtin: install_fa" ∷ codes "il.crash in late" ∷ codes "-commands" ∷ []

found_across :
    error_marker (write_all new_detector output_pieces) ≡ some (codes "install_fail.crash")
unfolding error_marker write_all write find_marker contains has_prefix
found_across = refl

error_marker-write_all_example :
    ((error_marker (write_all new_detector output_pieces) ≡ none)
      × HasNone (flatten output_pieces) installer_failure_markers)
    ⊎ ((m : Text) × (error_marker (write_all new_detector output_pieces) ≡ some m)
        × HasOne (flatten output_pieces) installer_failure_markers m)
error_marker-write_all_example = error_marker-write_all output_pieces
