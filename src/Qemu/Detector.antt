-- ===== src/Qemu/Detector.antt =====
-- internal/backend/qemu/qemu.go: installerFailureDetector, which looks for marks of a failure in the
-- console output that it is given in pieces.
pub mod Whole
use ubuntu_vm_template_build.Base.{
  ℕ, ◌-◌, Bool, true, false, List, [], ◌∷◌, ◌++◌, Option, none, some, ltb, if◌then◌else◌, is_empty,
  length, drop, codes,
}
use ubuntu_vm_template_build.Text.{Text, contains}

abbrev pub installer_failure_markers : List Text
installer_failure_markers =
    codes "An error occurred. Press enter to start a shell"
    ∷ codes "install_fail.crash"
    ∷ codes "install_fail/add_info"
    ∷ []

-- The marker is empty as long as none has been found.
pub record InstallerFailureDetector : Type 0 where
  pub tail : Text
  pub marker : Text

abbrev pub new_detector : InstallerFailureDetector
new_detector = record { tail = []; marker = [] }

-- The first of the markers in the text, or the empty one.
unfoldable pub find_marker : List Text → Text → Text
find_marker [] combined = []
find_marker (marker ∷ rest) combined =
    let later = find_marker rest combined in if contains combined marker then marker else later

abbrev pub keep_tail : Text → Text
keep_tail combined =
    if ltb 4096 (length combined) then drop (length combined - 4096) combined else combined

-- `Write`; it takes all the bytes.
unfoldable pub write : InstallerFailureDetector → Text → InstallerFailureDetector × ℕ
unfolding find_marker
write d p =
    if is_empty d.marker
    then (
      record {
        tail = keep_tail (d.tail ++ p);
        marker = find_marker installer_failure_markers (d.tail ++ p);
      },
      length p,
    )
    else (d, length p)

unfoldable pub write_all : InstallerFailureDetector → List Text → InstallerFailureDetector
write_all d [] = d
write_all d (p ∷ rest) = write_all (write d p).0 rest

-- `Err`, with the marker of its message.
unfoldable pub error_marker : InstallerFailureDetector → Option Text
error_marker d = if is_empty d.marker then none else some d.marker
