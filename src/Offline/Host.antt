-- ===== src/Offline/Host.antt =====
-- internal/offlineapt/offlineapt.go: what the build of the repository calls: commands, and the file
-- system. An answer of `none` or `false` is an error.
use ubuntu_vm_template_build.Base.{Bool, List, Option}
use ubuntu_vm_template_build.Text.{Text}
use ubuntu_vm_template_build.Offline.Index.{ListEntry}

-- The calls, each with its answer last.
pub data Event : Type 0 where
  ran : Text → List Text → Option Text → Event
  made_dirs : Text → Bool → Event
  wrote_file : Text → Text → Bool → Event
  stated : Text → Option Bool → Event
  listed : Text → Option (List ListEntry) → Event
  read_file : Text → Option Text → Event
  opened : Text → Bool → Event
  created : Text → Bool → Event
  copied : Text → Text → Bool → Event
  closed : Text → Bool → Event

abbrev pub History : Type 0
History = List Event

-- `output` is `CommandRunner.Output`; the others are `os.MkdirAll`, `os.WriteFile`, `os.Stat`, whose
-- answer is whether it is a directory, the listing of a directory with its files' contents,
-- `os.ReadFile`, `os.Open`, `os.OpenFile` for writing, `io.Copy` and `Close`.
pub record Host : Type 0 where
  pub output : History → Text → List Text → Option Text
  pub make_dirs : History → Text → Bool
  pub write_file : History → Text → Text → Bool
  pub stat : History → Text → Option Bool
  pub list_dir : History → Text → Option (List ListEntry)
  pub read_file : History → Text → Option Text
  pub open_file : History → Text → Bool
  pub create_file : History → Text → Bool
  pub copy_data : History → Text → Text → Bool
  pub close_file : History → Text → Bool

-- `crypto/md5` and its companions, in hexadecimal.
pub record Sums : Type 0 where
  pub md5 : Text → Text
  pub sha1 : Text → Text
  pub sha256 : Text → Text
  pub sha512 : Text → Text
