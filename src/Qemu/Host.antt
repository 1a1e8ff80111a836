-- ===== src/Qemu/Host.antt =====
-- internal/backend/qemu/qemu.go: what an installation calls, with its answers in a history, and QEMU as
-- a process: it ends by itself or by a signal, with what it has written and its status.
use ubuntu_vm_template_build.Base.{ℕ, Bool, List, Option, Bytes, Result}
use ubuntu_vm_template_build.Text.{Text}
use ubuntu_vm_template_build.Common.Yaml.{Node}
use ubuntu_vm_template_build.Offline.Host
use ubuntu_vm_template_build.Offline.Host.{Sums}
use ubuntu_vm_template_build.Offline.Build.{Urls}
use ubuntu_vm_template_build.Offline.Build.Files.{BuildError}
use ubuntu_vm_template_build.Offline.Install.{Repository}

-- Calls that answer with an error or with nothing else that the code reads.
pub data Action : Type 0 where
  make_dirs : Text → Action
  write_file : Text → Text → Action
  run_xorriso : List Text → Action
  open_iso : Text → Action
  open_iso_file : Text → Text → Action
  create_seed_image : Text → ℕ → Action
  create_seed_filesystem : Text → Action
  open_seed_file : Text → Action
  write_seed_file : Text → Text → Action
  close_seed_file : Text → Action
  finalize_seed : Action
  create_image : Text → Action
  truncate_image : Text → ℕ → Action
  run_qemu_img : List Text → Action
  open_file : Text → Action
  create_file : Text → Action
  copy_data : Text → Text → Action
  close_file : Text → Action
  start_qemu : List Text → Action
  remove_all : Text → Action

-- The two signals that are listened to, and those that are sent.
pub data Signal : Type 0 where
  interrupt terminate : Signal

pub data SentSignal : Type 0 where
  sigint sigterm sigkill : SentSignal

-- `ESRCH`, or another error.
pub data KillError : Type 0 where
  no_such_process : KillError
  not_sent : Text → KillError

pub data Stream : Type 0 where
  stdout stderr : Stream

-- What the process has written, piece by piece, and the error of its status.
pub record Exit : Type 0 where
  pub pieces : List (Stream × Text)
  pub status : Option Text

-- What the first `select` takes, and what the second takes.
pub data First : Type 0 where
  ended : Exit → First
  received : Signal → First

pub data Second : Type 0 where
  ended_in_time : Exit → Second
  received_again : Signal → Second
  timed_out : Second

-- The newest event first; the repository is built with a history of its own.
pub data Event : Type 0 where
  did : Action → Option Text → Event
  made_temp : Result Text Text → Event
  stated : Text → Bool → Event
  read_iso : Text → Text → Result Text Text → Event
  built_repository : Result BuildError Repository × Host.History → Event
  selected : First → Event
  selected_then : Second → Event
  sent : SentSignal → Option KillError → Event
  ended_at_last : Exit → Event

-- `perform` answers an action with its error. `is_regular` is `os.Stat`, `read_iso_file` the reading of
-- a file of an ISO, `script` an embedded script. `write_out` is the answer of the program's own standard output or error to a piece, after what has
-- been written to it. YAML is decoded and encoded by two functions.
pub record QemuHost : Type 0 where
  pub perform : List Event → Action → Option Text
  pub make_temp : List Event → Result Text Text
  pub is_regular : List Event → Text → Bool
  pub read_iso_file : List Event → Text → Text → Result Text Text
  pub script : Text → Text
  pub apt : List Event → Host.Host
  pub urls : Urls
  pub sums : Sums
  pub dists : List Event → Option (List (Text × Option Text))
  pub decode : Text → Option Node
  pub encode : Node → Option Text
  pub first : List Event → First
  pub second : List Event → Second
  pub last : List Event → Exit
  pub kill : List Event → SentSignal → Option KillError
  pub write_out : Stream → List Bytes → Bytes → Option Text
