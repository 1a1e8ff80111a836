-- ===== src/Lib.antt =====
-- Verification library of ubuntu-vm-template-builder.
--
-- The program builds Ubuntu images. The command line (main.go) reads a hardware configuration and the
-- user data (internal/common/common.go), and hands them to one of three back ends: QEMU on this
-- machine (internal/backend/qemu), vCenter (internal/backend/vcenter), Proxmox
-- (internal/backend/proxmox). A back end puts together an installer ISO (internal/seediso,
-- internal/isoutil) with a package repository in it (internal/offlineapt), boots a virtual machine
-- from it, shows the console through a writer that squeezes it (internal/qemulog/qemulog.go), and
-- leaves the machine or turns it into a template.
--
-- Base: names of the libraries that all modules share, Boolean tests on the native numbers, lists,
--   results, Go's `int`.
-- Text: what the code uses of the package strings; Text.Trim, Text.Search, Text.Occurs and Text.Split
--   hold its lemmas. A text is the list of its code points. Cases are folded in ASCII, as all the
--   words have it that the code compares texts with. Text.Order is sort.Strings, Text.Path
--   filepath.Clean, Join, Base and Dir.
-- Decimal: strconv.Itoa, and strconv.ParseInt where a negative number is refused. The fuel of Itoa is
--   one more than the number; each round divides the number by ten.
-- Steps: code that calls what lies outside, as steps that take the history of calls and return a
--   result or an error with the history then; an answer is a function of the history. Steps.Triple
--   has the rules for what holds before and after.
-- Qemulog: internal/qemulog/qemulog.go. Qemulog.Sanitize has skipCSI, skipOSC, skipEscape and
--   sanitizeLine over indices, whose fuel is the length of the line and one, since every round moves
--   the index on; Sanitize.Machine has an automaton to compare it with. Qemulog.Writer has
--   CompactingWriter, NewCompactingWriter, Write and Flush over an output that may refuse a write.
-- Common: internal/common/common.go. Common.DiskSize has ParseDiskSize, Common.Names SafeName,
--   Common.Hardware the configuration with DefaultHardwareConfig, Normalize and the functions that
--   it calls, Common.Hardware.Validate has Validate. Common.Yaml is the tree of YAML nodes with
--   MappingValue, SetMappingScalar and AutoinstallMappingFromRoot, Common.Uefi the check of
--   ValidateUEFIPortableUserData.
-- Offline: internal/offlineapt/offlineapt.go. Offline.Quote is shellQuote and commandString,
--   Offline.Config the configuration, Offline.Install InstallConfig, InstallLateCommands and
--   WriteInstallConfigDir, Offline.Uris parsePackageURIs and packageURIPath, Offline.Index the
--   paragraphs of the package indexes and selectedPackageIndexRecords, Offline.Codename
--   DetectISOCodename and BuildRepositoryWithRunner. Offline.Build is buildRepositoryWithCodename
--   over a host (Offline.Host), with ValidateRepository in Build.Files and
--   writeTrimmedRepositoryMetadata and writeReleaseFile in Build.Metadata.
-- Seed: internal/seediso/seediso.go. Seed.Boot is PatchBootConfig with the functions that it calls,
--   Seed.UserData is TransformUserDataWithOptions on the tree of the user data.
-- Qemu: internal/backend/qemu. Qemu.Detector is installerFailureDetector of qemu.go, without its mutex.
-- Vcenter: internal/backend/vcenter. Vcenter.Console is console.go: Tail and what it calls, poll, run
--   and finish, over a server that answers by what was asked before. Console.Server is one that has
--   a log which grows from one request to the next.
-- Proxmox: internal/backend/proxmox. Proxmox.Values is url.Values with one value for a key.
--   Proxmox.Options and Proxmox.CloudInit are options.go: the records, Normalize and Validate, the
--   values in Options.Parts, Options.Build and CloudInit.Build, CloudInit.Escape for
--   encodeProxmoxURLValue. Proxmox.Disk, Proxmox.Config, Proxmox.Vm and Proxmox.Storage are the
--   functions of proxmox.go that compute: proxmoxDiskAllocationGiB and its companions,
--   validateConnectionFields, BuildCreateVMValues, BuildFinalizeVMValues, the requirements and the
--   check of the storages. Proxmox.Client is the interface `api` of client.go.
-- Proxmox.Install: installWithClient of proxmox.go. A step takes the history of calls and the build
--   state, and returns a result or an error with both as they are then. A server is any function
--   from the history to an answer, and an interrupt any function from the history to a Boolean, so
--   that the answers may change and the interrupt come between any two calls. Install.Prepare has
--   the checks before the upload, Install.Iso the temporary ISO, Install.Machine the VM, Install.Run
--   the body and its deferred cleanup. Install.Triple has the rules for steps with what holds before
--   and after. The wait for the power-off is bounded by a number of polls; Install.Polling says which
--   number is enough.
--
-- Errors are the constructors that name them, without the texts of their messages, save in
-- Vcenter.Console, which reads them. Printing, the decoding and encoding of YAML and JSON, the parsing
-- of URLs, the hash functions, the file system, processes and the network are not modelled; where the
-- code reads them, they are arguments. Not modelled either are the shell scripts of the seed ISO,
-- the opening of ISO files and their mappings, the checks for installed programs, the rest of the
-- vCenter and of the QEMU back end, the test driver and the command line. The console stream of the
-- Proxmox build runs beside the wait for the power-off, only reads, and is left out.
pub mod Base
pub mod Common
pub mod Decimal
pub mod Offline
pub mod Proxmox
pub mod Qemu
pub mod Qemulog
pub mod Seed
pub mod Steps
pub mod Text
pub mod Vcenter
