-- ===== src/Offline/Config/Defects/Truthful.antt =====
-- internal/offlineapt/offlineapt.go: the check of the configuration returns an error exactly if the
-- configuration has a defect.
use ubuntu_vm_template_build.Text.{Text}
use ubuntu_vm_template_build.Offline.Config.{Config}
