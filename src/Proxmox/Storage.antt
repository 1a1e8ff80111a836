-- ===== src/Proxmox/Storage.antt =====
-- internal/backend/proxmox/proxmox.go: what the build asks of the storages, and the check of a
-- storage's status against it.
pub mod Checked
mod Tests
use ubuntu_vm_template_build.Base.{
  ℕ, ℤ, pos, negsuc, ◌+◌, ◌-◌, ◌^◌, ◌*◌, ◌%◌, Bool, true, false, not, ◌&&◌, ◌||◌, List, [], ◌∷◌,
  ◌++◌, Option, none, some, ltb, ◌==◌, if◌then◌else◌, is_empty, codes, is_less,
}
use ubuntu_vm_template_build.Text.{Text, trim_space, equal, split, to_lower}
use ubuntu_vm_template_build.Text.Order.{text_less}
use ubuntu_vm_template_build.Proxmox.Config.{is_blank}
use ubuntu_vm_template_build.Proxmox.Client.{
  AnyValue, null, boolean, number, text, other, StorageStatus,
}

-- An `int64` as the 64 bits that hold it.
unfoldable pub signed : ℕ → ℤ
signed n = if ltb n (2 ^ 63) then pos n else negsuc (2 ^ 64 - 1 - n)

unfoldable pub add_wrapped : ℕ → ℕ → ℕ
add_wrapped m n = (m + n) % 2 ^ 64

-- `isJSONFalse`
unfoldable pub is_json_false : AnyValue → Bool
is_json_false null = false
is_json_false (boolean b) = not b
is_json_false (number (pos n) exponent) = n == 0
is_json_false (number (negsuc n) exponent) = false
is_json_false (text v) = equal v (codes "0") || equal (to_lower v) (codes "false")
is_json_false other = false

abbrev pub some_part : List Text → Text → Bool
some_part [] want = false
some_part (part ∷ parts) want = equal (trim_space part) want || some_part parts want

unfoldable pub storage_content_allows : Text → Text → Bool
storage_content_allows content want = some_part (split content b',') want

pub record Requirement : Type 0 where
  pub storage : Text
  pub roles : List Text
  pub required_bytes : ℕ
  pub content_types : List Text

unfoldable pub add_storage_requirement :
    List Requirement → Text → Text → Text → ℕ → List Requirement
add_storage_requirement [] storage role content bytes =
    record {
      storage = storage;
      roles = role ∷ [];
      required_bytes = bytes % 2 ^ 64;
      content_types = content ∷ [];
    }
    ∷ []
add_storage_requirement (req ∷ requirements) storage role content bytes =
    let rest = add_storage_requirement requirements storage role content bytes in
    if equal req.storage storage
    then record req {
      roles = req.roles ++ role ∷ [];
      required_bytes = add_wrapped req.required_bytes bytes;
      content_types = req.content_types ++ content ∷ [];
    }
      ∷ requirements
    else req ∷ rest

-- The requirements by the names of their storages, as `sort.Strings` orders them.
unfoldable pub insert_requirement : Requirement → List Requirement → List Requirement
insert_requirement req [] = req ∷ []
insert_requirement req (first ∷ sorted) =
    let rest = insert_requirement req sorted in
    if text_less first.storage req.storage then first ∷ rest else req ∷ first ∷ sorted

unfoldable pub sort_requirements : List Requirement → List Requirement
sort_requirements [] = []
sort_requirements (req ∷ requirements) = insert_requirement req (sort_requirements requirements)

pub data StorageError : Type 0 where
  not_active not_enabled content_unavailable : StorageError
  content_refused : Text → StorageError
  capacity_unavailable insufficient_capacity : StorageError

-- The loop over the content types.
unfoldable pub check_contents : Text → List Text → Option StorageError
check_contents content [] = none
check_contents content (want ∷ wants) =
    let rest = check_contents content wants in
    if storage_content_allows content want then rest else some (content_refused want)

unfoldable pub check_capacity : Requirement → StorageStatus → Option StorageError
check_capacity req status =
    if not status.avail.is_set
    then some capacity_unavailable
    else if is_less status.avail.value (signed req.required_bytes)
    then some insufficient_capacity
    else none

abbrev pub first_error : Option StorageError → Option StorageError → Option StorageError
first_error none next = next
first_error (some e) next = some e

unfoldable pub validate_storage_status : Requirement → StorageStatus → Option StorageError
validate_storage_status req status =
    if is_json_false status.active
    then some not_active
    else if is_json_false status.enabled
    then some not_enabled
    else if is_blank status.content
    then some content_unavailable
    else first_error (check_contents status.content req.content_types) (check_capacity req status)

abbrev pub cloud_init_disk_bytes : ℕ
cloud_init_disk_bytes = 4 * 1024 * 1024

-- The requirements of a build: for the ISO, for the disk, and for the Cloud-Init disk if it is on.
unfoldable pub build_requirements : Text → Text → ℕ → ℕ → Bool → List Requirement
build_requirements iso_storage disk_storage iso_bytes disk_bytes cloud_init =
    let iso = add_storage_requirement [] iso_storage (codes "ISO") (codes "iso") iso_bytes in
    let disk =
      add_storage_requirement iso disk_storage (codes "disk") (codes "images") disk_bytes in
    if cloud_init
    then add_storage_requirement disk disk_storage (codes "cloud-init") (codes "images")
        cloud_init_disk_bytes
    else disk
