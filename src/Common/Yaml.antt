-- ===== src/Common/Yaml.antt =====
-- internal/common/common.go: the trees of YAML nodes that the user data is decoded into, and what
-- the code reads and sets in them. A node that the code changes in place is a new node here.
pub mod Mapping
use ubuntu_vm_template_build.Base.{
  Bool, true, false, Option, none, some, if◌then◌else◌, Result, ok, err, codes,
}
use ubuntu_vm_template_build.Text.{
  Text, equal, to_lower, trim_space, trim_left_by, has_prefix, mem_char,
}
use ubuntu_vm_template_build.Base.{◌++◌, []}

pub data Kind : Type 0 where
  document sequence mapping scalar alias : Kind

-- `yaml.Node`: kind, tag, value and content.
mutual
  pub data Node : Type 0 where
    node : Kind → Text → Text → Nodes → Node

  pub data Nodes : Type 0 where
    nil : Nodes
    cons : Node → Nodes → Nodes

abbrev pub kind_of : Node → Kind
kind_of (node kind tag value content) = kind

abbrev pub value_of : Node → Text
value_of (node kind tag value content) = value

abbrev pub content_of : Node → Nodes
content_of (node kind tag value content) = content

abbrev pub with_content : Node → Nodes → Node
with_content (node kind tag value content) new = node kind tag value new

unfoldable pub joined : Nodes → Nodes → Nodes
joined nil ys = ys
joined (cons x xs) ys = cons x (joined xs ys)

abbrev pub is_mapping : Kind → Bool
is_mapping mapping = true
is_mapping other = false

abbrev pub is_sequence : Kind → Bool
is_sequence sequence = true
is_sequence other = false

abbrev pub is_scalar : Kind → Bool
is_scalar scalar = true
is_scalar other = false

abbrev pub is_document : Kind → Bool
is_document document = true
is_document other = false

-- `&yaml.Node{Kind: yaml.ScalarNode, Tag: "!!str", Value: value}`
abbrev pub text_node : Text → Node
text_node value = node scalar (codes "!!str") value nil

-- The loop of `MappingValue` over the pairs.
unfoldable pub value_in : Nodes → Text → Option Node
value_in nil key = none
value_in (cons k nil) key = none
value_in (cons k (cons v rest)) key =
    let later = value_in rest key in if equal (value_of k) key then some v else later

unfoldable pub mapping_value : Node → Text → Option Node
mapping_value n key = if is_mapping (kind_of n) then value_in (content_of n) key else none

-- The content with another value at the key; behind all others if the key is not there.
unfoldable pub put_in : Nodes → Text → Node → Nodes
put_in nil key new = cons (text_node key) (cons new nil)
put_in (cons k nil) key new = cons k (cons (text_node key) (cons new nil))
put_in (cons k (cons v rest)) key new =
    let later = put_in rest key new in
    if equal (value_of k) key then cons k (cons new rest) else cons k (cons v later)

abbrev pub put : Node → Text → Node → Node
put n key new = with_content n (put_in (content_of n) key new)

-- `SetMappingScalar`
unfoldable pub set_mapping_scalar : Node → Text → Text → Node
unfolding put_in
set_mapping_scalar n key value = put n key (text_node value)

abbrev pub lowered_value : Option Node → Text
lowered_value none = []
lowered_value (some n) = if is_scalar (kind_of n) then to_lower (trim_space (value_of n)) else []

unfoldable pub mapping_scalar_value : Node → Text → Text
unfolding mapping_value
mapping_scalar_value n key = lowered_value (mapping_value n key)

pub data YamlError : Type 0 where
  not_parsed empty_document no_top_mapping no_autoinstall : YamlError

-- The node in a document.
unfoldable pub top_of : Node → Result YamlError Node
top_of (node document tag value nil) = err empty_document
top_of (node document tag value (cons top rest)) = ok top
top_of (node kind tag value content) = ok (node kind tag value content)

abbrev pub mapping_or : YamlError → Option Node → Result YamlError Node
mapping_or e none = err e
mapping_or e (some n) = if is_mapping (kind_of n) then ok n else err e

unfoldable pub autoinstall_in : Result YamlError Node → Result YamlError Node
unfolding mapping_value
autoinstall_in (err e) = err e
autoinstall_in (ok top) =
    if is_mapping (kind_of top)
    then mapping_or no_autoinstall (mapping_value top (codes "autoinstall"))
    else err no_top_mapping

-- `AutoinstallMappingFromRoot`
unfoldable pub autoinstall_mapping_from_root : Node → Result YamlError Node
unfolding top_of autoinstall_in
autoinstall_mapping_from_root root = autoinstall_in (top_of root)

-- The root with another mapping for autoinstall.
unfoldable pub with_autoinstall : Node → Node → Node
unfolding put_in
with_autoinstall (node document tag value nil) new = node document tag value nil
with_autoinstall (node document tag value (cons top rest)) new =
    node document tag value (cons (put top (codes "autoinstall") new) rest)
with_autoinstall (node kind tag value content) new =
    put (node kind tag value content) (codes "autoinstall") new

unfoldable pub ensure_cloud_config_header : Text → Text
ensure_cloud_config_header document_text =
    if has_prefix (trim_left_by (λ c. mem_char c (codes " \t\r\n")) document_text)
      (codes "#cloud-config")
    then document_text
    else codes "#cloud-config\n" ++ document_text
