-- ===== src/P9/Device.antt =====
-- hw/virtio/9p.c: the registration of a directory for the guest.
use kvmc.Prelude.{
  ℕ, ◌%◌, ◌<◌, List, [], ◌∷◌, Bool, Option, none, some, ltb, not, ◌==◌, if◌then◌else◌, length, take,
  length-take, arith,
}
use kvmc.P9.{Text}
use kvmc.P9.Paths.{path_max}

-- `struct virtio_9p_config`, and what a new `struct p9_dev` gets.
pub record Export : Type 0 where
  pub root_dir : Text
  pub tag_len : ℕ
  pub tag : Text
  pub features : ℕ

-- A value, or a negative error number.
pub data Registered : Type 0 where
  registered : List Export → Registered
  refused_by : ℕ → Registered

-- "kvm_9p"
abbrev pub default_tag : Text
default_tag = 107 ∷ 118 ∷ 109 ∷ 95 ∷ 57 ∷ 112 ∷ []

abbrev pub tag_or_default : Option Text → Text
tag_or_default none = default_tag
tag_or_default (some tag) = tag

-- `virtio_9p__register`; the tests say whether memory is given for the device and its configuration.
-- ENOMEM is 12, EINVAL is 22; MAX_TAG_LEN is 32, and `tag_len` has 16 bits.
unfoldable pub virtio_9p__register : Bool → Bool → Text → Option Text → List Export → Registered
virtio_9p__register memory config_memory root tag_name devs =
    let tag = tag_or_default tag_name in
    let tag_len = length tag % 65536 in
    if not memory
    then refused_by 12
    else (if not config_memory
        then refused_by 12
        else (if ltb 32 tag_len
            then refused_by 22
            else registered (
                record { root_dir = take 4095 root; tag_len = tag_len; tag = tag; features = 0 }
                ∷ devs)))

-- The split of `dirname,tag_name` in `virtio_9p_rootdir_parser`.
unfoldable pub split_comma : Text → Text × Option Text
split_comma [] = ([], none)
split_comma (c ∷ arg) =
    let (dirname, tag_name) = split_comma arg in
    if c == 44 then ([], some arg) else (c ∷ dirname, tag_name)

-- How `virtio_9p_rootdir_parser` ends; `die` ends the process.
pub data Parsed : Type 0 where
  parsed : List Export → Parsed
  died : Parsed

abbrev pub register_or_die : Registered → Parsed
register_or_die (registered devs) = parsed devs
register_or_die (refused_by e) = died

-- `realpath` is the kernel's answer for a name.
unfoldable pub virtio_9p_rootdir_parser :
    (Text → Option Text) → Bool → Bool → Text → List Export → Parsed
virtio_9p_rootdir_parser realpath memory config_memory arg devs =
    let (dirname, tag_name) = split_comma arg in
    elim (realpath dirname) [
      | none ↦ died
      | some tmp ↦ register_or_die (virtio_9p__register memory config_memory tmp tag_name devs)
    ]

-- VIRTIO_9P_MOUNT_TAG is bit 0.
abbrev pub get_host_features : ℕ
get_host_features = 1

-- `host_to_guest_u16` is the change to the guest's byte order; the length is changed at each call.
abbrev pub set_guest_features : (ℕ → ℕ) → Export → ℕ → Export
set_guest_features host_to_guest_u16 dev features = record dev {
  features = features;
  tag_len = host_to_guest_u16 dev.tag_len;
}

-- A registered root directory leaves room for the end of a text in a fid.
pub take-short : (root : Text) → length (take 4095 root) < path_max
take-short root = omega (arith, length-take 4095 root)
