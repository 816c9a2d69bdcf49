-- ===== src/Mavlink.antt =====
-- src/mavlink.hpp and src/mavlink.cpp. The MAVLink C library is a parameter: its tables of messages
-- by ID and by name, the places of the target fields, and its test of the signature flag.
use mavtables.Prelude.{ℕ, ◌%◌, ◌^◌, Bool, Option, none, some, Bytes}
use mavtables.Prelude.Exception.{Result, ok, err, invalid_argument}

pub record MessageInfo : Type 0 where
  pub name : Bytes
  pub msgid : ℕ

-- `mavlink_msg_entry_t`, each of the two flags as a truth value.
pub record MessageEntry : Type 0 where
  pub have_target_system : Bool
  pub target_system_ofs : ℕ
  pub have_target_component : Bool
  pub target_component_ofs : ℕ

pub record Library : Type 0 where
  -- `mavlink_get_message_info_by_id`, with `none` for a null pointer; so for the next two.
  pub message_info_by_id : ℕ → Option MessageInfo
  pub message_info_by_name : Bytes → Option MessageInfo
  pub msg_entry : ℕ → Option MessageEntry
  -- `incompat_flags & MAVLINK_IFLAG_SIGNED`
  pub has_signature : ℕ → Bool

module _ (lib : Library) where
  unfoldable pub name : ℕ → Result Bytes
  name id = elim (lib.message_info_by_id (id % 2 ^ 32)) [
    | some info ↦ ok info.name
    | none ↦ err invalid_argument
  ]

  unfoldable pub id : Bytes → Result ℕ
  id name = elim (lib.message_info_by_name name) [
    | some info ↦ ok info.msgid
    | none ↦ err invalid_argument
  ]
