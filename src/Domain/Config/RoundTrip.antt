-- ===== src/Domain/Config/RoundTrip.antt =====
-- domain/models/test_config.py: what `from_dict` reads of the dictionary that `to_dict` writes.
use aio_ss_usb_test_agent.Prelude.{◌≡◌, refl, false, Option, none, some, String, str_eq}
use aio_ss_usb_test_agent.Domain.Context.{Time}
use aio_ss_usb_test_agent.Domain.Enums.{TestCapacity}
use aio_ss_usb_test_agent.Domain.Values.{
  value, capacity_enum, method_enum, preset_enum, file_enum, vendor_enum, capacity_roundtrip,
  method_roundtrip, preset_roundtrip, file_roundtrip, vendor_roundtrip,
}
use aio_ss_usb_test_agent.Domain.Config.{TestConfig}
use aio_ss_usb_test_agent.Domain.Config.Codec.{
  ok, from_dict, to_dict, capacity_if_any, capacity_json, id_if_any, id_json, parse_precondition,
  parse_main, main_test, precondition_items, enum_or, enum_at,
}

id_if_any-id_json : (t : Option String) → id_if_any (some (id_json t)) ≡ ok t
unfolding id_if_any id_json
id_if_any-id_json none = refl
id_if_any-id_json (some t) = refl

capacity_is_some : (c : TestCapacity) → str_eq (value c) "" ≡ false
capacity_is_some TestCapacity.gb_1 = refl
capacity_is_some TestCapacity.gb_4 = refl
capacity_is_some TestCapacity.gb_32 = refl
capacity_is_some TestCapacity.gb_64 = refl
capacity_is_some TestCapacity.gb_128 = refl
capacity_is_some TestCapacity.gb_256 = refl
capacity_is_some TestCapacity.gb_512 = refl
capacity_is_some TestCapacity.tb_1 = refl

capacity_if_any-capacity_json :
    (c : Option TestCapacity) → capacity_if_any (some (capacity_json c)) ≡ ok c
unfolding capacity_if_any capacity_json
capacity_if_any-capacity_json none = refl
capacity_if_any-capacity_json (some c) = rw (capacity_is_some, capacity_roundtrip)

-- Reading the dictionary that a configuration was written as gives that configuration, save that its
-- name is the default one and that its creation is now.
pub from_dict-to_dict :
    (now : Time) (c : TestConfig)
    → from_dict now (to_dict c) ≡ ok (record c { test_name = "USB Test"; created_at = now })
unfolding from_dict to_dict parse_precondition parse_main main_test precondition_items enum_or
    enum_at
from_dict-to_dict now c = rw (
  capacity_if_any-capacity_json,
  id_if_any-id_json,
  capacity_roundtrip c.capacity,
  method_roundtrip c.method,
  method_roundtrip (c.precondition).method,
  preset_roundtrip c.test_preset,
  file_roundtrip c.test_file,
  vendor_roundtrip c.vendor_id,
)
