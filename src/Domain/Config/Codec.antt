-- ===== src/Domain/Config/Codec.antt =====
-- domain/models/test_config.py: `to_dict` and `from_dict`. A value of a JSON document has its type:
-- where the code would keep a value of another type than the field's, `from_dict` here stops with
-- `mistyped`. Integers are natural numbers, as in `TestConfig`.
use aio_ss_usb_test_agent.Prelude.{
  ℕ, Bool, true, false, if◌then◌else◌, Option, none, some, String, str_eq,
}
use aio_ss_usb_test_agent.Domain.Context.{Time}
use aio_ss_usb_test_agent.Domain.Enums.{TestCapacity, TestMethod}
use aio_ss_usb_test_agent.Domain.Values.{
  StrEnum, value, of_value, capacity_enum, method_enum, preset_enum, file_enum, vendor_enum,
}
use aio_ss_usb_test_agent.Domain.Config.{PreconditionConfig, TestConfig}

-- `time` is the text of a point in time in ISO format.
mutual
  pub data Json : Type 0 where
    null : Json
    bool : Bool → Json
    int : ℕ → Json
    number : ℕ → Json
    text : String → Json
    time : Time → Json
    object : Items → Json

  pub data Items : Type 0 where
    empty : Items
    item : String → Json → Items → Items

infixr 5 ◌⇒◌&◌
abbrev pub ◌⇒◌&◌ : String → Json → Items → Items
k ⇒ v & d = item k v d

-- What ends `from_dict` by an exception.
pub data Failure : Type 0 where
  key_error : String → Failure
  value_error : String → Failure
  attribute_error mistyped : Failure

pub data Parsed {ℓ} (A : Type ℓ) : Type ℓ where
  ok : A → Parsed A
  failed : Failure → Parsed A

infixl 5 ◌>>=◌
abbrev pub ◌>>=◌ {ℓ κ} : {A : Type ℓ} {B : Type κ} → Parsed A → (A → Parsed B) → Parsed B
ok a >>= f = f a
failed e >>= f = failed e

-- data.get(key)
abbrev pub lookup : Items → String → Option Json
lookup empty key = none
lookup (item k v d) key = let rest = lookup d key in if str_eq k key then some v else rest

-- data.get(key, default), for a field of each type
abbrev pub int_or : ℕ → Option Json → Parsed ℕ
int_or default none = ok default
int_or default (some (int n)) = ok n
int_or default (some _) = failed mistyped

abbrev pub number_or : ℕ → Option Json → Parsed ℕ
number_or default none = ok default
number_or default (some (number n)) = ok n
number_or default (some _) = failed mistyped

abbrev pub bool_or : Bool → Option Json → Parsed Bool
bool_or default none = ok default
bool_or default (some (bool b)) = ok b
bool_or default (some _) = failed mistyped

abbrev pub text_or : String → Option Json → Parsed String
text_or default none = ok default
text_or default (some (text t)) = ok t
text_or default (some _) = failed mistyped

-- data[key]
abbrev int_at : String → Option Json → Parsed ℕ
int_at key none = failed (key_error key)
int_at key (some (int n)) = ok n
int_at key (some _) = failed mistyped

abbrev text_at : String → Option Json → Parsed String
text_at key none = failed (key_error key)
text_at key (some (text t)) = ok t
text_at key (some _) = failed mistyped

-- The call of an enumeration.
abbrev member : {A : Type 0} → String → Option A → Parsed A
member t none = failed (value_error t)
member t (some a) = ok a

module _ {A : Type 0} ⦃e : StrEnum A⦄ where
  unfoldable pub enum_or : String → Option Json → Parsed A
  enum_or default j = do t ← text_or default j; member t (of_value t)

  unfoldable pub enum_at : String → Option Json → Parsed A
  enum_at key j = do t ← text_at key j; member t (of_value t)

-- TestCapacity(d["capacity"]) if d.get("capacity") else None
unfoldable pub capacity_if_any : Option Json → Parsed (Option TestCapacity)
capacity_if_any none = ok none
capacity_if_any (some null) = ok none
capacity_if_any (some (text t)) =
    if str_eq t ""
    then ok none
    else (elim (of_value t) [ none ↦ failed (value_error t) | some c ↦ ok (some c) ])
capacity_if_any (some _) = failed mistyped

unfoldable pub id_if_any : Option Json → Parsed (Option String)
id_if_any none = ok none
id_if_any (some null) = ok none
id_if_any (some (text t)) = ok (some t)
id_if_any (some _) = failed mistyped

-- data.get("precondition", {}): `None.get` raises.
unfoldable pub precondition_items : Option Json → Parsed Items
precondition_items none = ok empty
precondition_items (some (object d)) = ok d
precondition_items (some null) = failed attribute_error
precondition_items (some _) = failed mistyped

unfoldable pub parse_precondition : Items → Parsed PreconditionConfig
unfolding enum_or capacity_if_any
parse_precondition d = do
  enabled ← bool_or true (lookup d "enabled")
  method ← enum_or "0HR" (lookup d "method")
  capacity ← capacity_if_any (lookup d "capacity")
  loop_count ← int_or 1 (lookup d "loop_count")
  ok (record { enabled = enabled; method = method; capacity = capacity; loop_count = loop_count })

-- The main test: the nested format of the backend, or the flat one.
pub record MainTest : Type 0 where
  capacity : TestCapacity
  method : TestMethod
  loop_count : ℕ
  loop_step : ℕ

unfoldable pub main_test : String → Items → Parsed MainTest
unfolding enum_or
main_test default_capacity d = do
  capacity ← enum_or default_capacity (lookup d "capacity")
  method ← enum_or "0HR" (lookup d "method")
  loop_count ← int_or 10 (lookup d "loop_count")
  loop_step ← int_or 1 (lookup d "loop_step")
  ok (record {
    capacity = capacity;
    method = method;
    loop_count = loop_count;
    loop_step = loop_step;
  })

-- if test_data: ... else: ...
unfoldable pub parse_main : Items → Option Json → Parsed MainTest
unfolding main_test
parse_main d (some (object (item k v t))) = main_test "4GB" (item k v t)
parse_main d none = main_test "32GB" d
parse_main d (some null) = main_test "32GB" d
parse_main d (some (object empty)) = main_test "32GB" d
parse_main d (some _) = failed mistyped

unfoldable pub from_dict : Time → Items → Parsed TestConfig
unfolding precondition_items parse_precondition parse_main enum_or enum_at id_if_any
from_dict now d = do
  p ← precondition_items (lookup d "precondition")
  precondition ← parse_precondition p
  main ← parse_main d (lookup d "test")
  slot_idx ← int_at "slot_idx" (lookup d "slot_idx")
  jira_no ← text_or "" (lookup d "jira_no")
  sample_no ← text_or "" (lookup d "sample_no")
  drive ← text_at "drive" (lookup d "drive")
  test_preset ← enum_at "test_preset" (lookup d "test_preset")
  test_file ← enum_at "test_file" (lookup d "test_file")
  start_loop ← int_or 0 (lookup d "start_loop")
  batch_enabled ← bool_or true (lookup d "batch_enabled")
  drive_capacity_gb ← number_or 0 (lookup d "drive_capacity_gb")
  hr_enabled ← bool_or true (lookup d "hr_enabled")
  adaptive_vol ← bool_or false (lookup d "adaptive_vol")
  die_count ← int_or 1 (lookup d "die_count")
  vendor_id ← enum_or "ss" (lookup d "vendor_id")
  test_id ← id_if_any (lookup d "test_id")
  test_name ← text_or "USB Test" (lookup d "test_name")
  ok (record {
    slot_idx = slot_idx;
    jira_no = jira_no;
    sample_no = sample_no;
    drive = drive;
    test_preset = test_preset;
    test_file = test_file;
    method = main.method;
    capacity = main.capacity;
    loop_count = main.loop_count;
    test_name = test_name;
    loop_step = main.loop_step;
    start_loop = start_loop;
    batch_enabled = batch_enabled;
    precondition = precondition;
    drive_capacity_gb = drive_capacity_gb;
    hr_enabled = hr_enabled;
    adaptive_vol = adaptive_vol;
    die_count = die_count;
    vendor_id = vendor_id;
    created_at = now;
    test_id = test_id;
  })

unfoldable pub capacity_json : Option TestCapacity → Json
capacity_json none = null
capacity_json (some c) = text (value c)

unfoldable pub id_json : Option String → Json
id_json none = null
id_json (some t) = text t

unfoldable pub to_dict : TestConfig → Items
unfolding capacity_json id_json
to_dict c =
    "slot_idx"
    ⇒ int c.slot_idx & "jira_no"
    ⇒ text c.jira_no & "sample_no"
    ⇒ text c.sample_no & "drive"
    ⇒ text c.drive & "test_preset"
    ⇒ text (value c.test_preset) & "test_file"
    ⇒ text (value c.test_file) & "method"
    ⇒ text (value c.method) & "capacity"
    ⇒ text (value c.capacity) & "loop_count"
    ⇒ int c.loop_count & "loop_step"
    ⇒ int c.loop_step & "start_loop"
    ⇒ int c.start_loop & "batch_enabled"
    ⇒ bool c.batch_enabled & "precondition"
    ⇒ object (
        "enabled"
        ⇒ bool (c.precondition).enabled & "method"
        ⇒ text (value (c.precondition).method) & "capacity"
        ⇒ capacity_json (c.precondition).capacity & "loop_count"
        ⇒ int (c.precondition).loop_count & empty) &
      "drive_capacity_gb"
    ⇒ number c.drive_capacity_gb & "hr_enabled"
    ⇒ bool c.hr_enabled & "adaptive_vol"
    ⇒ bool c.adaptive_vol & "die_count"
    ⇒ int c.die_count & "vendor_id"
    ⇒ text (value c.vendor_id) & "created_at"
    ⇒ time c.created_at & "test_id"
    ⇒ id_json c.test_id & empty
