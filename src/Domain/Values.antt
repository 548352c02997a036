-- ===== src/Domain/Values.antt =====
-- config/constants.py, utils/enum_converter.py: the texts of the enumerations, the call of an
-- enumeration on a text, which raises ValueError if no member has it, and the converters with a
-- default.
pub mod Capacity
mod Examples
use aio_ss_usb_test_agent.Prelude.{
  ◌≡◌, refl, Bool, Option, none, some, String, str_eq, List, [], ◌∷◌, if◌then◌else◌,
}
use aio_ss_usb_test_agent.Domain.Enums.{TestCapacity, TestMethod, TestPreset, TestFile, VendorId}

-- An enumeration of texts: its members in order, and the text of each.
pub record StrEnum (A : Type 0) : Type 0 where
  pub members : List A
  pub value : A → String

abbrev find {ℓ} : {A : Type ℓ} → (A → Bool) → List A → Option A
find test [] = none
find test (a ∷ rest_) = let rest = find test rest_ in if test a then some a else rest

-- `.value`
abbrev pub value : {A : Type 0} ⦃e : StrEnum A⦄ → A → String
value ⦃e⦄ = e.value

-- `TestCapacity(text)`; `TestCapacity.from_string` is the same loop over the members.
unfoldable pub of_value : {A : Type 0} ⦃e : StrEnum A⦄ → String → Option A
of_value ⦃e⦄ text = find (λ a. str_eq (e.value a) text) e.members

abbrev capacity_text : TestCapacity → String
capacity_text TestCapacity.gb_1 = "1GB"
capacity_text TestCapacity.gb_4 = "4GB"
capacity_text TestCapacity.gb_32 = "32GB"
capacity_text TestCapacity.gb_64 = "64GB"
capacity_text TestCapacity.gb_128 = "128GB"
capacity_text TestCapacity.gb_256 = "256GB"
capacity_text TestCapacity.gb_512 = "512GB"
capacity_text TestCapacity.tb_1 = "1TB"

instance abbrev pub capacity_enum : StrEnum TestCapacity
capacity_enum = record {
  members =
      TestCapacity.gb_1 ∷ TestCapacity.gb_4 ∷ TestCapacity.gb_32 ∷ TestCapacity.gb_64
      ∷ TestCapacity.gb_128 ∷ TestCapacity.gb_256 ∷ TestCapacity.gb_512 ∷ TestCapacity.tb_1 ∷ [];
  value = capacity_text;
}

abbrev method_text : TestMethod → String
method_text TestMethod.zero_hr = "0HR"
method_text TestMethod.read = "Read"
method_text TestMethod.cycle = "Cycle"

instance abbrev pub method_enum : StrEnum TestMethod
method_enum = record {
  members = TestMethod.zero_hr ∷ TestMethod.read ∷ TestMethod.cycle ∷ [];
  value = method_text;
}

abbrev preset_text : TestPreset → String
preset_text TestPreset.full = "Full"
preset_text TestPreset.hot = "Hot"

instance abbrev pub preset_enum : StrEnum TestPreset
preset_enum = record { members = TestPreset.full ∷ TestPreset.hot ∷ []; value = preset_text }

abbrev file_text : TestFile → String
file_text TestFile.mp3 = "MP3"
file_text TestFile.photo = "Photo"

instance abbrev pub file_enum : StrEnum TestFile
file_enum = record { members = TestFile.mp3 ∷ TestFile.photo ∷ []; value = file_text }

abbrev vendor_text : VendorId → String
vendor_text VendorId.ss = "ss"
vendor_text VendorId.other = "other"

instance abbrev pub vendor_enum : StrEnum VendorId
vendor_enum = record { members = VendorId.ss ∷ VendorId.other ∷ []; value = vendor_text }

-- `to_enum`: the default for a text that no member has.
abbrev pub to_enum : {A : Type 0} ⦃e : StrEnum A⦄ → String → A → A
to_enum text default = elim (of_value text) [ none ↦ default | some a ↦ a ]

unfoldable pub to_capacity : String → TestCapacity
to_capacity text = to_enum text TestCapacity.gb_32

unfoldable pub to_method : String → TestMethod
to_method text = to_enum text TestMethod.zero_hr

unfoldable pub to_preset : String → TestPreset
to_preset text = to_enum text TestPreset.full

unfoldable pub to_file : String → TestFile
to_file text = to_enum text TestFile.photo

pub capacity_roundtrip : (a : TestCapacity) → of_value (value a) ≡ some a
unfolding of_value
capacity_roundtrip TestCapacity.gb_1 = refl
capacity_roundtrip TestCapacity.gb_4 = refl
capacity_roundtrip TestCapacity.gb_32 = refl
capacity_roundtrip TestCapacity.gb_64 = refl
capacity_roundtrip TestCapacity.gb_128 = refl
capacity_roundtrip TestCapacity.gb_256 = refl
capacity_roundtrip TestCapacity.gb_512 = refl
capacity_roundtrip TestCapacity.tb_1 = refl

pub method_roundtrip : (a : TestMethod) → of_value (value a) ≡ some a
unfolding of_value
method_roundtrip TestMethod.zero_hr = refl
method_roundtrip TestMethod.read = refl
method_roundtrip TestMethod.cycle = refl

pub preset_roundtrip : (a : TestPreset) → of_value (value a) ≡ some a
unfolding of_value
preset_roundtrip TestPreset.full = refl
preset_roundtrip TestPreset.hot = refl

pub file_roundtrip : (a : TestFile) → of_value (value a) ≡ some a
unfolding of_value
file_roundtrip TestFile.mp3 = refl
file_roundtrip TestFile.photo = refl

pub vendor_roundtrip : (a : VendorId) → of_value (value a) ≡ some a
unfolding of_value
vendor_roundtrip VendorId.ss = refl
vendor_roundtrip VendorId.other = refl
