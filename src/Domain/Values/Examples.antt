-- ===== src/Domain/Values/Examples.antt =====
-- Texts and sizes at work.
use aio_ss_usb_test_agent.Prelude.{◌≡◌, ◌≤◌, refl, arith}
use aio_ss_usb_test_agent.Domain.Enums.{TestCapacity}
use aio_ss_usb_test_agent.Domain.Values.{of_value, to_capacity, capacity_enum, method_enum}
use aio_ss_usb_test_agent.Domain.Values.Capacity.{
  from_drive_capacity, distance, to_gb, from_drive_capacity-nearest,
}

unknown_text : to_capacity "2TB" ≡ TestCapacity.gb_32
unfolding to_capacity of_value
unknown_text = refl

-- The two sizes of the code's documentation.
a_64 : from_drive_capacity 59700 ≡ TestCapacity.gb_64
unfolding from_drive_capacity
a_64 = refl

a_128 : from_drive_capacity 100000 ≡ TestCapacity.gb_128
unfolding from_drive_capacity
a_128 = refl

from_drive_capacity-nearest_example :
    distance 59700 (to_gb (from_drive_capacity 59700)) ≤ distance 59700 (to_gb TestCapacity.gb_32)
from_drive_capacity-nearest_example =
    from_drive_capacity-nearest 59700 TestCapacity.gb_32 (omega arith)
