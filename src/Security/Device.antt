-- ===== src/Security/Device.antt =====
-- `DeviceDescriptor` and the trait `DeviceDescriptorLookup` of src/mac/frame/security/mod.rs. The
-- trait is implemented by the user of the crate, so it is a record of functions over a store.
use rust_ieee.Base.{ℕ, ◌≡◌, refl, Bool, Option, none, some}
use rust_ieee.Address.{Address}
use rust_ieee.Security.Context.{AddressingMode}

pub record DeviceDescriptor : Type 0 where
  pub frame_counter : ℕ
  pub exempt : Bool

-- `lookup_device` takes the store by `&mut` and returns a reference into it: the store afterwards and
-- the descriptor referred to. `assign` is what an assignment through that reference leaves of the
-- store. A later lookup of the address finds what was found, or what was assigned.
pub record DeviceDescriptorLookup : Type 1 where
  pub Store : Type 0
  pub lookup_device : AddressingMode → Address → Store → Store × Option DeviceDescriptor
  pub assign : AddressingMode → Address → DeviceDescriptor → Store → Store
  pub lookup_again :
      (mode : AddressingMode) (address : Address) (s : Store)
      → (lookup_device mode address (lookup_device mode address s).0).1
        ≡ (lookup_device mode address s).1
  pub lookup_assign :
      (mode : AddressingMode) (address : Address) (s : Store) (old new : DeviceDescriptor)
      → (lookup_device mode address s).1 ≡ some old
      → (lookup_device mode address (assign mode address new (lookup_device mode address s).0)).1
        ≡ some new

-- `DeviceDescriptorLookup` for `Unimplemented` of src/mac/frame/security/default.rs: no device is
-- found.
pub unimplemented_absent :
    (old new : DeviceDescriptor)
    → ◌≡◌ {A = Option DeviceDescriptor} none (some old)
    → ◌≡◌ {A = Option DeviceDescriptor} none (some new)
unimplemented_absent old new e = cc

abbrev pub unimplemented_devices : DeviceDescriptorLookup
unimplemented_devices = record {
  Store = Unit {0};
  lookup_device = λ mode address s. (s, none);
  assign = λ mode address new s. s;
  lookup_again = λ mode address s. refl;
  lookup_assign = λ mode address s old new e. unimplemented_absent old new e;
}
