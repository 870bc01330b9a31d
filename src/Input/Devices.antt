-- ===== src/Input/Devices.antt =====
-- src/input/mod.rs: the devices of a seat and their capabilities.
pub mod Change
use electrum.Prelude.{
  any, retain, lookup, remove, insert, unwrap_or, String, Bool, true, false, not, ◌&&◌, none, some,
  List, [], ◌∷◌,
}
use electrum.World.{Capability, keyboard, pointer}

-- What the code asks of a `Device`.
pub record Device : Type 0 where
  pub id : String
  pub has_capability : Capability → Bool

-- `Devices`
abbrev pub Devices : Type 0
Devices = List (String × List Capability)

abbrev pub same_capability : Capability → Capability → Bool
same_capability keyboard keyboard = true
same_capability pointer pointer = true
same_capability _ _ = false

-- `map.values().flatten().all(|has| *c != *has)`
pub none_has : Devices → Capability → Bool
none_has [] c = true
none_has ((id, caps) ∷ m) c = not (any (λ has. same_capability c has) caps) && none_has m c

abbrev capabilities : List Capability
capabilities = keyboard ∷ pointer ∷ []

-- `Devices::add_device`
pub add_device : Devices → Device → Devices × List Capability
add_device m device =
    let caps = retain device.has_capability capabilities in
    (insert device.id caps m, retain (none_has m) caps)

-- `Devices::remove_device`
pub remove_device : Devices → Device → Devices × List Capability
remove_device m device =
    let rest = remove device.id m in
    (rest, retain (none_has rest) (unwrap_or (lookup device.id m) []))

-- `Devices::has_device`
pub has_device : Devices → Device → Bool
has_device m device = elim (lookup device.id m) [ none ↦ false | some _ ↦ true ]
