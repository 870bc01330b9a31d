-- ===== src/Tests/Devices.antt =====
-- src/input/mod.rs: devices of a seat, at concrete ones.
use electrum.Prelude.{lookup, ◌≡◌, refl, true, false, not, ◌&&◌, [], ◌∷◌}
use electrum.World.{keyboard, pointer}
use electrum.Input.Devices.{Device, Devices, add_device, remove_device, has_device}
use electrum.Input.Devices.Change.{
  lists, provides, add_device-gains, remove_device-loses, remove_device-add_device,
}

-- A keyboard with a pointing stick.
abbrev stick : Device
stick = record { id = "stick"; has_capability = λ c. true }

abbrev keys : Devices
keys = ("keys", keyboard ∷ []) ∷ []

abbrev keys_and_stick : Devices
keys_and_stick = ("keys", keyboard ∷ []) ∷ ("stick", keyboard ∷ pointer ∷ []) ∷ []

add_device-gains_example :
    lists (add_device keys stick).1 pointer
    ≡ provides (add_device keys stick).0 pointer && not (provides keys pointer)
unfolding lookup
add_device-gains_example = add_device-gains keys stick pointer refl

remove_device-loses_example :
    lists (remove_device keys_and_stick stick).1 pointer
    ≡ provides keys_and_stick pointer
      && not (provides (remove_device keys_and_stick stick).0 pointer)
unfolding lookup
remove_device-loses_example = remove_device-loses keys_and_stick stick pointer (refl, (refl, tt))

remove_device-add_device_example :
    let (m', gained) = add_device keys stick in
    (has_device m' stick ≡ true)
    × (remove_device m' stick ≡ (keys, gained))
    × (has_device (remove_device m' stick).0 stick ≡ false)
unfolding lookup
remove_device-add_device_example = remove_device-add_device keys stick refl
