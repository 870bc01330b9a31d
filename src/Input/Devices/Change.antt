-- ===== src/Input/Devices/Change.antt =====
-- src/input/mod.rs: the capabilities that `add_device` and `remove_device` report are those that
-- the seat gains and loses.
use electrum.Prelude.{
  Bool-cases, any, retain, lookup, remove, insert, lookup-insert, remove_absent, unwrap_or, String,
  ◌≡◌, refl, ◌∙◌, subst, inl, inr, Bool, true, false, not, ◌&&◌, ◌||◌, none, some, List, [], ◌∷◌,
  arith, str_eq, eq_iff, eq_refl,
}
use electrum.World.{Capability, keyboard, pointer}
use electrum.Input.Devices.{
  Device, Devices, same_capability, none_has, add_device, remove_device, has_device,
}

abbrev pub lists : List Capability → Capability → Bool
lists caps c = any (λ has. same_capability c has) caps

-- Some device of the seat has the capability.
abbrev pub provides : Devices → Capability → Bool
provides m c = not (none_has m c)

lists-retain :
    (p : Capability → Bool) (caps : List Capability) (c : Capability)
    → lists (retain p caps) c ≡ p c && lists caps c
unfolding retain any
lists-retain p [] c = ground arith
lists-retain p (k ∷ caps) c = ground (arith, lists-retain p caps c)

lists-capabilities :
    (p : Capability → Bool) (c : Capability) → lists (retain p (keyboard ∷ pointer ∷ [])) c ≡ p c
unfolding retain any
lists-capabilities p c = ground arith

provides-insert_new :
    (name : String) (caps : List Capability) (m : Devices) (c : Capability)
    → lookup name m ≡ none
    → provides (insert name caps m) c ≡ lists caps c || provides m c
unfolding insert lookup none_has
provides-insert_new name caps [] c h = ground arith
provides-insert_new name caps (e ∷ m) c h = ground (arith, provides-insert_new name caps m c)

-- Each name stands at most once.
abbrev pub NamesOnce : Devices → Type 0
NamesOnce [] = Unit {0}
NamesOnce (e ∷ m) = (lookup e.0 m ≡ none) × NamesOnce m

provides-remove :
    (name : String) (m : Devices) (c : Capability)
    → NamesOnce m
    → provides m c ≡ lists (unwrap_or (lookup name m) []) c || provides (remove name m) c
unfolding remove lookup none_has any
provides-remove name [] c h = refl
provides-remove name (e ∷ m) c h = elim (Bool-cases (str_eq e.0 name)) [
  | inl here ↦
      let gone : lookup name m ≡ none =
        subst (λ n. lookup n m ≡ none) ((eq_iff e.0 name).0 here) h.0 in
      rw here (rw (remove_absent name m gone) (ground arith))
  | inr other ↦ rw other (ground (arith, provides-remove name m c h.1))
]

remove-insert_new :
    (name : String) (caps : List Capability) (m : Devices)
    → lookup name m ≡ none
    → remove name (insert name caps m) ≡ m
unfolding insert remove lookup
remove-insert_new name caps [] h = ground (arith, eq_refl name)
remove-insert_new name caps (e ∷ m) h = ground (arith, remove-insert_new name caps m)

-- Adding a device that the seat does not know reports exactly the capabilities that the seat gains:
-- those that some device provides afterwards and none did before.
pub add_device-gains :
    (m : Devices) (device : Device) (c : Capability)
    → lookup device.id m ≡ none
    → lists (add_device m device).1 c ≡ provides (add_device m device).0 c && not (provides m c)
unfolding add_device
add_device-gains m device c new =
    let caps = retain device.has_capability (keyboard ∷ pointer ∷ []) in
    rw (lists-retain (none_has m) caps c, provides-insert_new device.id caps m c new) (ground arith)

-- Removing a device reports exactly the capabilities that the seat loses: those that some device
-- provided before and none does afterwards. Of a device that the seat does not know it reports
-- none.
pub remove_device-loses :
    (m : Devices) (device : Device) (c : Capability)
    → NamesOnce m
    → lists (remove_device m device).1 c
      ≡ provides m c && not (provides (remove_device m device).0 c)
unfolding remove_device
remove_device-loses m device c once =
    let rest = remove device.id m in
    let caps = unwrap_or (lookup device.id m) [] in
    rw (lists-retain (none_has rest) caps c, provides-remove device.id m c once) (ground arith)

-- A device that is new to the seat is known after it was added; removing it again restores the
-- seat's devices, reports the same capabilities, and the device is unknown.
pub remove_device-add_device :
    (m : Devices) (device : Device)
    → lookup device.id m ≡ none
    → let (m', gained) = add_device m device in
      (has_device m' device ≡ true)
      × (remove_device m' device ≡ (m, gained))
      × (has_device (remove_device m' device).0 device ≡ false)
unfolding add_device remove_device has_device
remove_device-add_device m device new =
    let caps = retain device.has_capability (keyboard ∷ pointer ∷ []) in
    let found : lookup device.id (insert device.id caps m) ≡ some caps =
      lookup-insert device.id device.id caps m ∙ rw (eq_refl device.id) refl in
    (
      rw (found, has_device),
      rw (remove-insert_new device.id caps m new, found),
      rw (remove-insert_new device.id caps m new, new, has_device),
    )
