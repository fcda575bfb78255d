-- ===== src/Device/Connected.antt =====
-- When `isAndroidDeviceConnected` finds a device.
use adbncfs.Prelude.{
  ◌<◌, ◌≡◌, refl, sym, ap, ◌∙◌, ◌≢◌, some, List, [], ◌∷◌, ◌++◌, append_assoc, arith, lt→ltb,
  if◌then◌else◌, length, take, is_empty, length-append, All, Text, codes, text_eq_iff,
}
use adbncfs.Prelude.Int.{pos}
use adbncfs.Device.{last_but_one, device_result}

-- A line that does not begin as the header does.
abbrev pub IsDevice : Text → Type 0
IsDevice line = take 8 line ≢ codes "List of "

last_but_one-append : (xs : List Text) (a b : Text) → last_but_one (xs ++ a ∷ b ∷ []) ≡ some a
unfolding last_but_one
last_but_one-append [] a b = refl
last_but_one-append (x ∷ []) a b = refl
last_but_one-append (x ∷ y ∷ []) a b = refl
last_but_one-append (x ∷ y ∷ z ∷ xs) a b = last_but_one-append (y ∷ z ∷ xs) a b

device_found :
    (xs : List Text) (device blank : Text)
    → 0 < length xs
    → IsDevice device
    → device_result (xs ++ device ∷ blank ∷ [], pos 0) ≡ pos 0
unfolding device_result
device_found xs device blank n h = rw (last_but_one-append xs device blank) (
    ground (
      arith,
      length-append xs (device ∷ blank ∷ []),
      text_eq_iff (take 8 device) (codes "List of "),
      lt→ltb 2 (length (xs ++ device ∷ blank ∷ [])),
    ))

devices_found :
    (xs : List Text) (device : Text) (ds : List Text) (blank : Text)
    → 0 < length xs
    → All IsDevice (device ∷ ds)
    → device_result (xs ++ device ∷ (ds ++ blank ∷ []), pos 0) ≡ pos 0
devices_found xs device [] blank n h = device_found xs device blank n h.0
devices_found xs device (d ∷ ds) blank n h =
    ap (λ l. device_result (l, pos 0))
      (sym (append_assoc xs (device ∷ []) (d ∷ (ds ++ blank ∷ []))))
    ∙ devices_found (xs ++ device ∷ []) d ds blank (omega (arith, length-append xs (device ∷ [])))
        h.1

-- From what `adb devices` prints, which is a header, a line for each device and a last line, the
-- result is 0 if there is a device and 1 if there is none.
pub device_result-devices :
    (header blank : Text) (devices : List Text)
    → All IsDevice devices
    → device_result (header ∷ devices ++ blank ∷ [], pos 0)
      ≡ (if is_empty devices then pos 1 else pos 0)
unfolding device_result
device_result-devices header blank [] h = refl
device_result-devices header blank (d ∷ ds) h =
    devices_found (header ∷ []) d ds blank (omega arith) h
