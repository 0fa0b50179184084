-- ===== src/Pci/Lookup.antt =====
-- `ParseDevPciAdr` and `LookupPciDevice`.
use libdrm.Base.{
  ℕ, zero, suc, ◌-◌, ◌%◌, ◌^◌, ◌==◌, Bool, ◌&&◌, not, Option, none, some, List, [], ◌∷◌,
  if◌then◌else◌, leb, add32, length, get_or,
}
use libdrm.AsicId.Text.{strtol}
use libdrm.AsicId.Parse.{is_empty}
use libdrm.Bo.State.{Answer, done, refused}

-- The fields of `pci_info` that are used.
pub record PciInfo : Type 0 where
  pub bus : ℕ
  pub device : ℕ
  pub function : ℕ
  pub vendor_id : ℕ
  pub device_id : ℕ

-- Two characters that are read to their end, as a uint8.
unfoldable pub part : List ℕ → (at : ℕ) → Option ℕ
part name at =
    let (value, end) = strtol (get_or name at 0 ∷ get_or name (suc at) 0 ∷ []) in
    if is_empty end then some (value % 2 ^ 8) else none

-- The bus and the device. The function is read into a parameter that the caller does not see.
unfoldable pub parse_dev_pci_adr : List ℕ → Option (ℕ × ℕ)
unfolding part
parse_dev_pci_adr name =
    let len = length name in
    let function = part name (len - 2) in
    if leb len 7
    then none
    else if not (get_or name (len - 7) 0 == 95)
    then none
    else elim (part name (len - 6)) [
      | none ↦ none
      | some bus ↦ elim (part name (len - 4)) [
        | none ↦ none
        | some device ↦ elim function [ none ↦ none | some f ↦ some (bus, device) ]
      ]
    ]

abbrev pub is_at : (bus device function : ℕ) → PciInfo → Bool
is_at bus device function info =
    (info.bus == bus) && ((info.device == device) && (info.function == function))

-- GetNthPciInfo.
abbrev pub Poke : Type 0
Poke = ℕ → Answer PciInfo

-- The loop from `index` on; `none` if it is still going after `fuel` rounds.
unfoldable pub lookup_pci_device :
    Poke → (bus device function : ℕ) → (fuel index : ℕ) → Option (Answer PciInfo)
lookup_pci_device poke bus device function zero index = none
lookup_pci_device poke bus device function (suc fuel) index =
    let rest = lookup_pci_device poke bus device function fuel (add32 index 1) in
    elim (poke index) [
      | refused e ↦ some (refused e)
      | done info ↦ if is_at bus device function info then some (done info) else rest
    ]
