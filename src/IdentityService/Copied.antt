-- ===== src/IdentityService/Copied.antt =====
-- A configuration stays valid when its texts are copied to new buffers.
use typxen.Base.{◌≡◌, refl, ◌∙◌, Bool, true, false, arith}
use typxen.Identity.Types.{Config, valid}
use typxen.Identity.Text.{text_valid, advertising_fits}
use typxen.Identity.Config.{validate_battery, validate_texts, validate}
use typxen.Identity.Valid.{both_valid, validate-parts}
use typxen.Identity.Updating.{chain}
use typxen.IdentityService.Texts.{copied_config, copied-text_valid, copied-advertising_fits}

chain_all :
    (name fits manufacturer model serial hardware software : Bool)
    → chain name fits manufacturer model serial hardware software ≡ valid
    → (name ≡ true)
      × (manufacturer ≡ true)
      × (model ≡ true)
      × (serial ≡ true)
      × (hardware ≡ true)
      × (software ≡ true)
chain_all name fits manufacturer model serial hardware software h = ground arith

-- The texts of a valid configuration.
pub validate-texts :
    (c : Config)
    → validate c false ≡ valid
    → (text_valid c.device_name 30 false ≡ true)
      × (text_valid c.manufacturer_name 33 false ≡ true)
      × (text_valid c.model_number 33 false ≡ true)
      × (text_valid c.serial_number 33 false ≡ true)
      × (text_valid c.hardware_revision 17 false ≡ true)
      × (text_valid c.software_revision 17 false ≡ true)
unfolding validate_texts
validate-texts c h =
    chain_all (text_valid c.device_name 30 false) (advertising_fits c.device_name)
      (text_valid c.manufacturer_name 33 false) (text_valid c.model_number 33 false)
      (text_valid c.serial_number 33 false) (text_valid c.hardware_revision 17 false)
      (text_valid c.software_revision 17 false) (validate-parts c false h).0

copied_texts-valid :
    (c : Config) → validate c false ≡ valid → validate_texts (copied_config c) false ≡ valid
unfolding validate_texts
copied_texts-valid c h =
    let (name, manufacturer, model, serial, hardware, software) = validate-texts c h in
    rw
      (
        copied-text_valid c.device_name 30 false name,
        copied-advertising_fits c.device_name name,
        copied-text_valid c.manufacturer_name 33 false manufacturer,
        copied-text_valid c.model_number 33 false model,
        copied-text_valid c.serial_number 33 false serial,
        copied-text_valid c.hardware_revision 17 false hardware,
        copied-text_valid c.software_revision 17 false software,
      )
      refl

copied_battery : (c : Config) → validate_battery (copied_config c) ≡ validate_battery c
unfolding validate_battery
copied_battery c = refl

-- A valid configuration is still valid with its texts copied.
pub copied_config-valid :
    (c : Config) → validate c false ≡ valid → validate (copied_config c) false ≡ valid
unfolding validate
copied_config-valid c h =
    both_valid _ _ (copied_texts-valid c h) (copied_battery c ∙ (validate-parts c false h).1)
