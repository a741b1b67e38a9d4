-- ===== src/Station.antt =====
-- The Wi-Fi station's credentials and retries: components/typx_wifi_station/src/typx_wifi_station.c
-- and include/typx_wifi_station.h.
-- A text is the list of its bytes without the NUL; an argument is `none` for NULL. The texts of a
-- configuration are arrays of 33 and 65 bytes: a text that is at least as long as its array would
-- be written past it. `config` is not NULL.
use typxen.Base.{
  ℕ, ◌≤◌, ◌<◌, ◌≡◌, ◌⊎◌, Bool, true, false, ◌&&◌, Option, none, some, List, [], if◌then◌else◌, ltb,
  leb, length, arith,
}

pub record StationConfig : Type 0 where
  pub ssid : List ℕ
  pub password : List ℕ
  pub configured : Bool

pub data RetryAction : Type 0 where
  retry_now retry_delayed recovery_ap : RetryAction

abbrev text_length : Option (List ℕ) → ℕ
text_length none = 0
text_length (some text) = length text

abbrev text_or_empty : Option (List ℕ) → List ℕ
text_or_empty none = []
text_or_empty (some text) = text

unfoldable pub credentials_valid : Option (List ℕ) → Option (List ℕ) → Bool
credentials_valid ssid password =
    leb 1 (text_length ssid)
    && (ltb (text_length ssid) 33
        && (leb 8 (text_length password) && leb (text_length password) 63))

-- A valid text is not NULL.
unfoldable pub config_set : StationConfig → Option (List ℕ) → Option (List ℕ) → StationConfig × Bool
unfolding credentials_valid
config_set config ssid password =
    if credentials_valid ssid password
    then (
      record { ssid = text_or_empty ssid; password = text_or_empty password; configured = true },
      true,
    )
    else (config, false)

unfoldable pub config_clear : StationConfig → StationConfig
config_clear config = record { ssid = []; password = []; configured = false }

unfoldable pub retry_action : Bool → ℕ → ℕ → RetryAction
retry_action post_job_reconnect attempts retry_limit =
    if ltb attempts retry_limit
    then retry_now
    else if post_job_reconnect
    then retry_delayed
    else recovery_ap

-- A configuration that is set fits its arrays with the NUL, and WPA2's lengths.
pub record IsFit (config : StationConfig) : Type 0 where
  pub named : (0 < length config.ssid) × (length config.ssid < 33)
  pub secret : (8 ≤ length config.password) × (length config.password < 64)

abbrev pub IsSound : StationConfig → Type 0
IsSound config = (config.configured ≡ false) ⊎ IsFit config

-- A configuration that is not configured, or that fits, still is after `config_set`, whatever the
-- arguments, and after `config_clear`.
pub config_set-IsSound :
    (config : StationConfig) (ssid password : Option (List ℕ))
    → IsSound config
    → IsSound (config_set config ssid password).0 × IsSound (config_clear config)
unfolding config_set credentials_valid config_clear
config_set-IsSound config ssid password h = ground arith
