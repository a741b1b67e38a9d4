-- ===== src/Discovery.antt =====
-- The record for discovery: components/typx_discovery/src/typx_discovery.c.
-- A pointer is not NULL. `snprintf` of a byte with two hexadecimal digits is `format_hex`.
use typxen.Base.{
  ℕ, ◌<◌, ◌≡◌, Bool, not, ◌&&◌, ◌||◌, List, [], ◌∷◌, ◌++◌, length, drop, arith, length-append,
}
use typxen.Base.Text.{codes}
use typxen.WifiService.Hex.{format_hex}
use typxen.WifiService.RoundTrip.{length-format_hex}

abbrev pub hostname_bytes : ℕ
hostname_bytes = 32

abbrev pub txt : List (List ℕ × List ℕ)
txt =
    (codes "board", codes "esp32_cam")
    ∷ (codes "protocol", codes "1.0")
    ∷ (codes "schedule", codes "1")
    ∷ []

unfoldable pub hostname : List ℕ → List ℕ
unfolding format_hex
hostname identity = codes "typxen-esp32cam-" ++ format_hex (drop 3 identity)

unfoldable pub should_start : Bool → Bool → Bool → Bool
should_start http_available station_mode station_has_ip =
    http_available && (not station_mode || station_has_ip)

-- The name of an identity of six bytes fits with its NUL, so that nothing of it is cut off.
hostname-fits :
    (identity : List ℕ) → length (drop 3 identity) ≡ 3 → length (hostname identity) < hostname_bytes
unfolding hostname
hostname-fits identity h = ground (
  arith,
  h,
  length-append (codes "typxen-esp32cam-") (format_hex (drop 3 identity)),
  length-format_hex (drop 3 identity),
)
