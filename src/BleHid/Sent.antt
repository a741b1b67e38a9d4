-- ===== src/BleHid/Sent.antt =====
-- What the reports that were given to the stack show, and how a release extends them.
use typxen.Base.{ℕ, zero, suc, ◌≡◌, Bool, true, false, List, [], ◌∷◌, arith, if◌then◌else◌, ◌==◌}
use typxen.Base.Text.{same_text}
use typxen.HidRuntime.Defs.{release_report, is_ok, io_valid, shared, resume, release_max_attempts}
use typxen.HidRuntime.Keys.{release, release_loop, release_all}
use typxen.BleHid.Defs.{
  Sent, input, Ble, Platform, consumer_release, send_report, send_consumer_report, runtime_io,
  consumer_loop, release_all_reports,
}

-- The last word on the keys of a report is that none is down: a report of no key was sent, and
-- none of a key was tried since.
abbrev pub lifted : ℕ → List ℕ → List Sent → Bool
lifted report_id released [] = false
lifted report_id released (input i bytes sent ∷ log) =
    if i == report_id
    then (if same_text bytes released
        then (if sent then true else lifted report_id released log)
        else false)
    else lifted report_id released log

-- The keyboard and the consumer keys are up.
abbrev pub AllLifted : List Sent → Type 0
AllLifted log = (lifted 1 release_report log ≡ true) × (lifted 2 consumer_release log ≡ true)

module _ {P : Type 0} (platform : Platform P) where
  release_all-lifted :
      (r : Ble P)
      → let (e, r') = release_all (runtime_io platform) r in
        is_ok e ≡ true → lifted 1 release_report r'.context.sent ≡ true
  unfolding release_all release release_loop io_valid send_report same_text
  release_all-lifted r h = ground arith

  consumer_loop-lifted :
      (n : ℕ) (r : Ble P)
      → lifted 1 release_report r.context.sent ≡ true
      → let (released, r') = consumer_loop platform n r in
        released ≡ true → AllLifted r'.context.sent
  unfolding consumer_loop send_consumer_report same_text
  consumer_loop-lifted zero r up h = absurd cc
  consumer_loop-lifted (suc n) r up h = ground (
    arith,
    consumer_loop-lifted n
        (resume (send_consumer_report platform consumer_release (shared r)).1 r.log),
  )

  -- A release that went well has sent a report of no key for the keyboard and for the consumer keys.
  pub release_all_reports-lifted :
      (r : Ble P)
      → let (released, r') = release_all_reports platform r in
        released ≡ true → AllLifted r'.context.sent
  unfolding release_all_reports
  release_all_reports-lifted r h = ground (
    arith,
    release_all-lifted r,
    consumer_loop-lifted release_max_attempts (release_all (runtime_io platform) r).1,
  )
