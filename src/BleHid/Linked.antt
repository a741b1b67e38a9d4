-- ===== src/BleHid/Linked.antt =====
-- What holds of the service between the calls of its tasks.
use typxen.Base.{ℕ, zero, suc, ◌≡◌, refl, sym, subst, Bool, true, false, arith, if◌then◌else◌}
use typxen.Safety.Defs.{
  Safety, begin_release, complete_release, request_retry, connected, disconnected_event,
  authenticated, snapshot,
}
use typxen.Safety.Invariant.{
  IsValid, step, step-IsValid, connected_op, disconnected_op, retry_op, authenticated_op,
  begin_release_op, complete_release_op,
}
use typxen.HidRuntime.Defs.{
  shared, resume, set_connected, request_stop, io_valid, release_report, release_max_attempts,
}
use typxen.HidRuntime.Keys.{release, release_loop, release_all}
use typxen.BleHid.Defs.{
  Ble, Platform, runtime_io, send_report, send_consumer_report, consumer_loop, consumer_release,
  release_all_reports,
}
use typxen.BleHid.Release.{
  safety_of, with_safety, attempt, schedule_safety_release, retry_safety_release,
}
use typxen.BleHid.Events.{
  GapEvent, HiddEvent, adv_data_set, scan_rsp_data_set, auth_cmpl, other_gap, started, connect,
  disconnect, other_hidd, on_platform, with_authenticated, gap_callback, hid_callback,
  start_advertising_when_ready, shutdown_release, prepare_reboot,
}

-- A call of the service: by the stack, a request to retry, a round of the task that releases the
-- keys, a stop, or the end of the program.
pub data Call : Type 0 where
  gap : GapEvent → Call
  hidd : HiddEvent → Call
  retry stop shutdown reboot : Call
  round : ℕ → Call

-- The safety state is valid, and it and the runtime agree on whether a host is connected.
pub record IsLinked {P : Type 0} (r : Ble P) : Type 0 where
  pub valid : IsValid (safety_of r)
  pub agrees : (safety_of r).is_connected ≡ r.connected

module _ {P : Type 0} (platform : Platform P) where
  abbrev release_round : ℕ → Ble P → Ble P
  release_round generation r =
      let (s, begun) = begin_release (safety_of r) generation in
      if begun then attempt platform generation (with_safety r s) else with_safety r s

  unfoldable pub serve : Call → Ble P → Ble P
  unfolding gap_callback hid_callback retry_safety_release request_stop shutdown_release
      prepare_reboot
  serve (gap e) r = gap_callback platform e r
  serve (hidd e) r = hid_callback platform e r
  serve retry r = (retry_safety_release platform r).1
  serve stop r = request_stop r
  serve shutdown r = shutdown_release platform r
  serve reboot r = (prepare_reboot platform r).1
  serve (round generation) r = release_round generation r

  -- A call leaves the connection and the safety state as they are.
  abbrev Keeps : Ble P → Ble P → Type 0
  Keeps r r' = (safety_of r' ≡ safety_of r) × (r'.connected ≡ r.connected)

  release_all-Keeps : (r : Ble P) → Keeps r (release_all (runtime_io platform) r).1
  unfolding release_all release release_loop io_valid send_report
  release_all-Keeps r = ground arith

  consumer_loop-Keeps : (n : ℕ) (r : Ble P) → Keeps r (consumer_loop platform n r).1
  unfolding consumer_loop send_consumer_report
  consumer_loop-Keeps zero r = ground arith
  consumer_loop-Keeps (suc n) r = ground (
    arith,
    consumer_loop-Keeps n
        (resume (send_consumer_report platform consumer_release (shared r)).1 r.log),
  )

  pub release_all_reports-Keeps : (r : Ble P) → Keeps r (release_all_reports platform r).1
  unfolding release_all_reports
  release_all_reports-Keeps r = ground (
    arith,
    release_all-Keeps r,
    consumer_loop-Keeps release_max_attempts (release_all (runtime_io platform) r).1,
  )

  schedule-Keeps :
      (generation : ℕ) (r : Ble P) → Keeps r (schedule_safety_release platform generation r).1
  unfolding schedule_safety_release
  schedule-Keeps generation r = ground arith

  start_advertising-Keeps : (r : Ble P) → Keeps r (start_advertising_when_ready platform r)
  unfolding start_advertising_when_ready
  start_advertising-Keeps r = ground arith

  Keeps-IsLinked : (r r' : Ble P) → IsLinked r → Keeps r r' → IsLinked r'
  Keeps-IsLinked r r' h (same_safety, same_connected) = record {
    valid = subst (λ (s : Safety P). IsValid s) (sym same_safety) h.valid;
    agrees = ground (arith, h.agrees, same_safety, same_connected);
  }

  gap_callback-IsLinked :
      (e : GapEvent) (r : Ble P) → IsLinked r → IsLinked (gap_callback platform e r)
  unfolding gap_callback step authenticated
  gap_callback-IsLinked adv_data_set r h =
      Keeps-IsLinked r _ h (
        start_advertising-Keeps (record r { context = record r.context { adv_data_ready = true } }))
  gap_callback-IsLinked scan_rsp_data_set r h = Keeps-IsLinked r _ h (
      start_advertising-Keeps
        (record r { context = record r.context { scan_response_ready = true } }))
  gap_callback-IsLinked (auth_cmpl true) r h =
      Keeps-IsLinked (with_authenticated true r) _
        (record {
          valid = step-IsValid (authenticated_op true) (safety_of r) h.valid;
          agrees = ground (arith, h.agrees);
        })
        (schedule-Keeps _ (with_authenticated true r))
  gap_callback-IsLinked (auth_cmpl false) r h = record {
    valid = step-IsValid (authenticated_op false) (safety_of r) h.valid;
    agrees = ground (arith, h.agrees);
  }
  gap_callback-IsLinked other_gap r h = h

  hid_callback-IsLinked :
      (e : HiddEvent) (r : Ble P) → IsLinked r → IsLinked (hid_callback platform e r)
  unfolding hid_callback step connected disconnected_event set_connected request_stop
  hid_callback-IsLinked started r h = Keeps-IsLinked r _ h (
      start_advertising-Keeps (
        on_platform platform.bind_hid
          (record r { context = record r.context { hid_ready = true } })))
  hid_callback-IsLinked connect r h = record {
    valid = step-IsValid connected_op (safety_of r) h.valid;
    agrees = refl;
  }
  hid_callback-IsLinked disconnect r h = record {
    valid = step-IsValid disconnected_op (safety_of r) h.valid;
    agrees = refl;
  }
  hid_callback-IsLinked other_hidd r h = h

  retry-Keeps :
      (r : Ble P)
      → Keeps (with_safety r (request_retry (safety_of r)).0) (retry_safety_release platform r).1
  unfolding retry_safety_release snapshot
  retry-Keeps r = ground (
    arith,
    schedule-Keeps (snapshot (request_retry (safety_of r)).0).generation
        (with_safety r (request_retry (safety_of r)).0),
  )

  retry-IsLinked : (r : Ble P) → IsLinked r → IsLinked (retry_safety_release platform r).1
  unfolding step request_retry
  retry-IsLinked r h =
      Keeps-IsLinked (with_safety r (request_retry (safety_of r)).0) _
        (record {
          valid = step-IsValid retry_op (safety_of r) h.valid;
          agrees = ground (arith, h.agrees);
        })
        (retry-Keeps r)

  -- An attempt ends with `typx_execution_safety_complete_release` on the answers of its reports.
  attempt-Keeps :
      (generation : ℕ) (r : Ble P)
      → let (k, s) = send_report platform release_report (shared r) in
        let c = (send_consumer_report platform consumer_release s).0 in
        Keeps
          (with_safety r (complete_release (safety_of r) generation k c).0)
          (attempt platform generation r)
  unfolding attempt send_report send_consumer_report
  attempt-Keeps generation r = ground arith

  attempt-IsLinked :
      (generation : ℕ) (r : Ble P) → IsLinked r → IsLinked (attempt platform generation r)
  unfolding step complete_release
  attempt-IsLinked generation r h =
      let (k, s) = send_report platform release_report (shared r) in
      let c = (send_consumer_report platform consumer_release s).0 in
      Keeps-IsLinked (with_safety r (complete_release (safety_of r) generation k c).0) _
        (record {
          valid = step-IsValid (complete_release_op generation k c) (safety_of r) h.valid;
          agrees = ground (arith, h.agrees);
        })
        (attempt-Keeps generation r)

  begun-IsLinked :
      (generation : ℕ) (r : Ble P)
      → IsLinked r
      → IsLinked (with_safety r (begin_release (safety_of r) generation).0)
  unfolding step begin_release
  begun-IsLinked generation r h = record {
    valid = step-IsValid (begin_release_op generation) (safety_of r) h.valid;
    agrees = ground (arith, h.agrees);
  }

  if-IsLinked :
      (b : Bool) (r r' : Ble P) → IsLinked r → IsLinked r' → IsLinked (if b then r else r')
  if-IsLinked true r r' h h' = h
  if-IsLinked false r r' h h' = h'

  release_round-IsLinked :
      (generation : ℕ) (r : Ble P) → IsLinked r → IsLinked (release_round generation r)
  release_round-IsLinked generation r h =
      if-IsLinked (begin_release (safety_of r) generation).1 _ _
        (attempt-IsLinked generation _ (begun-IsLinked generation r h))
        (begun-IsLinked generation r h)

  -- Every call keeps the safety state valid, and in agreement with the runtime on whether a host is
  -- connected.
  pub serve-IsLinked : (c : Call) (r : Ble P) → IsLinked r → IsLinked (serve c r)
  unfolding serve request_stop shutdown_release prepare_reboot
  serve-IsLinked (gap e) r h = gap_callback-IsLinked e r h
  serve-IsLinked (hidd e) r h = hid_callback-IsLinked e r h
  serve-IsLinked retry r h = retry-IsLinked r h
  serve-IsLinked stop r h = record { valid = h.valid; agrees = h.agrees }
  serve-IsLinked shutdown r h = Keeps-IsLinked r _ h (ground (arith, release_all_reports-Keeps r))
  serve-IsLinked reboot r h =
      Keeps-IsLinked r _ h
        (ground (arith, release_all_reports-Keeps (record r { stop_requested = true })))
  serve-IsLinked (round generation) r h = release_round-IsLinked generation r h
