-- ===== src/HidRuntime/Typing.antt =====
-- A test types the characters that it should, one key at a time.
use typxen.Base.{
  ℕ, zero, suc, ◌≡◌, ◌≢◌, ◌⊎◌, inl, inr, refl, sym, subst, true, false, none, some, List, [], ◌∷◌,
  arith, Option-cases,
}
use typxen.Base.Text.{same_text}
use typxen.HidRuntime.Defs.{
  HidError, ok, invalid_argument, Runtime, ValidIo, key_report, character_report,
  wait_after_release_ms,
}
use typxen.HidRuntime.Keys.{
  release_loop, release, wait_checked, send_key, send_character, count_down, open_test, give_up,
  or_release, tick,
}
use typxen.HidRuntime.Log.{
  is_release, Safe, Up, Lifted, After, proceed-After, release-Up, press-Safe, wait_checked-Safe,
  wait_checked-Up,
}

-- The report of a character; a character without one has no bytes.
unfoldable pub report_of : ℕ → List ℕ
unfolding character_report
report_of character = elim (character_report character) [
  | none ↦ []
  | some (modifier, keycode) ↦ key_report modifier keycode
]

-- The reports of the first characters, last first.
abbrev pub reports : (ℕ → ℕ) → ℕ → List (List ℕ)
reports character zero = []
reports character (suc n) = report_of (character n) ∷ reports character n

character_report-pressed :
    (character modifier keycode : ℕ)
    → character_report character ≡ some (modifier, keycode)
    → is_release (key_report modifier keycode) ≡ false
unfolding character_report is_release same_text
character_report-pressed character modifier keycode h = ground arith

report_of-eq :
    (character modifier keycode : ℕ)
    → character_report character ≡ some (modifier, keycode)
    → report_of character ≡ key_report modifier keycode
unfolding report_of
report_of-eq character modifier keycode h = ground arith

module _ {C : Type 0} (io : ValidIo C) where
  pub cleanup-Safe :
      (keys : List (List ℕ)) (r : Runtime C) → Safe keys r → Safe keys (release io r).1
  unfolding release release_loop is_release same_text
  cleanup-Safe keys r h = ground arith

  -- One of two lists of keys was typed.
  abbrev pub Around : List ℕ → List (List ℕ) → Runtime C → Type 0
  Around key keys r = Safe keys r ⊎ Safe (key ∷ keys) r

  pub release-Safe :
      (keys : List (List ℕ)) (r : Runtime C)
      → Safe keys r
      → After (Up keys) (λ e. Safe keys) (release io r)
  unfolding release release_loop is_release same_text
  release-Safe keys r h = ground arith

  pub After-error :
      (P : Runtime C → Type 0) (Q : HidError → Runtime C → Type 0) (e : HidError) (r : Runtime C)
      → e ≢ ok
      → Q e r
      → After P Q (e, r)
  After-error P Q ok r n h = absurd (n refl)
  After-error P Q e r n h = h

  or_release-After :
      (P P' S : Runtime C → Type 0) (Q : HidError → Runtime C → Type 0) (m : HidError × Runtime C)
      (next : Runtime C → HidError × Runtime C)
      → ((r : Runtime C) → S r → S (release io r).1)
      → After P (λ e. S) m
      → ((e : HidError) (r : Runtime C) → S r → Q e r)
      → ((r : Runtime C) → P r → After P' Q (next r))
      → After P' Q (or_release io m next)
  or_release-After P P' S Q m next clean h weaker k =
      proceed-After P P' (λ e. S) Q next (λ e r. (e, (release io r).1)) m h k
        (λ e r n s. After-error P' Q e (release io r).1 n (weaker e (release io r).1 (clean r s)))

  pub Up-Safe : (keys : List (List ℕ)) (r : Runtime C) → Up keys r → Safe keys r
  Up-Safe keys r h = record { safe = h.safe; same = h.same }

  wait_checked-still :
      (keys : List (List ℕ)) (r : Runtime C)
      → Up keys r
      → After (Up keys) (λ e. Safe keys) (wait_checked io wait_after_release_ms r)
  unfolding wait_checked
  wait_checked-still keys r h = ground arith

  send_key-Up :
      (modifier keycode hold_ms : ℕ) (keys : List (List ℕ)) (r : Runtime C)
      → is_release (key_report modifier keycode) ≡ false
      → Up keys r
      → let key = key_report modifier keycode in
        After (Up (key ∷ keys)) (λ e. Around key keys) (send_key io modifier keycode hold_ms r)
  unfolding send_key
  send_key-Up modifier keycode hold_ms keys r pressed h =
      let key = key_report modifier keycode in
      let after = key ∷ keys in
      or_release-After (Safe after) (Up after) (Safe keys) (λ e. Around key keys) _ _
        (cleanup-Safe keys) (press-Safe io modifier keycode keys r pressed h) (λ e r s. inl s)
        λ r1 h1.
          or_release-After (Safe after) (Up after) (Safe after) (λ e. Around key keys) _ _
            (cleanup-Safe after) (wait_checked-Safe io hold_ms after r1 h1) (λ e r s. inr s)
            λ r2 h2.
              or_release-After (Up after) (Up after) (Safe after) (λ e. Around key keys) _ _
                (cleanup-Safe after) (release-Safe after r2 h2) (λ e r s. inr s)
                λ r3 h3.
                  or_release-After (Up after) (Up after) (Safe after) (λ e. Around key keys) _ _
                    (cleanup-Safe after) (wait_checked-still after r3 h3) (λ e r s. inr s)
                    (λ r4 h4. h4)

  send_character-some :
      (character hold_ms modifier keycode : ℕ) (r : Runtime C)
      → character_report character ≡ some (modifier, keycode)
      → send_character io character hold_ms r ≡ send_key io modifier keycode hold_ms r
  unfolding send_character
  send_character-some character hold_ms modifier keycode r e = ground arith

  send_character-none :
      (character hold_ms : ℕ) (r : Runtime C)
      → character_report character ≡ none
      → send_character io character hold_ms r ≡ (invalid_argument, r)
  unfolding send_character
  send_character-none character hold_ms r e = ground arith

  pub send_character-Up :
      (character hold_ms : ℕ) (keys : List (List ℕ)) (r : Runtime C)
      → Up keys r
      → let key = report_of character in
        After (Up (key ∷ keys)) (λ e. Around key keys) (send_character io character hold_ms r)
  send_character-Up character hold_ms keys r h = elim (Option-cases (character_report character)) [
    | inl e ↦
        subst (After (Up (report_of character ∷ keys)) (λ e. Around (report_of character) keys))
          (sym (send_character-none character hold_ms r e)) (inl (Up-Safe keys r h))
    | inr ((modifier, keycode), e) ↦
        subst (After (Up (report_of character ∷ keys)) (λ e. Around (report_of character) keys))
          (sym (send_character-some character hold_ms modifier keycode r e))
          (rw (report_of-eq character modifier keycode e) (
            send_key-Up modifier keycode hold_ms keys r
              (character_report-pressed character modifier keycode e) h))
  ]

  tick-Up :
      (seconds : ℕ) (keys : List (List ℕ)) (r : Runtime C) → Up keys r → Up keys (tick io seconds r)
  tick-Up seconds keys r h = ground arith

  cleanup-Up : (keys : List (List ℕ)) (r : Runtime C) → Up keys r → Up keys (release io r).1
  unfolding release release_loop is_release same_text
  cleanup-Up keys r h = ground arith

  second-Up :
      (seconds : ℕ) (keys : List (List ℕ)) (r : Runtime C)
      → Up keys r
      → After (Up keys) (λ e. Up keys) (wait_checked io 1000 (tick io seconds r))
  second-Up seconds keys r h =
      wait_checked-Up io 1000 keys (tick io seconds r) (tick-Up seconds keys r h)

  count_down-Up :
      (n : ℕ) (keys : List (List ℕ)) (r : Runtime C)
      → Up keys r
      → After (Up keys) (λ e. Up keys) (count_down io n r)
  unfolding count_down
  count_down-Up zero keys r h = h
  count_down-Up (suc n) keys r h =
      or_release-After (Up keys) (Up keys) (Up keys) (λ e. Up keys) _ _ (cleanup-Up keys)
        (second-Up (suc n) keys r h) (λ e r s. s) (count_down-Up n keys)

  pub Up-Lifted : (keys : List (List ℕ)) (r : Runtime C) → Up keys r → Lifted keys r
  Up-Lifted keys r h = record { safe = h.safe; same = h.same; tried = inl h.lifted }

  lifted-After :
      (m : HidError × Runtime C) → After (Up []) (λ e. Up []) m → After (Up []) (λ e. Lifted []) m
  lifted-After (ok, r) h = h
  lifted-After (e, r) h = Up-Lifted [] r h

  pub open_test-Up :
      (r : Runtime C)
      → Safe [] r
      → After (Up []) (λ e r'. Lifted [] r' × (r'.running ≡ false)) (open_test io r)
  unfolding open_test
  open_test-Up r h =
      let r0 = record r { running = true; stop_requested = false } in
      proceed-After (Up []) (Up []) (λ e. Lifted []) (λ e r'. Lifted [] r' × (r'.running ≡ false)) _
        _ _
        (proceed-After (Up []) (Up []) (λ e. Lifted []) (λ e. Lifted []) (count_down io 5) give_up
          (release io r0) (release-Up io [] r0 (record { safe = h.safe; same = h.same }))
          (λ r1 h1. lifted-After (count_down io 5 r1) (count_down-Up 5 [] r1 h1))
          (λ e r1 n h1. After-error (Up []) (λ e. Lifted []) e r1 n h1))
        (λ r2 h2. h2)
        (λ e r2 n h2.
          After-error (Up []) (λ e r'. Lifted [] r' × (r'.running ≡ false)) e
            (record r2 { running = false }) n
            (record { safe = h2.safe; same = h2.same; tried = h2.tried }, refl))
