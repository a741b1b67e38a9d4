-- ===== src/IdentityService/Writes.antt =====
-- What the storage reads as behind a row of writes.
use typxen.Base.{
  both_true, ℕ, ◌≡◌, refl, sym, ap, ◌∙◌, ◌≢◌, ◌⊎◌, inl, inr, true, false, Option, none, some, List,
  [], ◌∷◌, arith, if◌then◌else◌, ◌==◌, ==_iff, Bool-cases,
}
use typxen.Base.Text.{same_text}
use typxen.IdentityService.Defs.{
  Status, ok, error, nvs_not_found, nvs_invalid_length, invalid_arg, invalid_state, no_mem, failed,
  Item, Reading, got, stopped, Platform,
}
use typxen.IdentityService.Calls.{next, tolerate, Write, put, replace, write_one, write_all}

-- The storage as its documentation has it: a key that was set has the value, a key that was erased or
-- was not there is not found, no other key changes, setting a key never fails for want of it, and
-- neither opening the namespace, nor a commit, nor the HID device changes a value.
pub record IsStorage {W : Type 0} (p : Platform W) : Type 0 where
  pub set-get :
      (w : W) (key : List ℕ) (item : Item)
      → (p.set w key item).1 ≡ ok
      → p.get (p.set w key item).0 key ≡ got item
  pub set-other :
      (w : W) (key other : List ℕ) (item : Item)
      → same_text key other ≡ false
      → p.get (p.set w key item).0 other ≡ p.get w other
  pub set-found : (w : W) (key : List ℕ) (item : Item) → (p.set w key item).1 ≢ error nvs_not_found
  pub erase-get :
      (w : W) (key : List ℕ)
      → ((p.erase_key w key).1 ≡ ok) ⊎ ((p.erase_key w key).1 ≡ error nvs_not_found)
      → p.get (p.erase_key w key).0 key ≡ stopped nvs_not_found
  pub erase-other :
      (w : W) (key other : List ℕ)
      → same_text key other ≡ false
      → p.get (p.erase_key w key).0 other ≡ p.get w other
  pub open-get : (w : W) (key : List ℕ) → p.get (p.open_readwrite w).0 key ≡ p.get w key
  pub commit-get : (w : W) (key : List ℕ) → p.get (p.commit w).0 key ≡ p.get w key
  pub battery-get :
      (w : W) (device level : ℕ) (key : List ℕ)
      → p.get (p.battery_set w device level).0 key ≡ p.get w key

abbrev pub reading_of : Option Item → Reading Item
reading_of none = stopped nvs_not_found
reading_of (some item) = got item

-- What a key reads as behind the writes, if it reads as `before` ahead of them.
abbrev pub written : List Write → List ℕ → Reading Item → Reading Item
written [] other before = before
written (put key item ∷ writes) other before =
    written writes other (if same_text key other then got item else before)
written (replace key item ∷ writes) other before =
    written writes other (if same_text key other then reading_of item else before)

same_text-≡ : (xs ys : List ℕ) → same_text xs ys ≡ true → xs ≡ ys
unfolding same_text
same_text-≡ [] [] h = refl
same_text-≡ [] (y ∷ ys) h = absurd (ground arith)
same_text-≡ (x ∷ xs) [] h = absurd (ground arith)
same_text-≡ (x ∷ xs) (y ∷ ys) h =
    let (head, tail) = both_true (x == y) (same_text xs ys) h in
    rw ((==_iff x y).0 head, same_text-≡ xs ys tail) refl

pub next_ok :
    {W : Type 0} (r : W × Status) (f : W → W × Status)
    → (next r f).1 ≡ ok
    → (r.1 ≡ ok) × (next r f ≡ f r.0)
next_ok (w, ok) f h = (refl, refl)
next_ok (w, error e) f h = absurd (ground arith)

tolerate_ok :
    {W : Type 0} (r : W × Status)
    → (tolerate r).1 ≡ ok
    → ((r.1 ≡ ok) ⊎ (r.1 ≡ error nvs_not_found)) × ((tolerate r).0 ≡ r.0)
tolerate_ok (w, ok) h = (inl refl, refl)
tolerate_ok (w, error nvs_not_found) h = (inr refl, refl)
tolerate_ok (w, error nvs_invalid_length) h = absurd (ground arith)
tolerate_ok (w, error invalid_arg) h = absurd (ground arith)
tolerate_ok (w, error invalid_state) h = absurd (ground arith)
tolerate_ok (w, error no_mem) h = absurd (ground arith)
tolerate_ok (w, error (failed code)) h = absurd (ground arith)

module _ {W : Type 0} (p : Platform W) (s : IsStorage p) where
  set-reads :
      (w : W) (key other : List ℕ) (item : Item)
      → (p.set w key item).1 ≡ ok
      → p.get (p.set w key item).0 other ≡ (if same_text key other then got item else p.get w other)
  set-reads w key other item h = elim (Bool-cases (same_text key other)) [
    | inl same ↦ rw (same, sym (same_text-≡ key other same)) (s.set-get w key item h)
    | inr differs ↦ rw differs (s.set-other w key other item differs)
  ]

  erase-reads :
      (w : W) (key other : List ℕ)
      → ((p.erase_key w key).1 ≡ ok) ⊎ ((p.erase_key w key).1 ≡ error nvs_not_found)
      → p.get (p.erase_key w key).0 other
        ≡ (if same_text key other then stopped nvs_not_found else p.get w other)
  erase-reads w key other h = elim (Bool-cases (same_text key other)) [
    | inl same ↦ rw (same, sym (same_text-≡ key other same)) (s.erase-get w key h)
    | inr differs ↦ rw differs (s.erase-other w key other differs)
  ]

  replaced :
      (w : W) (key : List ℕ) (item : Item)
      → ((p.set w key item).1 ≡ ok) ⊎ ((p.set w key item).1 ≡ error nvs_not_found)
      → (p.set w key item).1 ≡ ok
  replaced w key item (inl h) = h
  replaced w key item (inr h) = absurd (s.set-found w key item h)

  write_one-reads :
      (write : Write) (w : W) (other : List ℕ)
      → (write_one p w write).1 ≡ ok
      → p.get (write_one p w write).0 other ≡ written (write ∷ []) other (p.get w other)
  unfolding write_one
  write_one-reads (put key item) w other h = set-reads w key other item h
  write_one-reads (replace key none) w other h =
      let (fine, same) = tolerate_ok (p.erase_key w key) h in rw same (erase-reads w key other fine)
  write_one-reads (replace key (some item)) w other h =
      let (fine, same) = tolerate_ok (p.set w key item) h in
      rw same (set-reads w key other item (replaced w key item fine))

  written-cons :
      (write : Write) (writes : List Write) (other : List ℕ) (before : Reading Item)
      → written (write ∷ writes) other before
        ≡ written writes other (written (write ∷ []) other before)
  written-cons (put key item) writes other before = refl
  written-cons (replace key item) writes other before = refl

  -- Writes that all succeed leave each key as the last of them has it.
  pub write_all-reads :
      (writes : List Write) (w : W) (other : List ℕ)
      → (write_all p writes w).1 ≡ ok
      → p.get (write_all p writes w).0 other ≡ written writes other (p.get w other)
  unfolding write_all
  write_all-reads [] w other h = refl
  write_all-reads (write ∷ writes) w other h =
      let (first, same) = next_ok (write_one p w write) (write_all p writes) h in
      let w' = (write_one p w write).0 in
      let rest = write_all-reads writes w' other (ap (λ r. r.1) (sym same) ∙ h) in
      ap (λ r. p.get r.0 other) same
      ∙ rest
      ∙ ap (written writes other) (write_one-reads write w other first)
      ∙ sym (written-cons write writes other (p.get w other))
