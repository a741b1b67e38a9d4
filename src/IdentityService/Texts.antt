-- ===== src/IdentityService/Texts.antt =====
-- The texts of a configuration, written to the storage and read back into a zeroed buffer.
use typxen.Base.{
  ltb, leb, ℕ, zero, suc, ◌-◌, ◌≤◌, ◌<◌, ◌≡◌, refl, sym, ap, ◌∙◌, Bool, true, false, not, ◌&&◌,
  ◌||◌, List, [], ◌∷◌, ◌++◌, arith, if◌then◌else◌, ◌==◌, length, length-append, get_or, take, drop,
  replicate,
}
use typxen.Identity.Types.{Config}
use typxen.Identity.Text.{
  put_text, isspace, text_length, printable, text_valid, scan_response_bytes, advertising_fits,
}
use typxen.IdentityService.Defs.{c_string}

-- A buffer with the text of another.
abbrev pub copied : ℕ → List ℕ → List ℕ
copied capacity buffer = put_text (replicate capacity 0) (c_string buffer)

-- The configuration with each text in a zeroed buffer.
abbrev pub copied_config : Config → Config
copied_config c = record c {
  device_name = copied 30 c.device_name;
  manufacturer_name = copied 33 c.manufacturer_name;
  model_number = copied 33 c.model_number;
  serial_number = copied 33 c.serial_number;
  hardware_revision = copied 17 c.hardware_revision;
  software_revision = copied 17 c.software_revision;
}

-- A text that ends below a capacity ends there under any larger one.
text_length_stable :
    (capacity : ℕ) (text : List ℕ)
    → text_length capacity text < capacity
    → text_length (length text) text ≡ text_length capacity text
unfolding text_length
text_length_stable zero text h = absurd (omega arith)
text_length_stable (suc capacity) [] h = refl
text_length_stable (suc capacity) (b ∷ text) h = ground (arith, text_length_stable capacity text)

length-c_string :
    (capacity : ℕ) (text : List ℕ)
    → text_length capacity text < capacity
    → length (take (text_length capacity text) text) ≡ text_length capacity text
unfolding text_length
length-c_string zero text h = absurd (omega arith)
length-c_string (suc capacity) [] h = refl
length-c_string (suc capacity) (b ∷ text) h = ground (arith, length-c_string capacity text)

text_length-copied :
    (capacity room : ℕ) (text rest : List ℕ)
    → text_length capacity text < room
    → text_length room (take (text_length capacity text) text ++ (0 ∷ rest))
      ≡ text_length capacity text
unfolding text_length
text_length-copied capacity zero text rest k = absurd (omega arith)
text_length-copied zero (suc room) text rest k = refl
text_length-copied (suc capacity) (suc room) [] rest k = refl
text_length-copied (suc capacity) (suc room) (b ∷ text) rest k =
    ground (arith, text_length-copied capacity room text rest)

get_or-take :
    (n i : ℕ) (xs rest : List ℕ)
    → i < n
    → n ≤ length xs
    → get_or (take n xs ++ rest) i 0 ≡ get_or xs i 0
get_or-take zero i xs rest h k = absurd (omega arith)
get_or-take (suc n) i [] rest h k = absurd (omega arith)
get_or-take (suc n) zero (x ∷ xs) rest h k = refl
get_or-take (suc n) (suc i) (x ∷ xs) rest h k = get_or-take n i xs rest (omega arith) (omega arith)

printable-take :
    (n : ℕ) (xs rest : List ℕ) → n ≤ length xs → printable n (take n xs ++ rest) ≡ printable n xs
unfolding printable
printable-take zero xs rest k = refl
printable-take (suc n) [] rest k = absurd (omega arith)
printable-take (suc n) (x ∷ xs) rest k = rw (printable-take n xs rest (omega arith)) refl

text_length-≤ : (capacity : ℕ) (text : List ℕ) → text_length capacity text ≤ length text
unfolding text_length
text_length-≤ zero text = omega arith
text_length-≤ (suc capacity) [] = omega arith
text_length-≤ (suc capacity) (b ∷ text) = ground (arith, text_length-≤ capacity text)

text_valid-lt :
    (text : List ℕ) (capacity : ℕ) (empty_allowed : Bool)
    → text_valid text capacity empty_allowed ≡ true
    → text_length capacity text < capacity
unfolding text_valid
text_valid-lt text capacity empty_allowed h = ground arith

c_string-take :
    (text : List ℕ) (capacity : ℕ)
    → text_length capacity text < capacity
    → c_string text ≡ take (text_length capacity text) text
unfolding c_string
c_string-take text capacity h = ap (λ n. take n text) (text_length_stable capacity text h)

-- A text that fits is shorter than its capacity.
pub c_string-lt :
    (text : List ℕ) (capacity : ℕ) (empty_allowed : Bool)
    → text_valid text capacity empty_allowed ≡ true
    → length (c_string text) < capacity
c_string-lt text capacity empty_allowed h =
    let fits = text_valid-lt text capacity empty_allowed h in
    rw (c_string-take text capacity fits, length-c_string capacity text fits) fits

-- The part of `text_valid` behind the measuring.
abbrev measured : List ℕ → ℕ → Bool → ℕ → Bool
measured text capacity empty_allowed n =
    if leb capacity n || (not empty_allowed && n == 0)
    then false
    else if ltb 0 n && (isspace (get_or text 0 0) || isspace (get_or text (n - 1) 0))
    then false
    else printable n text

measured-take :
    (text rest : List ℕ) (capacity : ℕ) (empty_allowed : Bool) (n : ℕ)
    → n ≤ length text
    → measured (take n text ++ rest) capacity empty_allowed n
      ≡ measured text capacity empty_allowed n
measured-take text rest capacity empty_allowed zero l =
    let same : printable 0 rest ≡ printable 0 text = printable-take 0 text rest l in rw same refl
measured-take text rest capacity empty_allowed (suc n) l =
    rw
      (
        get_or-take (suc n) 0 text rest (omega arith) l,
        get_or-take (suc n) (suc n - 1) text rest (omega arith) l,
        printable-take (suc n) text rest l,
      )
      refl

-- A valid text is still valid in a zeroed buffer.
pub copied-text_valid :
    (text : List ℕ) (capacity : ℕ) (empty_allowed : Bool)
    → text_valid text capacity empty_allowed ≡ true
    → text_valid (copied capacity text) capacity empty_allowed ≡ true
unfolding text_valid
copied-text_valid text capacity empty_allowed h =
    let fits = text_valid-lt text capacity empty_allowed h in
    let n = text_length capacity text in
    let rest : List ℕ = 0 ∷ drop (suc (length (take n text))) (replicate capacity 0) in
    ap (λ t. text_valid (put_text (replicate capacity 0) t) capacity empty_allowed)
      (c_string-take text capacity fits)
    ∙ ap (measured (take n text ++ rest) capacity empty_allowed)
        (text_length-copied capacity capacity text _ fits)
    ∙ measured-take text rest capacity empty_allowed n (text_length-≤ capacity text)
    ∙ h

-- A name of the device that fits an advertisement still does.
pub copied-advertising_fits :
    (text : List ℕ) → text_valid text 30 false ≡ true → advertising_fits (copied 30 text) ≡ true
unfolding advertising_fits scan_response_bytes
copied-advertising_fits text h =
    let fits = text_valid-lt text 30 false h in
    let n = text_length 30 text in
    let rest : List ℕ = drop (suc (length (take n text))) (replicate 30 0) in
    let whole : List ℕ = take n text ++ (0 ∷ rest) in
    let size = length-append (take n text) (0 ∷ rest) in
    let short = length-c_string 30 text fits in
    let ends : text_length (length whole) whole ≡ n =
      text_length-copied 30 (length whole) text rest (omega arith) in
    rw (c_string-take text 30 fits, ends) (ground arith)

take_all : (xs ys : List ℕ) (n : ℕ) → length xs ≡ n → take n (xs ++ ys) ≡ xs
take_all [] ys n h = rw (sym h) refl
take_all (x ∷ xs) ys zero h = absurd (omega arith)
take_all (x ∷ xs) ys (suc n) h = ap (λ l. x ∷ l) (take_all xs ys n (omega arith))

length-c_string_self :
    (capacity : ℕ) (text : List ℕ)
    → length (take (text_length capacity text) text) ≡ text_length capacity text
unfolding text_length
length-c_string_self zero text = refl
length-c_string_self (suc capacity) [] = refl
length-c_string_self (suc capacity) (b ∷ text) = ground (arith, length-c_string_self capacity text)

-- The text of a buffer is still there in another one.
pub c_string-copied :
    (capacity : ℕ) (buffer : List ℕ) → c_string (copied capacity buffer) ≡ c_string buffer
unfolding c_string
c_string-copied capacity buffer =
    let n = text_length (length buffer) buffer in
    let t : List ℕ = take n buffer in
    let rest : List ℕ = drop (suc (length t)) (replicate capacity 0) in
    let size = length-append t (0 ∷ rest) in
    let same = length-c_string_self (length buffer) buffer in
    ap (λ k. take k (t ++ (0 ∷ rest)))
      (text_length-copied (length buffer) (length (t ++ (0 ∷ rest))) buffer rest (omega arith))
    ∙ take_all t (0 ∷ rest) n same
