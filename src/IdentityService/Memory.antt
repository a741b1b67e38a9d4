-- ===== src/IdentityService/Memory.antt =====
-- A storage in memory, on which every call succeeds.
use typxen.Base.{
  ℕ, ◌≡◌, refl, true, false, Option, none, some, List, [], ◌∷◌, arith, if◌then◌else◌, replicate,
}
use typxen.Base.Text.{codes, same_text}
use typxen.Identity.Config.{defaults}
use typxen.IdentityService.Defs.{ok, Item, Reading, got, stopped, nvs_not_found, Platform, Service}
use typxen.IdentityService.Writes.{IsStorage}

-- A storage: the writes, newest first; an erasure writes nothing.
abbrev pub Memory : Type 0
Memory = List (List ℕ × Option Item)

abbrev found : Option Item → Reading Item
found none = stopped nvs_not_found
found (some item) = got item

abbrev look_up : Memory → List ℕ → Reading Item
look_up [] key = stopped nvs_not_found
look_up ((written_key, item) ∷ memory) key =
    if same_text written_key key then found item else look_up memory key

abbrev pub board : Platform Memory
board = record {
  version = some (codes "1.2");
  read_mac = λ memory. (1 ∷ 2 ∷ 3 ∷ 4 ∷ 5 ∷ 6 ∷ [], ok);
  create_mutex = λ memory. true;
  open_readonly = λ memory. ok;
  open_readwrite = λ memory. (memory, ok);
  get = look_up;
  set = λ memory key item. ((key, some item) ∷ memory, ok);
  erase_key = λ memory key. ((key, none) ∷ memory, ok);
  commit = λ memory. (memory, ok);
  battery_set = λ memory device level. (memory, ok);
}

same_text_refl : (xs : List ℕ) → same_text xs xs ≡ true
unfolding same_text
same_text_refl [] = refl
same_text_refl (x ∷ xs) = ground (arith, same_text_refl xs)

pub board-IsStorage : IsStorage board
board-IsStorage = record {
  set-get = λ w key item h. rw (same_text_refl key) refl;
  set-other = λ w key other item h. rw h refl;
  set-found = λ w key item. cc;
  erase-get = λ w key h. rw (same_text_refl key) refl;
  erase-other = λ w key other h. rw h refl;
  open-get = λ w key. refl;
  commit-get = λ w key. refl;
  battery-get = λ w device level key. refl;
}

-- The static variables before the start.
abbrev pub off : Service
off = record {
  state = defaults [] none;
  mutex = false;
  hid_device = none;
  chip_identity = replicate 6 0;
}
