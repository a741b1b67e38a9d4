-- ===== src/IdentityHttp/Restarting.antt =====
-- What has been done where the board is told to restart.
use typxen.Base.{
  both_true, subst, ◌≡◌, refl, sym, ap, ◌∙◌, ◌⊎◌, inl, inr, Bool, true, false, not, ◌&&◌, ◌||◌,
  Option, none, some, List, [], ◌∷◌, arith, if◌then◌else◌, ◌==◌, ==_iff,
}
use typxen.Identity.Types.{IdentityState}
use typxen.Identity.Codes.{restart_clears_bonds}
use typxen.HidRuntime.Defs.{is_idle, request_stop}
use typxen.BleHid.Defs.{Ble, Platform}
use typxen.BleHid.Events.{
  Bonds, remove_loop, remove_listed, clear_bonds, prepare_reboot, on_platform,
}
use typxen.BleHid.Sent.{AllLifted, release_all_reports-lifted}
use typxen.IdentityHttp.Handlers.{
  Answer, Reboot, not_made, told_to_restart, Restart, answer_restart, bonds_cleared,
  reboot_prepared, reboot_made, restart_handler,
}

-- Every device is removed, one after the other.
abbrev pub AllRemoved : {P A : Type 0} → Bonds P A → List A → P → Type 0
AllRemoved bonds [] q = Unit
AllRemoved bonds (device ∷ devices) q =
    ((bonds.remove_bond_device device q).0 ≡ true)
    × AllRemoved bonds devices (bonds.remove_bond_device device q).1

-- There are no bonds, or the stack listed them and removed each.
abbrev pub AreCleared : {P A : Type 0} → Bonds P A → P → Type 0
AreCleared {A} bonds q =
    (bonds.bond_device_num q ≡ 0)
    ⊎ ((devices : List A) × (bonds.bond_device_list (bonds.bond_device_num q) q ≡ some devices)
        × AllRemoved bonds devices q)

module _ {P A : Type 0} (bonds : Bonds P A) where
  remove_loop-AllRemoved :
      (devices : List A) (success : Bool) (q : P)
      → (remove_loop bonds devices success q).0 ≡ true
      → (success ≡ true) × AllRemoved bonds devices q
  unfolding remove_loop
  remove_loop-AllRemoved [] success q h = (h, tt)
  remove_loop-AllRemoved (device ∷ devices) success q h =
      let (removed, q') = bonds.remove_bond_device device q in
      let (all, rest) = remove_loop-AllRemoved devices (success && removed) q' h in
      let (before, this) = both_true success removed all in (before, (this, rest))

  remove_listed-AllRemoved :
      (listed : Option (List A)) (q : P)
      → (remove_listed bonds listed q).0 ≡ true
      → (devices : List A) × (listed ≡ some devices) × AllRemoved bonds devices q
  unfolding remove_listed
  remove_listed-AllRemoved none q h = absurd (ground arith)
  remove_listed-AllRemoved (some devices) q h =
      (devices, refl, (remove_loop-AllRemoved devices true q h).1)

  -- The tests of `clear_bonds`, on the removal.
  abbrev decided : Bool → Bool → Ble P → Bool → Ble P → Bool × Ble P
  decided busy none_there r success r' =
      if busy then (false, r) else if none_there then (true, r) else (success, r')

  branches :
      (busy none_there : Bool) (r r' : Ble P) (success : Bool)
      → r'.context.sent ≡ r.context.sent
      → (decided busy none_there r success r').0 ≡ true
      → ((none_there ≡ true) ⊎ (success ≡ true))
        × ((decided busy none_there r success r').1.context.sent ≡ r.context.sent)
  branches true none_there r r' success e h = absurd (ground (arith, h))
  branches false true r r' success e h = (inl refl, refl)
  branches false false r r' success e h = (inr h, e)

  clear_bonds-AreCleared :
      (r : Ble P)
      → (clear_bonds bonds false r).0 ≡ true
      → AreCleared bonds r.context.platform
        × ((clear_bonds bonds false r).1.context.sent ≡ r.context.sent)
  unfolding clear_bonds
  clear_bonds-AreCleared r h =
      let q = r.context.platform in
      let count = bonds.bond_device_num q in
      let done = remove_listed bonds (bonds.bond_device_list count q) q in
      let (how, same) =
        branches (not (is_idle r) || false) (count == 0) r
          (record r { context = record r.context { platform = done.1 } }) done.0 refl h in
      (
        elim how [
          | inl zero_count ↦ inl ((==_iff count 0).0 zero_count)
          | inr removed ↦ inr (remove_listed-AllRemoved (bonds.bond_device_list count q) q removed)
        ],
        same,
      )

module _ {P : Type 0} (keyboard : Platform P) where
  prepare_reboot-lifted :
      (r : Ble P)
      → (prepare_reboot keyboard r).0 ≡ true
      → (r.connected ≡ false) ⊎ AllLifted (prepare_reboot keyboard r).1.context.sent
  unfolding prepare_reboot request_stop
  prepare_reboot-lifted r h =
      ground (arith, h, release_all_reports-lifted keyboard (record r { stop_requested = true }))

module _ {P A : Type 0} (reboot : Reboot P) (keyboard : Platform P) (bonds : Bonds P A) where
  -- What has been done to the keyboard `before`, which was `prepared`, where the board is told to restart.
  pub record IsReleased (clear : Bool) (before prepared after : Ble P) : Type 0 where
    pub lifted : (before.connected ≡ false) ⊎ AllLifted after.context.sent
    pub cleared : (clear ≡ false) ⊎ AreCleared bonds prepared.context.platform

  answer_restart-sent :
      (clear : Bool) (r : Ble P)
      → (answer_restart reboot keyboard bonds clear r).ble.context.sent ≡ r.context.sent
  unfolding answer_restart
  answer_restart-sent clear r = refl

  bonds_cleared-told :
      (clear : Bool) (done : Bool × Ble P)
      → (bonds_cleared reboot keyboard bonds clear done).task ≡ told_to_restart
      → (done.0 ≡ true)
        × ((bonds_cleared reboot keyboard bonds clear done).ble.context.sent ≡ done.1.context.sent)
  unfolding bonds_cleared
  bonds_cleared-told clear (false, r) h = absurd (ground (arith, h))
  bonds_cleared-told clear (true, r) h = (refl, answer_restart-sent clear r)

  abbrev maybe_cleared : Bool → Ble P → Bool × Ble P
  maybe_cleared clear r = if clear then clear_bonds bonds false r else (true, r)

  clearing :
      (clear : Bool) (r : Ble P)
      → (maybe_cleared clear r).0 ≡ true
      → ((clear ≡ false) ⊎ AreCleared bonds r.context.platform)
        × ((maybe_cleared clear r).1.context.sent ≡ r.context.sent)
  clearing true r h = let (c, same) = clear_bonds-AreCleared bonds r h in (inr c, same)
  clearing false r h = (inl refl, refl)

  reboot_prepared-told :
      (clear : Bool) (done : Bool × Ble P)
      → (reboot_prepared reboot keyboard bonds clear done).task ≡ told_to_restart
      → (done.0 ≡ true)
        × ((clear ≡ false) ⊎ AreCleared bonds done.1.context.platform)
        × ((reboot_prepared reboot keyboard bonds clear done).ble.context.sent
            ≡ done.1.context.sent)
  unfolding reboot_prepared
  reboot_prepared-told clear (false, r) h = absurd (ground (arith, h))
  reboot_prepared-told clear (true, r) h =
      let (cleared, same) = bonds_cleared-told clear (maybe_cleared clear r) h in
      let (are, same') = clearing clear r cleared in (refl, are, same ∙ same')

  reboot_made-told :
      (clear : Bool) (done : Bool × Ble P)
      → (reboot_made reboot keyboard bonds clear done).task ≡ told_to_restart
      → IsReleased clear done.1
          (prepare_reboot keyboard done.1).1
          (reboot_made reboot keyboard bonds clear done).ble
  unfolding reboot_made
  reboot_made-told clear (false, r) h = absurd (ground (arith, h))
  reboot_made-told clear (true, r) h =
      let (released, are, same) = reboot_prepared-told clear (prepare_reboot keyboard r) h in
      record {
        lifted = elim (prepare_reboot-lifted keyboard r released) [
          | inl off ↦ inl off
          | inr up ↦ inr (subst AllLifted (sym same) up)
        ];
        cleared = are;
      }

  abbrev tested : Bool → Bool → Answer → Answer → Ble P → Restart P → Restart P
  tested locked idle x y r z =
      if locked
      then record { answer = x; task = not_made; ble = r }
      else if not idle
      then record { answer = y; task = not_made; ble = r }
      else z

  tested-told :
      (locked idle : Bool) (x y : Answer) (r : Ble P) (z : Restart P)
      → (tested locked idle x y r z).task ≡ told_to_restart
      → (locked ≡ false) × (idle ≡ true) × (tested locked idle x y r z ≡ z)
  tested-told true idle x y r z h = absurd (ground (arith, h))
  tested-told false false x y r z h = absurd (ground (arith, h))
  tested-told false true x y r z h = (refl, refl, refl)

  -- Where a request to restart tells the task to restart the board, no job holds the board and nothing
  -- is being typed; the keyboard is not connected, or the last reports that were sent lift the keyboard
  -- and the consumer keys; and if the identity asks for it, there were no bonds, or the stack listed
  -- them and removed each.
  pub restart_handler-IsReleased :
      (job_locked : Bool) (identity : IdentityState) (r : Ble P)
      → let made = on_platform (λ _. (reboot.create_task r.context.platform).1) r in
        let restart = restart_handler reboot keyboard bonds job_locked identity r in
        restart.task ≡ told_to_restart
        → (job_locked ≡ false)
          × (is_idle r ≡ true)
          × IsReleased identity.restart_required made (prepare_reboot keyboard made).1 restart.ble
  unfolding restart_handler restart_clears_bonds
  restart_handler-IsReleased job_locked identity r h =
      let made = on_platform (λ _. (reboot.create_task r.context.platform).1) r in
      let done =
        reboot_made reboot keyboard bonds identity.restart_required
          ((reboot.create_task r.context.platform).0, made) in
      let (unlocked, idle, same) = tested-told job_locked (is_idle r) _ _ r done h in
      (
        unlocked,
        idle,
        subst
            (λ z. IsReleased identity.restart_required made (prepare_reboot keyboard made).1 z.ble)
            (sym same)
            (reboot_made-told identity.restart_required
              ((reboot.create_task r.context.platform).0, made) (ap (λ z. z.task) (sym same) ∙ h)),
      )
