-- ===== src/Mullvad/Control/Devices.antt =====
-- What it means that a device is tracked, and that the last part of a set-up tracks it.
use mathlib.Core.List.{Memᴰ}
use mathlib.Core.List.Memᴰ
use ppvda.Base.{
  all, ◌⊎◌, ◌≡◌, refl, Bool, true, false, List, [], ◌∷◌, ◌++◌, none, some, String, All, inl, inr,
}
use ppvda.Mullvad.Relays.{RelayServer}
use ppvda.Mullvad.Control.{
  OwnDevice, Mullvad, MullvadEffect, removes, creates, saves, stops, starts, MullvadReplies,
  load_own_devices, save_own_devices, without_id, forget, removal_tried, deregister_with,
  deregister_device, recorded, brought_up,
}

-- The device stands in the file.
pub InFile : OwnDevice → Mullvad → Type 0
InFile d s = (devices : List OwnDevice) × (s.own_file ≡ some devices) × Memᴰ d devices

-- It stands in the file, or its removal succeeded.
pub Tracked : Mullvad → List MullvadEffect → OwnDevice → Type 0
Tracked s fx d = InFile d s ⊎ Memᴰ (removes d.id true) fx

-- What is said of each effect: that a device which was made is tracked.
unfoldable pub MadeIsTracked : Mullvad → List MullvadEffect → MullvadEffect → Type 0
MadeIsTracked s all (creates d) = Tracked s all d
MadeIsTracked s all _ = Unit {0}

unfoldable pub NotMade : MullvadEffect → Type 0
NotMade (creates d) = ⊥
NotMade _ = Unit {0}

pub NotMade-MadeIsTracked :
    (s : Mullvad) (all : List MullvadEffect) (x : MullvadEffect) → NotMade x → MadeIsTracked s all x
unfolding NotMade MadeIsTracked
NotMade-MadeIsTracked s all (creates d) h = absurd h
NotMade-MadeIsTracked s all (removes id ok) h = tt
NotMade-MadeIsTracked s all (saves ds) h = tt
NotMade-MadeIsTracked s all stops h = tt
NotMade-MadeIsTracked s all (starts server d) h = tt

pub save_own_devices-NotMade :
    (ok : Bool) (ds : List OwnDevice) (s : Mullvad) → All NotMade (save_own_devices ok ds s).1
unfolding save_own_devices NotMade
save_own_devices-NotMade true ds s = (tt, tt)
save_own_devices-NotMade false ds s = tt

removal_tried-NotMade :
    (w b : Bool) (id : String) (s : Mullvad) → All NotMade (removal_tried w b id s).1
unfolding removal_tried forget NotMade
removal_tried-NotMade w false id s = (tt, tt)
removal_tried-NotMade w true id s = (tt, save_own_devices-NotMade w _ s)

deregister_with-NotMade :
    (r : MullvadReplies) (d : OwnDevice) (s : Mullvad) (b : Bool)
    → All NotMade (deregister_with r d s b).1
unfolding deregister_with
deregister_with-NotMade r d s true =
    removal_tried-NotMade r.writes_forgotten r.removes_device d.id s
deregister_with-NotMade r d s false = tt

pub brought_up-NotMade :
    (r : MullvadReplies) (server : RelayServer) (d : OwnDevice) (s : Mullvad) (b : Bool)
    → All NotMade (brought_up r server d s b).1
unfolding brought_up deregister_device NotMade
brought_up-NotMade r server d s true = (tt, (tt, tt))
brought_up-NotMade r server d s false = (tt, (tt, deregister_with-NotMade r d s r.token_again))

removal_tried-Tracked :
    (w b : Bool) (d : OwnDevice) (s : Mullvad)
    → InFile d s
    → Tracked (removal_tried w b d.id s).0 (removal_tried w b d.id s).1 d
unfolding removal_tried Tracked
removal_tried-Tracked w false d s h = inl h
removal_tried-Tracked w true d s h = inr (Memᴰ.head refl)

deregister_with-Tracked :
    (r : MullvadReplies) (d : OwnDevice) (s : Mullvad) (b : Bool)
    → InFile d s
    → Tracked (deregister_with r d s b).0 (deregister_with r d s b).1 d
unfolding deregister_with Tracked
deregister_with-Tracked r d s true h =
    removal_tried-Tracked r.writes_forgotten r.removes_device d s h
deregister_with-Tracked r d s false h = inl h

-- More effects in front.
pub Tracked-append :
    (s : Mullvad) (fx gx : List MullvadEffect) (d : OwnDevice)
    → Tracked s gx d
    → Tracked s (fx ++ gx) d
unfolding Tracked
Tracked-append s fx gx d (inl h) = inl h
Tracked-append s fx gx d (inr h) = inr (Memᴰ.append_right fx h)

-- The device that is no longer the active one.
Tracked-without_active :
    (s : Mullvad) (fx : List MullvadEffect) (d : OwnDevice)
    → Tracked s fx d
    → Tracked (record s { active_device = none }) fx d
unfolding Tracked InFile
Tracked-without_active s fx d (inl h) = inl h
Tracked-without_active s fx d (inr h) = inr h

pub brought_up-Tracked :
    (r : MullvadReplies) (server : RelayServer) (d : OwnDevice) (s : Mullvad) (b : Bool)
    → InFile d s
    → Tracked (brought_up r server d s b).0 (brought_up r server d s b).1 d
unfolding brought_up deregister_device Tracked
brought_up-Tracked r server d s true h = inl h
brought_up-Tracked r server d s false h =
    Tracked-append (record (deregister_device r d s).0 { active_device = none })
      (stops ∷ starts server d ∷ []) (deregister_device r d s).1 d
      (Tracked-without_active (deregister_device r d s).0 (deregister_device r d s).1 d
        (deregister_with-Tracked r d s r.token_again h))

pub recorded-InFile :
    (ok : Bool) (d : OwnDevice) (s : Mullvad) → ok ≡ true → InFile d (recorded ok d s).0
unfolding recorded save_own_devices InFile
recorded-InFile true d s h = (
  without_id d.id (load_own_devices s) ++ d ∷ [],
  refl,
  Memᴰ.append_right (without_id d.id (load_own_devices s)) (Memᴰ.head refl),
)
recorded-InFile false d s h = cc
