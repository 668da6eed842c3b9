-- ===== src/Push/Tests.antt =====
-- The theorems on push tokens at a user with two devices.
use banking_mobile_backend.Prelude.{
  String, ◌≡◌, refl, true, none, some, List, [], ◌∷◌, str_eq, if◌then◌else◌, ok, find, update_where,
  any, arith, ◌>>=◌,
}
use banking_mobile_backend.Prelude.Unique.{update_row}
use banking_mobile_backend.Push.{
  DeviceToken, PushStore, RegisterDevicePayload, ios, android, Delivery, delivered, undelivered,
  register_device, upsert_device_token, update_token, send_to_user,
}
use banking_mobile_backend.Push.Tokens.{IsConsistent}
use banking_mobile_backend.Push.Held.{IsHeld, register_device-IsHeld}
use banking_mobile_backend.Push.Delivered.{IsReport, send_to_user-IsReport}
use banking_mobile_backend.Push.Removed.{IsOff, send_to_user-IsOff}

abbrev phone : DeviceToken
phone = record {
  id = 1;
  user_id = 5;
  device_id = some "phone";
  fcm_token = "stale";
  platform = ios;
  is_active = true;
  updated_at = 10;
}

abbrev tablet : DeviceToken
tablet = record {
  id = 2;
  user_id = 5;
  device_id = none;
  fcm_token = "live";
  platform = android;
  is_active = true;
  updated_at = 10;
}

abbrev store : PushStore
store = record { rows = phone ∷ tablet ∷ []; next_id = 3; sent = [] }

abbrev firebase : List String → String → Delivery
firebase sent token =
    if str_eq token "stale"
    then undelivered (some "messaging/registration-token-not-registered")
    else delivered

-- The phone is sold, its token is new, and another user registers it.
abbrev payload : RegisterDevicePayload
payload = record { fcm_token = "next"; platform = ios; device_id = some "phone" }

abbrev registered : PushStore
registered = (register_device 20 6 payload store).1

store-IsConsistent : IsConsistent store
store-IsConsistent = record {
  distinct = ((record { ids = refl; free = refl }, tt), (tt, tt));
  below = (omega arith, (omega arith, tt));
}

register_run : register_device 20 6 payload store ≡ (ok tt, registered)
unfolding register_device upsert_device_token update_token update_row find update_where any ◌>>=◌
register_run = refl

register_device-IsHeld_example : IsHeld "next" 6 registered.rows
register_device-IsHeld_example =
    register_device-IsHeld 20 6 payload store store-IsConsistent register_run

send_to_user-IsReport_example : IsReport firebase 5 store
send_to_user-IsReport_example = send_to_user-IsReport firebase 5 store

send_to_user-IsOff_example : IsOff "stale" (send_to_user firebase 5 store).1
unfolding any
send_to_user-IsOff_example = send_to_user-IsOff "stale" firebase (λ sent. refl) 5 store refl
