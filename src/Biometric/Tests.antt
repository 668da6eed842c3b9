-- ===== src/Biometric/Tests.antt =====
-- The theorems on the biometric login at a concrete device.
use banking_mobile_backend.Prelude.{
  Result, String, ◌≡◌, ◌≢◌, refl, Bool, none, [], ◌∷◌, ok, find, update_where, ◌>>=◌, str_eq,
}
use banking_mobile_backend.Biometric.{
  Challenge, Credential, Devices, BiometricVerifyRequest, verify_challenge, find_by_id,
  find_active_by_device_id, mark_used, touch_last_used, create_challenge,
}
use banking_mobile_backend.Biometric.Login.{
  IsEntitled, Steps, start, challenged, verify_challenge-login, verify_challenge-once,
}

-- A signature is the message itself, under any key.
abbrev signs : String → String → String → Result Bool
signs key message signature = ok (str_eq signature message)

abbrev challenge : Challenge
challenge = record {
  id = "c1";
  device_id = "phone";
  challenge = "text";
  expires_at = 100;
  used_at = none;
}

abbrev credential : Credential
credential = record {
  user_id = 5;
  device_id = "phone";
  public_key_json = "key";
  algorithm = "ES256";
  revoked_at = none;
  last_used_at = none;
}

abbrev devices : Devices
devices = record { challenges = challenge ∷ []; credentials = credential ∷ [] }

abbrev request : BiometricVerifyRequest
request = record { challenge_id = "c1"; device_id = "phone"; signature = "text" }

abbrev after_login : Devices
after_login = (verify_challenge signs 50 request devices).1

abbrev after_challenge : Devices
after_challenge = (create_challenge 60 "c2" "other" "phone" after_login).1

login_run : verify_challenge signs 50 request devices ≡ (ok 5, after_login)
unfolding verify_challenge find_by_id find_active_by_device_id mark_used touch_last_used find
    update_where ◌>>=◌
login_run = refl

verify_challenge-login_example : IsEntitled signs 50 request 5 devices
verify_challenge-login_example = verify_challenge-login signs 50 request devices login_run

one_step : Steps signs after_login after_challenge
one_step = challenged 60 "c2" "other" "phone" start

verify_challenge-once_example :
    verify_challenge signs 70 request after_challenge ≢ (ok 5, after_challenge)
verify_challenge-once_example =
    verify_challenge-once signs 50 70 request request devices after_challenge after_challenge 5
      login_run one_step refl
