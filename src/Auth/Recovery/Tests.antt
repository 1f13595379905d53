-- ===== src/Auth/Recovery/Tests.antt =====
-- The theorem on `request_password_reset` of hushline/routes/auth.py at a concrete request.
use hushline.Common.{pos, ◌≡◌, ◌↔◌, ◌⊎◌, refl, true, none, some, ◌∷◌}
use hushline.Auth.Session.{empty}
use hushline.Auth.Store.{ResetAttempt, Context, page}
use hushline.Auth.Samples.{env, store}
use hushline.Auth.Register.Tests.{fresh}
use hushline.Auth.Recovery.{ResetLimits, LinkRequest, handle_request_password_reset}
use hushline.Auth.Recovery.Limits.{
  IsAttempt, IsForm, IsLimited, Untouched, handle_request_password_reset_sound,
}

-- One request an hour for a name, and twenty for an address.
abbrev limits : ResetLimits
limits = record {
  window_minutes = pos 60;
  identifier_max = pos 1;
  ip_max = pos 20;
  hmac = λ t. t;
  isdigit = λ t. true;
}

abbrev request : LinkRequest
request = record {
  is_post = true;
  form_valid = true;
  username = "bea";
  captcha_answer = "3";
  remote_addr = none;
}

abbrev asked : Context
asked = record {
  session = record empty { math_problem = some "1 + 2 ="; math_answer = some "3" };
  store = store;
}

-- The second request within the hour is put off.
again_example :
    (handle_request_password_reset env limits fresh request
      (handle_request_password_reset env limits fresh request asked).1).0
    ≡ page 429
unfolding handle_request_password_reset
again_example = refl

abbrev once : Context
once = (handle_request_password_reset env limits fresh request asked).1

handle_request_password_reset_sound_example :
    let after = handle_request_password_reset env limits fresh request once in
    Untouched once.store after.1.store
    × (t : ResetAttempt) × IsAttempt env limits request t
    × ((after.0 ≡ page 429)
        ↔ (IsForm limits request after.1.session × IsLimited limits t once.store.attempts))
    × ((IsForm limits request after.1.session × (after.1.store.attempts ≡ t ∷ once.store.attempts))
        ⊎ (¬ (IsForm limits request after.1.session)
            × (after.1.store.attempts ≡ once.store.attempts)))
handle_request_password_reset_sound_example =
    handle_request_password_reset_sound env limits fresh request once
