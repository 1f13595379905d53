-- ===== src/Auth/Register/Tests.antt =====
-- The theorem on `register` of hushline/routes/auth.py at a concrete request.
use hushline.Common.{◌≡◌, refl, true, none, some, [], ◌∷◌}
use hushline.Auth.Session.{empty}
use hushline.Auth.Store.{InviteCode, Context, redirect, login}
use hushline.Auth.Samples.{env, store}
use hushline.Auth.Register.{Fresh, RegisterRequest, handle_register}
use hushline.Auth.Register.Sound.{Registered, handle_register_sound}

abbrev pub fresh : Fresh
fresh = record {
  user_id = 8;
  problem = "1 + 2 =";
  answer = "3";
  lower = λ t. t;
  code_commit_ok = true;
}

abbrev request : RegisterRequest
request = record {
  is_post = true;
  next = none;
  fields_valid = true;
  username = "cleo";
  password = "hunter2";
  invite_code = "welcome";
  captcha_answer = "3";
}

abbrev invite : InviteCode
invite = record { code = "welcome"; expiration_date = 100 }

abbrev before : Context
before = record {
  session = record empty { math_problem = some "1 + 2 ="; math_answer = some "3" };
  store = record store {
    registration_enabled = true;
    registration_codes_required = true;
    invite_codes = invite ∷ [];
  };
}

abbrev after : Context
after = (handle_register env fresh request before).1

registered : handle_register env fresh request before ≡ (redirect login, after)
unfolding handle_register
registered = refl

handle_register_sound_example :
    (after.session.math_answer ≡ some "3") × Registered env fresh request before.store after.store
handle_register_sound_example = handle_register_sound env fresh request before after registered
