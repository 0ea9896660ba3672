-- ===== src/Tests/Account.antt =====
-- Captchas, the list of users, the erasure of data and the checks of the configuration on concrete
-- inputs.
use runc.Prelude.{
  ℕ, ◌≤◌, String, ◌≡◌, refl, ◌↔◌, Bool, true, false, Option, none, some, List, [], ◌∷◌, ◌++◌,
}
use runc.Prelude.Int.{◌+ℤ◌, ◌-ℤ◌, ◌*ℤ◌}
use runc.Prelude.Numerals.{to_string}
use runc.Prelude.Http.{ok, send}
use runc.Prelude.Texts.{contains, starts_with}
use runc.Database.{list_orm}
use runc.Auth.Users.{User, token_of}
use runc.Tests.Auth.{server, empty_board}
use runc.Account.Captcha.{
  Captcha, Store, Draw, times, minus, evaluate, captcha_of, captchas, verify_captcha,
}
use runc.Account.Captcha.Passing.{Passes, further, verify_captcha-captchas}
use runc.Account.Listing.{masked, Decoded, ListedUser, retrieve_user_list}
use runc.Account.Listing.Masking.{retrieve_user_list-AreAlike}
use runc.Account.Erasure.{Erasure, Body, Rendered, page, request_of, slice, erasure_page, post}
use runc.Account.Erasure.Layout.{characters, IsAllowed, post-IsAllowed}
use runc.Startup.{
  ProductConfig, MemoryConfig, Combos, returned, validate_config,
  check_minimum_required_number_of_products, check_unambiguous_mandatory_special_products,
  check_necessary_extra_keys_on_special_products, check_unique_special_on_products,
  check_minimum_required_number_of_memories, check_unambiguous_mandatory_special_memories,
  check_special_memories_have_no_user_associated, check_unique_special_on_memories,
  check_for_illogical_combos,
}
use runc.Startup.Checks.{IsValid}
use runc.Startup.Validity.{validate_config_iff}

abbrev no_captchas : Store
no_captchas = record { next_id = 0; captchas = []; image_captchas = [] }

abbrev a_draw : Draw
a_draw = record {
  first_term = 2;
  second_term = 4;
  third_term = 6;
  first_operator = minus;
  second_operator = times;
}

abbrev first_captcha : Captcha
first_captcha = record { captcha_id = 0; captcha = "3-5*7"; answer = "-32" }

sent_first : (captchas list_orm a_draw no_captchas).0 ≡ ok (send 200 first_captcha)
unfolding captchas captcha_of evaluate to_string ◌+ℤ◌ ◌-ℤ◌ ◌*ℤ◌
sent_first = refl

verify_captcha-captchas_example :
    Passes "-32" "-32"
      (verify_captcha list_orm 0 "-32"
        (further list_orm (a_draw ∷ []) (captchas list_orm a_draw no_captchas).1)).0
verify_captcha-captchas_example =
    verify_captcha-captchas list_orm a_draw no_captchas first_captcha tt sent_first (a_draw ∷ [])
      "-32"

abbrev bender : User
bender = record {
  id = 3;
  username = "";
  email = "bender@juice-sh.op";
  password = "abc";
  role = "customer";
  deluxe_token = "";
  totp_secret = "";
  profile_image = "";
  deleted = false;
}

abbrev other_bender : User
other_bender = record bender { password = "xyz" }

abbrev decode_none : String → Option Decoded
decode_none token = none

abbrev listed_bender : ListedUser
listed_bender = record { user = record bender { password = "***" }; last_login_time = none }

lists_bender :
    retrieve_user_list list_orm decode_none server.auth (bender ∷ [])
    ≡ send 200 (listed_bender ∷ [])
unfolding retrieve_user_list masked token_of
lists_bender = refl

lists_other :
    retrieve_user_list list_orm decode_none server.auth (other_bender ∷ [])
    ≡ send 200 (listed_bender ∷ [])
unfolding retrieve_user_list masked token_of
lists_other = refl

retrieve_user_list-AreAlike_example : listed_bender ∷ [] ≡ listed_bender ∷ []
retrieve_user_list-AreAlike_example =
    retrieve_user_list-AreAlike list_orm decode_none server.auth (bender ∷ []) (other_bender ∷ [])
      (listed_bender ∷ []) (listed_bender ∷ [])
      (refl, (refl, refl, (refl, refl, (refl, refl, tt))), tt, tt) lists_bender lists_other

abbrev same_path : String → String
same_path layout = layout

abbrev template : Body → Rendered
template body = record { error = none; html = some "hello" }

abbrev a_body : Body
a_body = record { layout = some "view"; email = ""; security_answer = "" }

abbrev no_requests : Erasure
no_requests = record { requests = []; board = empty_board }

page_posted :
    (post list_orm same_path template (some 3) "::1" a_body no_requests).answer ≡ page "hello......"
unfolding post erasure_page slice contains starts_with
page_posted = refl

post-IsAllowed_example :
    ((u : ℕ) × (id : ℕ) × (◌≡◌ {A = Option ℕ} (some 3) (some u))
      × ((post list_orm same_path template (some 3) "::1" a_body no_requests).state.requests
          ≡ [] ++ request_of u id ∷ []))
    × ((post list_orm same_path template (some 3) "::1" a_body no_requests).cleared ≡ true)
    × IsAllowed list_orm same_path template a_body "hello......"
    × (characters "hello......" ≤ 106)
post-IsAllowed_example =
    post-IsAllowed list_orm same_path template (some 3) "::1" a_body no_requests "hello......"
      page_posted

abbrev plain : ProductConfig
plain = record {
  use_for_christmas_special_challenge = false;
  url_for_product_tampering_challenge = false;
  file_for_retrieve_blueprint_challenge = false;
  exif_for_blueprint_challenge = false;
  keywords_for_pastebin_data_leak_challenge = false;
}

abbrev four_products : List ProductConfig
four_products =
    record plain { use_for_christmas_special_challenge = true }
    ∷ record plain { url_for_product_tampering_challenge = true }
    ∷ record plain {
      file_for_retrieve_blueprint_challenge = true;
      exif_for_blueprint_challenge = true;
    }
    ∷ record plain { keywords_for_pastebin_data_leak_challenge = true }
    ∷ []

abbrev a_memory : MemoryConfig
a_memory = record {
  geo_stalking_meta_security_question = true;
  geo_stalking_meta_security_answer = true;
  geo_stalking_visual_security_question = false;
  geo_stalking_visual_security_answer = false;
  user = none;
}

abbrev two_memories : List MemoryConfig
two_memories =
    a_memory
    ∷ record a_memory {
      geo_stalking_meta_security_question = false;
      geo_stalking_visual_security_question = true;
      geo_stalking_visual_security_answer = true;
      user = some "emma";
    }
    ∷ []

abbrev a_config : Combos
a_config = record {
  restrict_to_tutorials_first = false;
  hacking_instructor_enabled = true;
  show_flags_in_notifications = false;
  show_solved_notifications = true;
  show_country_details_in_notifications = "none";
  notifications_url = false;
  poll_frequency_seconds = none;
}

accepted : validate_config true four_products two_memories a_config true ≡ returned true
unfolding validate_config check_minimum_required_number_of_products
    check_unambiguous_mandatory_special_products check_necessary_extra_keys_on_special_products
    check_unique_special_on_products check_minimum_required_number_of_memories
    check_unambiguous_mandatory_special_memories check_special_memories_have_no_user_associated
    check_unique_special_on_memories check_for_illogical_combos
accepted = refl

validate_config_iff_example :
    (validate_config true four_products two_memories a_config true ≡ returned true)
    ↔ (◌≡◌ {A = Bool} true true × IsValid four_products two_memories a_config)
validate_config_iff_example = validate_config_iff true four_products two_memories a_config true
