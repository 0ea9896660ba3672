-- ===== src/Tests/Profile.antt =====
-- The profile, the signed-in user and the tracking of orders on concrete inputs.
use mathlib.Core.List.{Memᴰ}
use runc.Prelude.{ℕ, ◌≤◌, String, ◌≡◌, refl, ◌⊎◌, true, false, none, some, List, [], ◌∷◌}
use runc.Prelude.Http.{Outcome, ok}
use runc.Prelude.Commas.{split_comma}
use runc.Challenges.Enabled.{enabled, Surroundings}
use runc.Sanitizing.{is_enabled}
use runc.Tests.Auth.{services, server, empty_board}
use runc.Account.Profile.{
  ProfileRequest, sanitize_legacy, sanitize_legacy_on, match_from, update_user_profile,
}
use runc.Account.Profile.Updates.{IsRenamed, update_user_profile-users}
use runc.Account.Current.{Data, field, trim, requested_fields, standard_fields, data_of, base_user}
use runc.Account.Current.Fields.{base_user_lem}
use runc.Shop.Tracking.{only_words, characters, where_order, tracked_id, track_order}
use runc.Shop.Tracking.Quoting.{AreWords, track_order-AreWords}

removed_once : sanitize_legacy "<<a>ascript>" ≡ "<script>"
unfolding sanitize_legacy sanitize_legacy_on match_from
removed_once = refl

abbrev a_request : ProfileRequest
a_request = record {
  token = some "ab";
  origin = none;
  referer = none;
  remote_address = "::1";
  username = "bender";
}

abbrev docker : Surroundings
docker = record { is_docker = true; is_heroku = false; is_windows = false; is_gitpod = false }

abbrev clean : String → String
clean s = s

update_user_profile-users_example :
    ((update_user_profile services clean enabled docker a_request server).1.users ≡ server.users)
    ⊎ IsRenamed services clean enabled docker a_request server
        (update_user_profile services clean enabled docker a_request server).1.users
update_user_profile-users_example =
    update_user_profile-users services clean enabled docker a_request server

abbrev some_data : Data
some_data = ("id", "2") ∷ ("email", "jim@shop") ∷ ("password", "#") ∷ []

asked_for_password :
    field "password" (base_user true (some some_data) (some "email, password")) ≡ some "#"
unfolding base_user requested_fields split_comma trim
asked_for_password = refl

base_user_lem_example :
    (true ≡ true)
    × (field "password" (data_of (some some_data)) ≡ some "#")
    × (Memᴰ "password" (requested_fields (some "email, password"))
        ⊎ ((requested_fields (some "email, password") ≡ [])
            × Memᴰ "password" standard_fields
            × (◌≡◌ {A = String} "password" "password" → ⊥)))
base_user_lem_example =
    base_user_lem true (some some_data) (some "email, password") "password" "#" asked_for_password

abbrev all_orders : String → Outcome (List ℕ)
all_orders condition = ok (1 ∷ 2 ∷ [])

track_order-AreWords_example :
    ((is_enabled enabled docker "reflectedXssChallenge" empty_board ≡ false)
      → ((id : String) → AreWords id → all_orders (where_order id) ≡ all_orders (where_order id))
      → track_order enabled docker all_orders "1'||'" empty_board
        ≡ track_order enabled docker all_orders "1'||'" empty_board)
    × ((is_enabled enabled docker "reflectedXssChallenge" empty_board ≡ true)
        → characters (tracked_id enabled docker all_orders "1'||'" empty_board) ≤ 62)
track_order-AreWords_example =
    track_order-AreWords enabled docker all_orders all_orders "1'||'" empty_board

quote_removed : only_words "1'||true" ≡ "1true"
unfolding only_words
quote_removed = refl
