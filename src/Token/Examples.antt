-- ===== src/Token/Examples.antt =====
-- The theorems on tokens at a small shop: one client, one access token that came with a refresh
-- token, and the calls that follow.
use oauth4os.Common.{ℕ, String, ◌≡◌, refl, false, none, some, [], ◌∷◌}
use oauth4os.Common.Dict
use oauth4os.Common.Text.{join}
use oauth4os.Token.State.{Token, Manager, Draw, Form, TokenBody, new_manager}
use oauth4os.Token.Clients.{authenticate_client, credentials, register_client}
use oauth4os.Token.Grant.{access_id, create_token_for_client}
use oauth4os.Token.Refresh.{
  handle_refresh_token, invalid_grant, redeem, reissue, narrow, revoke_family,
}
use oauth4os.Token.Revoke.{revoke_token}
use oauth4os.Token.Maintain.{is_valid, touch_token}
use oauth4os.Token.Invariant.{Inv}
use oauth4os.Token.Issuing.{FreshDraw}
use oauth4os.Token.Trace.{Call, registers, creates, touches, step, Reach, start, next, Reach-Inv}
use oauth4os.Token.Rotation.{AllRevoked, Redeems}
use oauth4os.Token.Replay.{Granted, Rotation, refresh-Rotation}
use oauth4os.Token.Reuse.{at_once, after_call, refresh_replay}
use oauth4os.Token.Forever.{Later, here, then_call, revoked_forever}
use oauth4os.Token.Gaps.{refresh_after_revoke}
use oauth4os.Token.Access.{Outcome, client_credentials-Outcome}

abbrev first_draw : Draw
first_draw = record { now = 63000000000000000000; token_id = "a1"; refresh_id = "a2"; jti = "a3" }

abbrev second_draw : Draw
second_draw = record { now = 63000000001000000000; token_id = "b1"; refresh_id = "b2"; jti = "b3" }

abbrev opening : Call
opening = registers "app" "hush" ("read" ∷ "write" ∷ []) ("https://app/cb" ∷ [])

abbrev first_sale : Call
first_sale = creates first_draw "app" ("read" ∷ "write" ∷ [])

abbrev shop : Manager
shop = step (step new_manager opening) first_sale

abbrev form : Form
form = record {
  grant_type = "refresh_token";
  client_id = "app";
  client_secret = "hush";
  scope = "";
  refresh_token = "rtk_a2";
  token = "tok_a1";
  token_type_hint = "";
  basic_auth = none;
}

first_draw_fresh : FreshDraw (step new_manager opening) first_draw
unfolding step new_manager register_client access_id Dict.get Dict.put Dict.empty
first_draw_fresh c scopes born = record { unborn = refl; unused = refl }

shop-Reach : Reach shop
shop-Reach = next first_sale (next opening start tt) first_draw_fresh

shop-Inv : Inv shop
shop-Inv = Reach-Inv shop-Reach

second_draw_fresh : FreshDraw shop second_draw
unfolding step new_manager register_client create_token_for_client access_id Dict.get Dict.put
    Dict.empty
second_draw_fresh c scopes born = record { unborn = refl; unused = refl }

Reach-Inv_example : Inv shop
Reach-Inv_example = Reach-Inv shop-Reach

abbrev second_shop : Manager
second_shop = (handle_refresh_token shop form second_draw).0

abbrev second_body : TokenBody
second_body = record {
  access_token = "tok_b1";
  token_type = "Bearer";
  expires_in = 3600;
  refresh_token = "rtk_b2";
  scope = "read write";
}

second_won : Granted shop form second_draw second_shop second_body
unfolding handle_refresh_token step new_manager register_client create_token_for_client access_id
    Dict.get Dict.put Dict.empty Dict.adjust Dict.remove authenticate_client credentials narrow join
    revoke_family redeem reissue
second_won = refl

-- what is left after a touch of the new token
abbrev busy_shop : Manager
busy_shop = step second_shop (touches 63000000002000000000 "tok_b1" 0)

client_known : authenticate_client busy_shop (credentials form).0 (credentials form).1 ≡ none
unfolding handle_refresh_token step new_manager register_client create_token_for_client access_id
    Dict.get Dict.put Dict.empty Dict.adjust Dict.remove authenticate_client credentials narrow join
    revoke_family redeem reissue touch_token
client_known = refl

refresh_replay_example :
    let (caught, reply) = handle_refresh_token busy_shop form second_draw in
    (reply ≡ invalid_grant "refresh token reuse detected — all tokens revoked")
    × AllRevoked caught (credentials form).0
    × ((id : String) (tok : Token) (s : Manager) (now : ℕ)
        → Dict.get caught.tokens id ≡ some tok
        → tok.client_id ≡ (credentials form).0
        → Later id caught s
        → is_valid s now id ≡ false)
refresh_replay_example =
    refresh_replay shop form form second_draw second_draw second_shop busy_shop second_body shop-Inv
      second_draw_fresh refl second_won
      (after_call (touches 63000000002000000000 "tok_b1" 0) at_once tt) refl client_known

refresh-Rotation_example : Rotation shop form second_draw second_shop second_body
refresh-Rotation_example =
    refresh-Rotation shop form second_draw second_shop second_body second_draw_fresh refl second_won

abbrev old_token : Token
old_token = record {
  id = "tok_a1";
  client_id = "app";
  scopes = "read" ∷ "write" ∷ [];
  created_at = 63000000000000000000;
  expires_at = 63000003600000000000;
  revoked = false;
  refresh_token = "rtk_a2";
  refresh_expires_at = 63002592000000000000;
  family_created_at = 63000000000000000000;
  dpop_thumbprint = "";
}

old_stored : Dict.get shop.tokens "tok_a1" ≡ some old_token
unfolding step new_manager register_client create_token_for_client access_id Dict.get Dict.put
    Dict.empty
old_stored = refl

old_Redeems : Redeems shop 63000000001000000000 "app" "rtk_a2" "tok_a1" old_token
unfolding step new_manager register_client create_token_for_client access_id Dict.get Dict.put
    Dict.empty
old_Redeems = record {
  fresh = refl;
  known = refl;
  stored = refl;
  own = refl;
  in_time = refl;
  in_life = refl;
}

shop_known : authenticate_client shop "app" "hush" ≡ none
unfolding step new_manager register_client create_token_for_client Dict.get Dict.put Dict.empty
    authenticate_client
shop_known = refl

form-credentials : credentials form ≡ ("app", "hush")
unfolding credentials
form-credentials = refl

refresh_after_revoke_example :
    is_valid (revoke_token shop "tok_a1").0 63000000001000000000 "tok_a1" ≡ false
unfolding credentials
refresh_after_revoke_example =
    (refresh_after_revoke shop form second_draw "tok_a1" old_token shop_known old_Redeems refl).0

abbrev next_day : ℕ
next_day = 63000086400000000000

revoked_forever_example :
    is_valid (step (revoke_token shop "tok_a1").0 (touches next_day "tok_a1" 0)) next_day "tok_a1"
    ≡ false
revoked_forever_example =
    revoked_forever shop (step (revoke_token shop "tok_a1").0 (touches next_day "tok_a1" 0))
      next_day "tok_a1" (then_call (touches next_day "tok_a1" 0) here tt)

client_credentials-Outcome_example : Outcome shop form second_draw
client_credentials-Outcome_example = client_credentials-Outcome shop form second_draw

abbrev anonymous_form : Form
anonymous_form = record form { client_id = ""; client_secret = "" }
