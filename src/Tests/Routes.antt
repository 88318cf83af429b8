-- ===== src/Tests/Routes.antt =====
-- The theorem on routes, for a player whose profile is asked for.
use yggdrasil_authentication.Base.{◌≡◌, refl, none, text}
use yggdrasil_authentication.Types.{http_error}
use yggdrasil_authentication.Util.Slices.{here, there}
use yggdrasil_authentication.Errors.{split, handle_error, handle_api_error}
use yggdrasil_authentication.Routes.{Route, get, account_player_name_to_id, routes}
use yggdrasil_authentication.Routes.Kinds.{
  Matches, same_segment, any_segment, done, is_front, handle_error-routes,
}

abbrev player : Route
player = record {
  method = get;
  path = "/users/profiles/minecraft/:playerName";
  endpoint = account_player_name_to_id;
}

steve-Matches : Matches player (text "/users/profiles/minecraft/steve")
unfolding split text
steve-Matches =
    same_segment
      (same_segment (same_segment (same_segment (any_segment (text "playerName") refl done))))

handle_error-routes_example :
    handle_error (http_error 404 none) (text "/users/profiles/minecraft/steve")
    ≡ handle_api_error (text "/users/profiles/minecraft/steve") (http_error 404 none)
unfolding routes is_front
handle_error-routes_example =
    handle_error-routes player (text "/users/profiles/minecraft/steve") (http_error 404 none)
      (there (
        there (
          there (
            there (
              there (
                there (
                  there (
                    there (
                      there (
                        there (
                          there (
                            there (
                              there (
                                there (
                                  there (
                                    there (
                                      there (
                                        there (
                                          there (
                                            there (
                                              there (
                                                there (
                                                  there (
                                                    there (
                                                      there (
                                                        there (
                                                          there (
                                                            there (
                                                            there (
                                                            there (
                                                            there (
                                                            there (
                                                            there (
                                                            here
                                                            refl))))))))))))))))))))))))))))))))))
      steve-Matches
