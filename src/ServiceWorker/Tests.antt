-- ===== src/ServiceWorker/Tests.antt =====
-- Witnesses for static/sw.js.
use elvish_email.Base.{◌≡◌, refl, true, false, not, ◌&&◌, ◌||◌, none, some, [], ◌∷◌}
use elvish_email.Base.Text.{Text, lit, text_eq, starts_with, ends_with}
use elvish_email.Base.Dict.{get, restrict}
use elvish_email.ServiceWorker.{
  Url, Request, Response, served, Browser, Caches, cache_named, lookup_in, route_path,
  stale_while_revalidate_in_runtime, answer, activate, survives,
}
use elvish_email.ServiceWorker.Routes.{
  uses_no_cache, is_live_page, is_page_request, route_path-live,
}
use elvish_email.ServiceWorker.Caching.{HoldsOk, answer-HoldsOk}

route_path-live_example : uses_no_cache (route_path (lit "/api/v1/me") (lit "") (lit "cors")) ≡ (
    is_live_page (lit "/api/v1/me")
    || (starts_with (lit "/api/v1/me") (lit "/api/")
        && not
            (ends_with (lit "/api/v1/me") (lit ".css") || ends_with (lit "/api/v1/me") (lit ".js"))
        && not (is_page_request (lit "/api/v1/me") (lit "") (lit "cors"))))
route_path-live_example = route_path-live (lit "/api/v1/me") (lit "") (lit "cors")

-- A navigation below /api/ goes through the runtime cache.
api_navigation :
    (route_path (lit "/api/v1/me") (lit "document") (lit "navigate")
      ≡ stale_while_revalidate_in_runtime)
    × (uses_no_cache (route_path (lit "/api/v1/me") (lit "") (lit "cors")) ≡ true)
unfolding route_path text_eq starts_with ends_with lit
api_navigation = (refl, refl)

abbrev style_url : Url
style_url = record {
  hostname = lit "elvish.email";
  origin = lit "https://elvish.email";
  pathname = lit "/site.css";
}

abbrev style : Request
style = record {
  method = lit "GET";
  url = some style_url;
  href = lit "https://elvish.email/site.css";
  destination = lit "style";
  mode = lit "cors";
}

abbrev online : Browser
online = record {
  opens = true;
  matches = true;
  puts = true;
  network = some (served true (lit "body"));
  network_again = none;
}

abbrev quota_reached : Browser
quota_reached = record online { puts = false }

abbrev offline : Browser
offline = record online { network = none }

nothing-HoldsOk : HoldsOk []
nothing-HoldsOk = record { at = λ name href r e. absurd (no name href r e) }
  where
    no : (name href : Text) (r : Response) → get href (cache_named name []) ≡ some r → ⊥
    no name href r e = unfold get in cc (e)

answer-HoldsOk_example :
    HoldsOk
      (answer
        (lit "elvish-pc-1")
        (lit "elvish-rt-1")
        stale_while_revalidate_in_runtime
        online
        (lit "/feed.xml")
        []).1
answer-HoldsOk_example =
    answer-HoldsOk (lit "elvish-pc-1") (lit "elvish-rt-1") stale_while_revalidate_in_runtime online
      (lit "/feed.xml") [] nothing-HoldsOk

not_cached : (name href : Text) → lookup_in true name href [] ≡ none
unfolding get
not_cached name href = refl

abbrev two_versions : Caches
two_versions = (lit "elvish-pc-0", []) ∷ (lit "elvish-pc-1", []) ∷ []

kept_version :
    get (lit "elvish-pc-1") (activate (lit "elvish-pc-1") (lit "elvish-rt-1") two_versions)
    ≡ some []
unfolding get activate survives restrict lit text_eq starts_with
kept_version = refl
