-- ===== src/ServiceWorker/Routes.antt =====
-- Which requests may be answered from a cache.
use elvish_email.Base.{◌≡◌, refl, Bool, true, false, not, ◌&&◌, ◌||◌, some, arith}
use elvish_email.Base.Text.{Text, lit, text_eq, text_eq_iff, starts_with, ends_with}
use elvish_email.ServiceWorker.{
  Request, Url, Handling, not_handled, cache_first_in_precache, stale_while_revalidate_in_runtime,
  route_path, route,
}

-- A handling that neither reads nor writes a cache.
abbrev pub uses_no_cache : Handling → Bool
uses_no_cache cache_first_in_precache = false
uses_no_cache stale_while_revalidate_in_runtime = false
uses_no_cache _ = true

-- The pages of the sign-in, the administration and the mail shell, and the built bundles.
abbrev pub is_live_page : Text → Bool
is_live_page path =
    text_eq path (lit "/admin")
    || starts_with path (lit "/admin/")
    || starts_with path (lit "/auth/")
    || text_eq path (lit "/login")
    || text_eq path (lit "/register")
    || text_eq path (lit "/mail")
    || text_eq path (lit "/mail/")
    || starts_with path (lit "/dist/")

abbrev pub is_page_request : Text → Text → Text → Bool
is_page_request path dest mode =
    text_eq dest (lit "document")
    || text_eq mode (lit "navigate")
    || ends_with path (lit ".md")
    || ends_with path (lit ".minisig")
    || ends_with path (lit ".html")

-- No feed lies under /api/.
not_api :
    (path feed : Text)
    → text_eq path feed ≡ true
    → starts_with feed (lit "/api/") ≡ false
    → starts_with path (lit "/api/") ≡ false
not_api path feed e h = rw ((text_eq_iff path feed).0 e) h

feed_not_api :
    (path : Text)
    → (text_eq path (lit "/feed.xml")
        || text_eq path (lit "/feed.json")
        || text_eq path (lit "/atom.xml")
        || text_eq path (lit "/signing.pub"))
      ≡ true
    → starts_with path (lit "/api/") ≡ false
feed_not_api path h =
    let a : starts_with (lit "/feed.xml") (lit "/api/") ≡ false = unfold starts_with lit in refl in
    let b : starts_with (lit "/feed.json") (lit "/api/") ≡ false = unfold starts_with lit in refl in
    let c : starts_with (lit "/atom.xml") (lit "/api/") ≡ false = unfold starts_with lit in refl in
    let d : starts_with (lit "/signing.pub") (lit "/api/") ≡ false =
      unfold starts_with lit in refl in
    ground (
      arith,
      a,
      b,
      c,
      d,
      not_api path (lit "/feed.xml"),
      not_api path (lit "/feed.json"),
      not_api path (lit "/atom.xml"),
      not_api path (lit "/signing.pub"),
    )

-- A path of the worker's origin is kept away from the caches exactly when it is a live page, or
-- lies under /api/ with no suffix that is cached and is not asked for as a document.
pub route_path-live :
    (path dest mode : Text)
    → uses_no_cache (route_path path dest mode) ≡ (
        is_live_page path
        || (starts_with path (lit "/api/")
            && not (ends_with path (lit ".css") || ends_with path (lit ".js"))
            && not (is_page_request path dest mode)))
unfolding route_path
route_path-live path dest mode = ground (arith, feed_not_api path)

abbrev pub is_handled : Handling → Bool
is_handled not_handled = false
is_handled _ = true

route_path-handled : (path dest mode : Text) → is_handled (route_path path dest mode) ≡ true
unfolding route_path
route_path-handled path dest mode = ground arith

-- A request that is no GET, or that goes to another origin than the worker's and the two font
-- hosts, is left to the browser; every other request with a good address is answered by the worker.
pub route-handled :
    (origin : Text) (req : Request) (u : Url)
    → req.url ≡ some u
    → is_handled (route origin req) ≡ (
        text_eq req.method (lit "GET")
        && (text_eq u.hostname (lit "fonts.gstatic.com")
            || text_eq u.hostname (lit "fonts.googleapis.com")
            || text_eq u.origin origin))
unfolding route
route-handled origin req u e =
    rw e (ground (arith, route_path-handled u.pathname req.destination req.mode))
