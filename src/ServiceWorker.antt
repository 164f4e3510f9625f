-- ===== src/ServiceWorker.antt =====
-- static/sw.js: the service worker. A promise that may reject is an `Option`, and what the browser
-- answers (the network, the Cache API) is an argument.
pub mod Routes
pub mod Caching
mod Tests
use elvish_email.Base.{
  ℕ, Bool, true, false, not, ◌&&◌, ◌||◌, Option, none, some, List, [], ◌∷◌, ◌++◌, if◌then◌else◌,
}
use elvish_email.Base.Text.{Text, lit, text_eq, starts_with, ends_with}
use elvish_email.Base.Dict.{Dict, get, put, restrict}

pub record Url : Type 0 where
  pub hostname : Text
  pub origin : Text
  pub pathname : Text

-- `url` is `none` where `new URL(req.url)` throws.
pub record Request : Type 0 where
  pub method : Text
  pub url : Option Url
  pub href : Text
  pub destination : Text
  pub mode : Text

-- A response of the server with its `ok` and its body, or one that the worker makes.
pub data Response : Type 0 where
  served : Bool → Text → Response
  network_error : Response
  unavailable_page : Response

-- How the `fetch` listener answers.
pub data Handling : Type 0 where
  not_handled : Handling
  plain_fetch : Handling
  network_or_error : Handling
  network_or_page : Handling
  cache_first_in_precache : Handling
  stale_while_revalidate_in_runtime : Handling

abbrev fonts_host : Url → Bool
fonts_host u =
    text_eq u.hostname (lit "fonts.gstatic.com") || text_eq u.hostname (lit "fonts.googleapis.com")

-- The listener behind the test for the same origin.
unfoldable pub route_path : Text → Text → Text → Handling
route_path path dest mode =
    if text_eq path (lit "/admin")
      || starts_with path (lit "/admin/")
      || starts_with path (lit "/auth/")
    then network_or_error
    else if text_eq path (lit "/login") || text_eq path (lit "/register")
    then network_or_page
    else if text_eq path (lit "/mail") || text_eq path (lit "/mail/")
    then network_or_page
    else if starts_with path (lit "/dist/")
    then network_or_error
    else if ends_with path (lit ".css") || ends_with path (lit ".js")
    then cache_first_in_precache
    else if text_eq path (lit "/feed.xml")
        || text_eq path (lit "/feed.json")
        || text_eq path (lit "/atom.xml")
        || text_eq path (lit "/signing.pub")
    then stale_while_revalidate_in_runtime
    else if text_eq dest (lit "document") || text_eq mode (lit "navigate")
    then stale_while_revalidate_in_runtime
    else if ends_with path (lit ".md")
        || ends_with path (lit ".minisig")
        || ends_with path (lit ".html")
    then stale_while_revalidate_in_runtime
    else if starts_with path (lit "/api/")
    then network_or_error
    else stale_while_revalidate_in_runtime

route_url : Text → Url → Text → Text → Handling
route_url origin u dest mode =
    if fonts_host u
    then stale_while_revalidate_in_runtime
    else if not (text_eq u.origin origin)
    then not_handled
    else route_path u.pathname dest mode

route_get : Text → Option Url → Text → Text → Handling
unfolding route_url
route_get origin none dest mode = plain_fetch
route_get origin (some u) dest mode = route_url origin u dest mode

-- The listener of "fetch" in a worker of the origin.
unfoldable pub route : Text → Request → Handling
unfolding route_get
route origin req =
    if not (text_eq req.method (lit "GET"))
    then not_handled
    else route_get origin req.url req.destination req.mode

-- What the browser does while one request is handled: whether the cache opens, whether a lookup and
-- a write work, what the network gives, and what it gives if it is asked once more.
pub record Browser : Type 0 where
  pub opens : Bool
  pub matches : Bool
  pub puts : Bool
  pub network : Option Response
  pub network_again : Option Response

abbrev pub Cache : Type 0
Cache = Dict Response

abbrev pub Caches : Type 0
Caches = Dict Cache

abbrev pub is_ok : Response → Bool
is_ok (served ok body) = ok
is_ok network_error = false
is_ok unavailable_page = false

abbrev pub response_or : Response → Option Response → Response
response_or d none = d
response_or d (some r) = r

abbrev pub cache_named : Text → Caches → Cache
cache_named name cs = elim (get name cs) [ none ↦ [] | some c ↦ c ]

-- `cache.put`, where it works.
store : Bool → Text → Text → Response → Caches → Caches
store puts name href res cs = if puts then put name (put href res (cache_named name cs)) cs else cs

abbrev lookup_in : Bool → Text → Text → Caches → Option Response
lookup_in matches name href cs = if matches then get href (cache_named name cs) else none

fetched_first : Bool → Text → Text → Option Response → Caches → Response × Caches
unfolding store
fetched_first puts name href none cs = (network_error, cs)
fetched_first puts name href (some res) cs =
    (res, if is_ok res then store puts name href res cs else cs)

missed_first : Browser → Text → Text → Option Response → Caches → Response × Caches
unfolding fetched_first
missed_first b name href (some hit) cs = (hit, cs)
missed_first b name href none cs = fetched_first b.puts name href b.network cs

unfoldable pub cache_first : Browser → Text → Text → Caches → Response × Caches
unfolding missed_first
cache_first b name href cs =
    if b.opens
    then missed_first b name href (lookup_in b.matches name href cs) cs
    else (response_or network_error b.network, cs)

-- The promise `network`: a failed write makes it null like a failed fetch.
revalidated : Bool → Text → Text → Option Response → Caches → Option Response × Caches
unfolding store
revalidated puts name href none cs = (none, cs)
revalidated puts name href (some res) cs =
    if is_ok res
    then (if puts then (some res, store puts name href res cs) else (none, cs))
    else (some res, cs)

unfoldable pub stale_while_revalidate : Browser → Text → Text → Caches → Response × Caches
unfolding revalidated
stale_while_revalidate b name href cs =
    if b.opens
    then (let (fresh, cs') = revalidated b.puts name href b.network cs in
        elim (lookup_in b.matches name href cs) [
          | some hit ↦ (hit, cs')
          | none ↦ (response_or network_error fresh, cs')
        ])
    else (response_or network_error b.network, cs)

-- The answer to a request, `none` where the listener leaves it to the browser.
unfoldable pub answer : Text → Text → Handling → Browser → Text → Caches → Option Response × Caches
answer precache runtime not_handled b href cs = (none, cs)
answer precache runtime plain_fetch b href cs =
    (some (elim b.network [ some r ↦ r | none ↦ response_or network_error b.network_again ]), cs)
answer precache runtime network_or_error b href cs =
    (some (response_or network_error b.network), cs)
answer precache runtime network_or_page b href cs =
    (some (response_or unavailable_page b.network), cs)
answer precache runtime cache_first_in_precache b href cs =
    let (r, cs') = cache_first b precache href cs in (some r, cs')
answer precache runtime stale_while_revalidate_in_runtime b href cs =
    let (r, cs') = stale_while_revalidate b runtime href cs in (some r, cs')

-- The caches that "activate" keeps.
unfoldable pub survives : Text → Text → Text → Bool
survives precache runtime k = not (
    (starts_with k (lit "elvish-pc-") && not (text_eq k precache))
    || (starts_with k (lit "elvish-rt-") && not (text_eq k runtime)))

unfoldable pub activate : Text → Text → Caches → Caches
activate precache runtime cs = restrict (survives precache runtime) cs

-- "install": each address is added where its fetch gives an `ok` response.
unfoldable pub install : Text → List (Text × Option Response) → Caches → Caches
install precache [] cs = cs
install precache ((href, none) ∷ urls) cs = install precache urls cs
install precache ((href, some res) ∷ urls) cs =
    install precache urls
      (if is_ok res then put precache (put href res (cache_named precache cs)) cs else cs)
