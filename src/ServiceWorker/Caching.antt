-- ===== src/ServiceWorker/Caching.antt =====
-- What the strategies answer, and what they leave in the caches.
use elvish_email.Base.{
  ◌≡◌, inl, inr, Bool, true, false, Option, none, some, arith, if◌then◌else◌, Bool-cases,
}
use elvish_email.Base.Text.{Text, lit, text_eq_iff, text_eq_refl, starts_with}
use elvish_email.Base.Dict.{get, put, get-put, get-restrict}
use elvish_email.ServiceWorker.{
  Response, served, network_error, Handling, cache_first_in_precache,
  stale_while_revalidate_in_runtime, Browser, Cache, Caches, is_ok, response_or, cache_named, store,
  lookup_in, fetched_first, missed_first, cache_first, revalidated, stale_while_revalidate, answer,
  survives, activate,
}

-- Every response that a cache holds was `ok`.
pub record HoldsOk (cs : Caches) : Type 0 where
  pub at :
      (name href : Text) (r : Response) → get href (cache_named name cs) ≡ some r → is_ok r ≡ true

put-HoldsOk :
    (name href : Text) (res : Response) (cs : Caches)
    → is_ok res ≡ true
    → HoldsOk cs
    → HoldsOk (put name (put href res (cache_named name cs)) cs)
put-HoldsOk name href res cs e h = record {
  at = λ n k r g. ground (
    arith,
    get-put name n (put href res (cache_named name cs)) cs,
    get-put href k res (cache_named name cs),
    text_eq_iff name n,
    h.at n k r,
    h.at name k r,
    g,
    e,
  );
}

cache_first-HoldsOk :
    (b : Browser) (name href : Text) (cs : Caches)
    → HoldsOk cs
    → HoldsOk (cache_first b name href cs).1
unfolding cache_first
cache_first-HoldsOk b name href cs h = go b.opens (lookup_in b.matches name href cs) b.network
  where
    fetched : (net : Option Response) → HoldsOk (fetched_first b.puts name href net cs).1
    fetched none = h
    fetched (some res) = elim (Bool-cases (is_ok res)) [
      | inl e ↦ rw e (kept b.puts (put-HoldsOk name href res cs e h))
      | inr e ↦ rw e h
    ]
      where
        kept :
            (puts : Bool)
            → HoldsOk (put name (put href res (cache_named name cs)) cs)
            → HoldsOk (store puts name href res cs)
        kept true k = k
        kept false k = h

    missed : (hit net : Option Response) → HoldsOk (missed_first b name href hit cs).1
    missed (some r) net = h
    missed none net = fetched b.network

    go :
        (opens : Bool) (hit net : Option Response)
        → HoldsOk
            (if opens
              then missed_first b name href hit cs
              else (response_or network_error net, cs)).1
    go true hit net = missed hit net
    go false hit net = h

revalidated-HoldsOk :
    (puts : Bool) (name href : Text) (net : Option Response) (cs : Caches)
    → HoldsOk cs
    → HoldsOk (revalidated puts name href net cs).1
unfolding revalidated
revalidated-HoldsOk puts name href none cs h = h
revalidated-HoldsOk true name href (some res) cs h = elim (Bool-cases (is_ok res)) [
  | inl e ↦ rw e (put-HoldsOk name href res cs e h)
  | inr e ↦ rw e h
]
revalidated-HoldsOk false name href (some res) cs h = elim (Bool-cases (is_ok res)) [
  | inl e ↦ rw e h
  | inr e ↦ rw e h
]

stale_while_revalidate-HoldsOk :
    (b : Browser) (name href : Text) (cs : Caches)
    → HoldsOk cs
    → HoldsOk (stale_while_revalidate b name href cs).1
unfolding stale_while_revalidate
stale_while_revalidate-HoldsOk b name href cs h =
    go b.opens (lookup_in b.matches name href cs) (revalidated b.puts name href b.network cs)
      (revalidated-HoldsOk b.puts name href b.network cs h)
  where
    go :
        (opens : Bool) (hit : Option Response) (r : Option Response × Caches)
        → HoldsOk r.1
        → HoldsOk
            (if◌then◌else◌ {A = Response × Caches} opens
              (elim hit [ some x ↦ (x, r.1) | none ↦ (response_or network_error r.0, r.1) ])
              (response_or network_error b.network, cs)).1
    go true none r k = k
    go true (some x) r k = k
    go false hit r k = h

-- If the caches hold only ok responses, then they do after any request is answered, whatever it is
-- and whatever the browser does.
pub answer-HoldsOk :
    (precache runtime : Text) (how : Handling) (b : Browser) (href : Text) (cs : Caches)
    → HoldsOk cs
    → HoldsOk (answer precache runtime how b href cs).1
unfolding answer
answer-HoldsOk precache runtime cache_first_in_precache b href cs h =
    cache_first-HoldsOk b precache href cs h
answer-HoldsOk precache runtime stale_while_revalidate_in_runtime b href cs h =
    stale_while_revalidate-HoldsOk b runtime href cs h
answer-HoldsOk precache runtime _ b href cs h = h

-- A file that was fetched with ok and stored is served from then on, whatever the network gives,
-- while the cache opens and lookups work, and serving it changes no cache.
pub cache_first-again :
    (b c : Browser) (name href body : Text) (cs : Caches)
    → b.opens ≡ true
    → b.puts ≡ true
    → b.network ≡ some (served true body)
    → lookup_in b.matches name href cs ≡ none
    → c.opens ≡ true
    → c.matches ≡ true
    → let after = (cache_first b name href cs).1 in
      cache_first c name href after ≡ (served true body, after)
unfolding cache_first
cache_first-again b c name href body cs o p n m oc mc = ground (
  arith,
  o,
  p,
  n,
  m,
  oc,
  mc,
  text_eq_refl name,
  text_eq_refl href,
  get-put name name (put href (served true body) (cache_named name cs)) cs,
  get-put href href (served true body) (cache_named name cs),
)

-- With nothing cached and a cache that cannot be written, staleWhileRevalidate replaces a response
-- that the network did give by a network error; cacheFirst gives the response.
pub stale_while_revalidate-unwritable :
    (b : Browser) (name href body : Text) (cs : Caches)
    → b.opens ≡ true
    → b.puts ≡ false
    → b.network ≡ some (served true body)
    → lookup_in b.matches name href cs ≡ none
    → ((stale_while_revalidate b name href cs).0 ≡ network_error)
      × ((cache_first b name href cs).0 ≡ served true body)
unfolding stale_while_revalidate cache_first
stale_while_revalidate-unwritable b name href body cs o p n m =
    (ground (arith, o, p, n, m), ground (arith, o, p, n, m))

-- Every cache that activate leaves holds what it held, and those of the worker's two families are
-- the current ones.
pub activate-current :
    (precache runtime k : Text) (cs : Caches) (c : Cache)
    → get k (activate precache runtime cs) ≡ some c
    → (get k cs ≡ some c)
      × (starts_with k (lit "elvish-pc-") ≡ true → k ≡ precache)
      × (starts_with k (lit "elvish-rt-") ≡ true → k ≡ runtime)
unfolding activate survives
activate-current precache runtime k cs c e =
    let law = get-restrict (survives precache runtime) k cs in
    (
      ground (arith, law, e),
      λ p. ground (arith, law, e, p, text_eq_iff k precache),
      λ p. ground (arith, law, e, p, text_eq_iff k runtime),
    )
