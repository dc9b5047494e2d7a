-- ===== src/CachingProxy/Session/Ends.antt =====
-- The end of a turn of `minion` (`Web Proxy_C/Proxy with Cache/main.cpp`): the response is stored and
-- the session goes on or closes.
use tiny_projects_and_tools.Base.{
  ℕ, ◌≡◌, refl, ◌∙◌, Bool, true, false, not, ◌||◌, if◌then◌else◌, List, Option, none, some, arith,
  inl, inr, Bool-cases,
}
use tiny_projects_and_tools.CachingProxy.Header.{Header}
use tiny_projects_and_tools.CachingProxy.Cache.{Cache}
use tiny_projects_and_tools.CachingProxy.Session.World.{World, Result, ok, ended, closed, continue}
use tiny_projects_and_tools.CachingProxy.Session.Fetch.{
  is_storable, put_cached, store, finish, after_put,
}

-- The end of a turn sends nothing.
pub finish-out :
    (close : Bool) (h : Header) (w : World)
    → ((finish close h w).1.to_client ≡ w.to_client)
      × ((finish close h w).1.to_server ≡ w.to_server)
      × ((finish close h w).1.cache ≡ w.cache)
unfolding finish
finish-out close h w = elim (Bool-cases (close || h.chunked || not h.persistent)) [
  | inl ends ↦ rw ends (refl, refl, refl)
  | inr stays ↦ rw stays (refl, refl, refl)
]

pub finish-result :
    (close : Bool) (h : Header) (w : World)
    → h.chunked ≡ false
    → (finish close h w).0 ≡ (if close || not h.persistent then ended closed else ok tt)
unfolding finish
finish-result close h w whole = ground (arith, whole)

pub store-put :
    (key : List ℕ) (h : Header) (code body : List ℕ) (w : World)
    → is_storable h code body ≡ true
    → store key h code body w ≡ put_cached key h body w
unfolding store
store-put key h code body w e = rw e refl

abbrev pub SendsNothing : World → World → Type 0
SendsNothing w w' = (w'.to_client ≡ w.to_client) × (w'.to_server ≡ w.to_server)

after_put-out : (w : World) (o : Option (Cache (List ℕ))) → SendsNothing w (after_put w o).1
unfolding after_put
after_put-out w none = (refl, refl)
after_put-out w (some c) = (refl, refl)

pub store-out :
    (key : List ℕ) (h : Header) (code body : List ℕ) (w : World)
    → SendsNothing w (store key h code body w).1
unfolding store put_cached
store-out key h code body w = elim (Bool-cases (is_storable h code body)) [
  | inl stores ↦ rw stores (after_put-out w _)
  | inr passes ↦ rw passes (refl, refl)
]

pub continue-out :
    (close : Bool) (h : Header) (w : World) (p : Result (Unit {0}) × World)
    → SendsNothing w p.1
    → SendsNothing w (continue p (λ _. finish close h)).1
continue-out close h w (ok u, w') s =
    let (client, server, _) = finish-out close h w' in (client ∙ s.0, server ∙ s.1)
continue-out close h w (ended e, w') s = s
