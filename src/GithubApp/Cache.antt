-- ===== src/GithubApp/Cache.antt =====
-- GetInstallationToken (internal/githubapp/client.go), called again for the same installation.
use agent_frei_igi.Prelude.{
  ℕ, ◌+◌, ◌<◌, ◌≡◌, refl, ◌∙◌, Text, Option, none, some, Result, ok, err, arith, lt→ltb,
}
use agent_frei_igi.GithubApp.{
  TokenCacheEntry, Client, cached, minute, remember, fresh_entry, cached_or_fetched,
  fetch_installation_token, get_installation_token,
}

remember-cached :
    (id : ℕ) (r : Result TokenCacheEntry × Client) {t : Text} {e : TokenCacheEntry}
    → (remember id r).0 ≡ ok t
    → cached id (remember id r).1.token_cache ≡ some e
    → e.token ≡ t
unfolding cached
remember-cached id (err f, c) h there = cc
remember-cached id (ok entry, c) h there = ground arith

fresh-cached :
    (now : ℕ) (y : Option TokenCacheEntry) {t : Text} {e : TokenCacheEntry}
    → fresh_entry now y ≡ some t
    → y ≡ some e
    → e.token ≡ t
fresh-cached now none h there = cc
fresh-cached now (some e) h there = ground arith

cached_or_fetched-cached :
    (id : ℕ) (c : Client) (x : Option Text) {t : Text} {e : TokenCacheEntry}
    → fresh_entry c.now (cached id c.token_cache) ≡ x
    → (cached_or_fetched id x c).0 ≡ ok t
    → cached id (cached_or_fetched id x c).1.token_cache ≡ some e
    → e.token ≡ t
cached_or_fetched-cached id c none f h there =
    remember-cached id (fetch_installation_token c) h there
cached_or_fetched-cached id c (some s) f h there =
    fresh-cached c.now (cached id c.token_cache) f there ∙ ground arith

-- A token that was handed out is handed out again, without a request, at any time that is more than a
-- minute before the expiry of the entry that the cache then has for the installation.
pub token_reused :
    (id now : ℕ) (c : Client) {t : Text} {e : TokenCacheEntry}
    → (get_installation_token id c).0 ≡ ok t
    → cached id (get_installation_token id c).1.token_cache ≡ some e
    → now + minute < e.expires_at
    → let c' : Client = record (get_installation_token id c).1 { now = now } in
      get_installation_token id c' ≡ (ok t, c')
unfolding get_installation_token
token_reused id now c {t} {e} h there early =
    let same : e.token ≡ t =
      cached_or_fetched-cached id c (fresh_entry c.now (cached id c.token_cache)) refl h there in
    let fits = lt→ltb (now + minute) e.expires_at early in rw (there, fits, same) refl
