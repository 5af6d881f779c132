-- ===== src/GeeRpc/Registry.antt =====
-- geerpc/registry/registry.go: the servers that have sent a heartbeat within the timeout. Times are
-- counts of one unit; a request reads the clock once.
pub mod Alive
pub mod Heartbeat
use days_project.Common.{
  ℕ, ◌+◌, List, [], ◌∷◌, ◌++◌, Option, none, some, Bool, true, false, Text, codes, text_dec, ite,
  GoMap, lookup, insert, delete, join, ltb, if◌then◌else◌, ◌==◌, ◌||◌, ℕ_discrete,
}

-- `ServerItem`
pub record ServerItem : Type 0 where
  pub addr : Text
  pub start : ℕ

-- `GeeRegistry`
pub record GeeRegistry : Type 0 where
  pub timeout : ℕ
  pub servers : GoMap Text ServerItem

-- `New`
unfoldable pub new : ℕ → GeeRegistry
new timeout = record { timeout = timeout; servers = [] }

-- `putServer` at the time `now`
unfoldable pub put_server : ℕ → Text → GeeRegistry → GeeRegistry
put_server now addr r = elim (lookup text_dec addr r.servers) [
  | none ↦ record r {
    servers = insert text_dec addr (record { addr = addr; start = now }) r.servers;
  }
  | some s ↦ record r { servers = insert text_dec addr (record s { start = now }) r.servers }
]

-- `r.timeout == 0 || s.start.Add(r.timeout).After(time.Now())`
unfoldable pub is_alive : ℕ → ℕ → ServerItem → Bool
is_alive now timeout s = (timeout == 0) || ltb now (s.start + timeout)

-- The loop of `aliveServers` over the entries: the live addresses, and the map without the rest.
unfoldable pub sweep :
    ℕ
    → ℕ
    → List (Text × ServerItem)
    → List Text × GoMap Text ServerItem
    → List Text × GoMap Text ServerItem
unfolding is_alive
sweep now timeout [] acc = acc
sweep now timeout (e ∷ rest) acc = sweep now timeout rest (
    if is_alive now timeout e.1
    then (acc.0 ++ e.0 ∷ [], acc.1)
    else (acc.0, delete text_dec e.0 acc.1))

-- Byte order of strings
unfoldable pub text_leb : Text → Text → Bool
text_leb [] t = true
text_leb (c ∷ s) [] = false
text_leb (c ∷ s) (d ∷ t) = let rest = text_leb s t in ite (ℕ_discrete c d) rest (ltb c d)

-- `sort.Strings`
unfoldable pub insert_text : Text → List Text → List Text
insert_text s [] = s ∷ []
insert_text s (t ∷ ts) =
    let rest = insert_text s ts in if text_leb s t then s ∷ t ∷ ts else t ∷ rest

unfoldable pub sort_texts : List Text → List Text
unfolding insert_text
sort_texts [] = []
sort_texts (s ∷ ss) = insert_text s (sort_texts ss)

-- `aliveServers` at the time `now`
unfoldable pub alive_servers : ℕ → GeeRegistry → GeeRegistry × List Text
unfolding sweep sort_texts
alive_servers now r =
    let (alive, servers) = sweep now r.timeout r.servers ([], r.servers) in
    (record r { servers = servers }, sort_texts alive)

-- The answer of `ServeHTTP`: a status, or the header `X-Geerpc-Servers`.
pub data Answer : Type 0 where
  servers_header : Text → Answer
  status : ℕ → Answer
  accepted : Answer

pub data HttpMethod : Type 0 where
  get post : HttpMethod
  other : Text → HttpMethod

-- `ServeHTTP`; `addr` is the request's header `X-Geerpc-Server`.
unfoldable pub serve_http : ℕ → HttpMethod → Text → GeeRegistry → GeeRegistry × Answer
unfolding alive_servers put_server
serve_http now get addr r =
    let (r', alive) = alive_servers now r in (r', servers_header (join alive (b',' ∷ [])))
serve_http now post addr r =
    ite (text_dec addr []) (r, status 500) (put_server now addr r, accepted)
serve_http now (other m) addr r = (r, status 405)
