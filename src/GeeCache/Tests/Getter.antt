-- ===== src/GeeCache/Tests/Getter.antt =====
-- A group whose only peer is another pool.
use days_project.Common.{
  ℕ, ◌≡◌, refl, ◌≢◌, inr, List, [], ◌∷◌, ◌++◌, Text, codes, All, In, Result, ok,
}
use days_project.GeeCache.Group.{Group, load, get_locally, empty_group}
use days_project.GeeCache.HttpPool.{HttpPool, new_http_pool, set, status}
use days_project.GeeCache.HttpPool.Peers.{serve_http-request_path}
use days_project.GeeCache.HttpPool.Getter.{HttpResponse, response_of, picker}
use days_project.GeeCache.HttpPool.Getter.Fallback.{IsServed, load-set}

abbrev same : Text → Text
same s = s

-- Each request is answered as a pool answers this one.
abbrev http_get : Text → Result HttpResponse
http_get url = ok (record { status_code = 400; read = ok (codes "bad request" ++ codes "\n") })

abbrev sum : Text → ℕ
sum [] = 0
sum (c ∷ s) = c

abbrev own : HttpPool
own = new_http_pool (codes "http://a")

abbrev others : List Text
others = codes "http://b" ∷ []

abbrev db : Text → Result Text
db key = ok (codes "630")

abbrev group : Group
group = empty_group (codes "scores") 2048 db

abbrev scores : Group
scores = record group { peers = picker same http_get ok sum (set sum own others) }

scores_plain : All (λ c. c ≢ b'/') scores.name
unfolding empty_group
scores_plain = (λ e. cc, (λ e. cc, (λ e. cc, (λ e. cc, (λ e. cc, (λ e. cc, tt))))))

tom_plain : All (λ c. c ≢ b'/') (codes "Tom")
tom_plain = (λ e. cc, (λ e. cc, (λ e. cc, tt)))

served :
    (peer : Text)
    → In peer others
    → IsServed same http_get ok ok sum own.base_path peer scores.name (codes "Tom")
unfolding response_of new_http_pool
served peer i = inr (
  new_http_pool peer,
  [],
  [],
  status 400 (codes "bad request"),
  refl,
  serve_http-request_path ok (new_http_pool peer) [] scores.name (codes "Tom") scores_plain
      tom_plain,
  refl,
)

load-set_example : load scores (codes "Tom") ≡ get_locally scores (codes "Tom")
load-set_example =
    load-set same http_get ok ok sum scores own others (codes "Tom") refl scores_plain tom_plain
      served
