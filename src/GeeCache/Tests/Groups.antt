-- ===== src/GeeCache/Tests/Groups.antt =====
-- A group that answers from its getter, and the pool that serves it.
use days_project.Common.{
  ◌≡◌, ◌≢◌, refl, inr, [], ◌∷◌, none, some, false, Text, codes, Result, ok, err, All, text_dec,
  insert, delete, lookup, arith,
}
use days_project.GeeCache.Lru
use days_project.GeeCache.Lru.Elements.{total}
use days_project.GeeCache.Lru.Invariant.{new-IsValid}
use days_project.GeeCache.Group
use days_project.GeeCache.Group.{Group, ByteView, byte_len, cache_get, pick_peer}
use days_project.GeeCache.Group.Loads.{HasRoom}
use days_project.GeeCache.HttpPool.{HttpPool, new_http_pool, body, serve_http}
use days_project.GeeCache.HttpPool.Cached.{path_of, serve_http-twice}

abbrev scores : Text → Result Text
scores key = ok (codes "630")

abbrev group : Group
group = Group.empty_group (codes "scores") 2048 scores

group-HasRoom : HasRoom (Group.lru_of group.main_cache) (codes "Tom") (codes "630")
unfolding Group.lru_of Group.empty_group Lru.new total
group-HasRoom = record {
  valid = new-IsValid byte_len 2048 false Group.zero_entry;
  sign = omega arith;
  room = omega arith;
  fits = inr (omega arith);
}

-- The map after `NewGroup`
abbrev groups : Group.Groups
groups = (codes "scores", group) ∷ []

groups_new : Group.new_group [] (codes "scores") 2048 (some scores) ≡ some groups
unfolding Group.new_group insert delete
groups_new = refl

abbrev pool : HttpPool
pool = new_http_pool (codes "http://a")

abbrev path : Text
path = path_of pool (codes "scores") (codes "Tom")

-- The getter that the group has by the second request.
abbrev refuse : Text → Result Text
refuse key = err (codes "no such key")

scores_plain : All (λ c. c ≢ b'/') (codes "scores")
scores_plain = (λ e. cc, (λ e. cc, (λ e. cc, (λ e. cc, (λ e. cc, (λ e. cc, tt))))))

serve_http-twice_example :
    (g' g'' : Group) × (serve_http ok pool groups path
      ≡ some (insert text_dec (codes "scores") g' groups, body (codes "630")))
    × (serve_http ok pool
          (insert text_dec (codes "scores") (record g' { getter = refuse; peers = none }) groups)
          path
        ≡ some (
          insert text_dec (codes "scores") g'' (
              insert text_dec
                (codes "scores")
                (record g' { getter = refuse; peers = none })
                groups),
          body (codes "630"),
        ))
unfolding cache_get pick_peer Group.empty_group lookup text_dec
serve_http-twice_example =
    serve_http-twice ok pool groups group (codes "scores") (codes "Tom") (codes "630") (codes "630")
      refuse none scores_plain (λ e. cc) refl refl refl refl group-HasRoom refl
