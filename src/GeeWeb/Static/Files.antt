-- ===== src/GeeWeb/Static/Files.antt =====
-- Which file a static route serves.
use days_project.Common.{List, [], ◌∷◌, none, Bool, Text, codes, if◌then◌else◌}
use days_project.GeeWeb.Engine.{Engine, add_route as add_group_route}
use days_project.GeeWeb.Response.{Exchange, status}
use days_project.GeeWeb.Context.{HandlerFunc, Context}
use days_project.GeeWeb.Static.{static_handler}
use days_project.GeeWeb.Router
use days_project.GeeWeb.Router.{add_route}

-- What the handler of a static route does with the file that it is asked for.
abbrev pub answer_file : (Text → Bool) → (Exchange → Exchange) → Text → Exchange → Exchange
answer_file opens file_server file c = if opens file then file_server c else status 404 c

-- `url_pattern` of the path
abbrev pub pattern_for : (Text → Text → Text) → Text → Text
pattern_for path_join relative_path = path_join relative_path (codes "/*filepath")

-- The file server behind the prefix that it strips, in a group without a prefix
abbrev pub served_below :
    (Text → Text → Text)
    → (Text → (Exchange → Exchange) → Exchange → Exchange)
    → (Exchange → Exchange)
    → Text
    → Exchange
    → Exchange
served_below path_join strip_prefix file_server relative_path =
    strip_prefix (path_join [] relative_path) file_server

module _ {G : Type 0} (path_join : Text → Text → Text)
    (strip_prefix : Text → (Exchange → Exchange) → Exchange → Exchange) (opens : Text → Bool)
    (file_server : Exchange → Exchange) where
  abbrev handler_for : Text → HandlerFunc (Exchange × G)
  handler_for relative_path =
      static_handler path_join strip_prefix opens file_server [] relative_path

  -- A new engine with these middlewares and the route of `Static`
  abbrev with_static :
      List (HandlerFunc (Exchange × G)) → Text → Engine (HandlerFunc (Exchange × G))
  with_static ms relative_path = record {
    router =
        Router.add_route Router.new_router (codes "GET") (pattern_for path_join relative_path)
          (handler_for relative_path);
    groups = record { prefix = []; middlewares = ms; parent = none } ∷ [];
  }
